-- ===== src/Config.antt =====
-- cpp/src/config.hpp and config.cpp: what a model is made of. Integers are `int64_t` as bit patterns.
pub mod Stream
pub mod Load
pub mod Valid
pub mod Fuel
mod Tests
use nanoinfer.Prelude.{ℕ, ◌-◌, ◌^◌, ◌/◌}
use nanoinfer.Floats.{FloatOps}

pub data ActFn : Type 0 where
  silu gelu : ActFn

-- `None` is the scaling that changes nothing.
pub data RopeScaling : Type 0 where
  unscaled llama3 : RopeScaling

pub record Config (F : Type 0) : Type 0 where
  pub vocab_size : ℕ
  pub hidden_size : ℕ
  pub intermediate_size : ℕ
  pub num_layers : ℕ
  pub num_attention_heads : ℕ
  pub num_kv_heads : ℕ
  pub head_dim : ℕ
  pub max_position_embeddings : ℕ
  pub rms_norm_eps : F
  pub rope_theta : F
  pub tie_word_embeddings : ℕ
  pub eos_token_id : ℕ
  pub nit0_version : ℕ
  pub qkv_bias : ℕ
  pub qk_norm : ℕ
  pub act_fn : ActFn
  pub rope_scaling : RopeScaling
  pub rope_scaling_factor : F
  pub rope_scaling_low_freq : F
  pub rope_scaling_high_freq : F
  pub rope_scaling_orig_max_pos : ℕ
  pub embedding_multiplier : F
  pub attention_multiplier : F
  pub residual_multiplier : F
  pub logits_scaling : F
  pub n_experts : ℕ
  pub moe_top_k : ℕ
  pub moe_intermediate_size : ℕ
  pub sliding_window : ℕ
  pub sliding_pattern : ℕ

-- Division by 0 is not defined in C++; `load_config` refuses it.
unfoldable pub n_rep : {F : Type 0} → Config F → ℕ
n_rep c = c.num_attention_heads / c.num_kv_heads

module _ (fp : FloatOps) where
  open fp use {Float, one_f, of_ℕ, div_f}

  -- The initializers of the fields. `eps` stands for the literal 1e-6f.
  unfoldable pub default_config : Float → Config Float
  default_config eps = record {
    vocab_size = 0;
    hidden_size = 0;
    intermediate_size = 0;
    num_layers = 0;
    num_attention_heads = 0;
    num_kv_heads = 0;
    head_dim = 0;
    max_position_embeddings = 0;
    rms_norm_eps = eps;
    rope_theta = of_ℕ 10000;
    tie_word_embeddings = 0;
    eos_token_id = 2 ^ 64 - 1;
    nit0_version = 1;
    qkv_bias = 1;
    qk_norm = 0;
    act_fn = ActFn.silu;
    rope_scaling = RopeScaling.unscaled;
    rope_scaling_factor = one_f;
    rope_scaling_low_freq = one_f;
    rope_scaling_high_freq = of_ℕ 4;
    rope_scaling_orig_max_pos = 0;
    embedding_multiplier = one_f;
    attention_multiplier = one_f;
    residual_multiplier = one_f;
    logits_scaling = one_f;
    n_experts = 0;
    moe_top_k = 0;
    moe_intermediate_size = 0;
    sliding_window = 0;
    sliding_pattern = 0;
  }
