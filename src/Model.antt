-- ===== src/Model.antt =====
-- cpp/src/model.hpp and model.cpp: a model, its weights by name, and the operations on them.
pub mod Ffn
pub mod Caches
pub mod Forward
pub mod Batch
pub mod Build
pub mod Sizes
pub mod Alike
pub mod Layers
pub mod Refinement
pub mod Tests
use nanoinfer.Prelude.{
  ℕ, ◌+◌, Bool, not, ◌&&◌, ◌||◌, List, Option, none, some, ◌++◌, ◌==◌, if◌then◌else◌, Result, ok,
  throw, runtime_error, ◌>>=◌, ◌>>◌,
}
use nanoinfer.Prelude.Text.{Text, codes, same_text, has_prefix, has_suffix, to_string, find}
use nanoinfer.Tensor.{Tensor}
use nanoinfer.Ops.Rope.{RopeCache}
use nanoinfer.Quant.Weights.{Weight}
use nanoinfer.Config.{Config}
use nanoinfer.Backend.{Backend}

unfoldable pub is_layer_proj : Text → Bool
unfolding has_prefix has_suffix
is_layer_proj name = has_prefix (codes "layers.") name && has_suffix (codes "_proj.weight") name

unfoldable pub is_half_eligible : Text → Bool
unfolding is_layer_proj same_text
is_half_eligible name =
    is_layer_proj name
    || (same_text name (codes "embed_tokens.weight") || same_text name (codes "lm_head.weight"))

-- `none` for `lm_head` is the null pointer of a tied model. The constructor always makes `embed`.
pub record Model (F : Type 0) : Type 0 where
  pub backend : Backend F
  pub cfg : Config F
  pub w : List (Text × Tensor F)
  pub weights : List (Text × Weight F)
  pub embed : Weight F
  pub lm_head : Option (Weight F)
  pub rope : RopeCache F

-- "layers.i."
unfoldable pub layer_prefix : ℕ → Text
unfolding to_string
layer_prefix i = codes "layers." ++ to_string i ++ codes "."

-- What a lookup finds, or the exception of a missing name.
abbrev pub or_missing {ℓ} : {A : Type ℓ} → Option A → Result A
or_missing none = throw runtime_error
or_missing (some a) = ok a

module _ {F : Type 0} (m : Model F) where
  -- `Model::W`
  unfoldable pub weight : Text → Result (Tensor F)
  unfolding find
  weight name = or_missing (find name m.w)

  unfoldable pub qkv_bias_ptr : Text → Result (Option (Tensor F))
  unfolding weight
  qkv_bias_ptr name = if m.cfg.qkv_bias == 0 then ok none else weight name >>= λ b. ok (some b)

  unfoldable pub project : Tensor F → Text → Option (Tensor F) → Result (Tensor F)
  unfolding find
  project x name bias = or_missing (find name m.weights) >>= λ w. w.linear x bias

  -- A projection with the bias of its name.
  abbrev pub project_biased : Tensor F → Text → Text → Result (Tensor F)
  project_biased x name bias_name = qkv_bias_ptr bias_name >>= project x name

  unfoldable pub apply_qk_norm : Tensor F → Tensor F → Text → Result (Tensor F × Tensor F)
  unfolding weight
  apply_qk_norm q k prefix = if m.cfg.qk_norm == 0 then ok (q, k) else do
    q' ←
        m.backend.rmsnorm q (← weight (prefix ++ codes "self_attn.q_norm.weight"))
          m.cfg.rms_norm_eps
    k' ←
        m.backend.rmsnorm k (← weight (prefix ++ codes "self_attn.k_norm.weight"))
          m.cfg.rms_norm_eps
    ok (q', k')

  unfoldable pub embed_tokens : List ℕ → Result (Tensor F)
  embed_tokens ids = m.embed.gather ids

  unfoldable pub lm_head_of : Tensor F → Result (Tensor F)
  lm_head_of x = elim m.lm_head [ some head ↦ head.linear x none | none ↦ m.embed.linear x none ]
