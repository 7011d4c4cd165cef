-- ===== src/Config/Load.antt =====
-- cpp/src/config.cpp: load_config.
use nanoinfer.Prelude.{
  ℕ, zero, suc, ◌+◌, ◌%◌, Bool, true, false, not, ◌||◌, Option, none, some, ◌==◌, if◌then◌else◌,
  is_negative, length, Result, ok, throw, runtime_error, ◌>>=◌, ◌>>◌, raise_if,
}
use nanoinfer.Prelude.Text.{Text, codes, same_text}
use nanoinfer.Floats.{FloatOps}
use nanoinfer.Config.{ActFn, RopeScaling, Config, default_config}
use nanoinfer.Config.Stream.{Stream, read_word, read_int}

module _ (F : Type 0) where
  -- A field of the struct: its value, and the write of another.
  abbrev pub Field : Type 0 → Type 0
  Field A = (Config F → A) × (A → Config F → Config F)

  -- The integer field that a key names, as the chain of comparisons finds it.
  unfoldable pub int_field : Text → Option (Field ℕ)
  unfolding same_text
  int_field key =
      if same_text key (codes "vocab_size")
      then some (λ c. c.vocab_size, λ x c. record c { vocab_size = x })
      else if same_text key (codes "hidden_size")
      then some (λ c. c.hidden_size, λ x c. record c { hidden_size = x })
      else if same_text key (codes "intermediate_size")
      then some (λ c. c.intermediate_size, λ x c. record c { intermediate_size = x })
      else if same_text key (codes "num_layers")
      then some (λ c. c.num_layers, λ x c. record c { num_layers = x })
      else if same_text key (codes "num_attention_heads")
      then some (λ c. c.num_attention_heads, λ x c. record c { num_attention_heads = x })
      else if same_text key (codes "num_kv_heads")
      then some (λ c. c.num_kv_heads, λ x c. record c { num_kv_heads = x })
      else if same_text key (codes "head_dim")
      then some (λ c. c.head_dim, λ x c. record c { head_dim = x })
      else if same_text key (codes "max_position_embeddings")
      then some (λ c. c.max_position_embeddings, λ x c. record c { max_position_embeddings = x })
      else if same_text key (codes "tie_word_embeddings")
      then some (λ c. c.tie_word_embeddings, λ x c. record c { tie_word_embeddings = x })
      else if same_text key (codes "eos_token_id")
      then some (λ c. c.eos_token_id, λ x c. record c { eos_token_id = x })
      else if same_text key (codes "nit0_version")
      then some (λ c. c.nit0_version, λ x c. record c { nit0_version = x })
      else if same_text key (codes "qkv_bias")
      then some (λ c. c.qkv_bias, λ x c. record c { qkv_bias = x })
      else if same_text key (codes "qk_norm")
      then some (λ c. c.qk_norm, λ x c. record c { qk_norm = x })
      else if same_text key (codes "rope_scaling_orig_max_pos")
      then some
          (λ c. c.rope_scaling_orig_max_pos, λ x c. record c { rope_scaling_orig_max_pos = x })
      else if same_text key (codes "n_experts")
      then some (λ c. c.n_experts, λ x c. record c { n_experts = x })
      else if same_text key (codes "moe_top_k")
      then some (λ c. c.moe_top_k, λ x c. record c { moe_top_k = x })
      else if same_text key (codes "moe_intermediate_size")
      then some (λ c. c.moe_intermediate_size, λ x c. record c { moe_intermediate_size = x })
      else if same_text key (codes "sliding_window")
      then some (λ c. c.sliding_window, λ x c. record c { sliding_window = x })
      else if same_text key (codes "sliding_pattern")
      then some (λ c. c.sliding_pattern, λ x c. record c { sliding_pattern = x })
      else none

  unfoldable pub float_field : Text → Option (Field F)
  unfolding same_text
  float_field key =
      if same_text key (codes "rms_norm_eps")
      then some (λ c. c.rms_norm_eps, λ x c. record c { rms_norm_eps = x })
      else if same_text key (codes "rope_theta")
      then some (λ c. c.rope_theta, λ x c. record c { rope_theta = x })
      else if same_text key (codes "rope_scaling_factor")
      then some (λ c. c.rope_scaling_factor, λ x c. record c { rope_scaling_factor = x })
      else if same_text key (codes "rope_scaling_low_freq")
      then some (λ c. c.rope_scaling_low_freq, λ x c. record c { rope_scaling_low_freq = x })
      else if same_text key (codes "rope_scaling_high_freq")
      then some (λ c. c.rope_scaling_high_freq, λ x c. record c { rope_scaling_high_freq = x })
      else if same_text key (codes "embedding_multiplier")
      then some (λ c. c.embedding_multiplier, λ x c. record c { embedding_multiplier = x })
      else if same_text key (codes "attention_multiplier")
      then some (λ c. c.attention_multiplier, λ x c. record c { attention_multiplier = x })
      else if same_text key (codes "residual_multiplier")
      then some (λ c. c.residual_multiplier, λ x c. record c { residual_multiplier = x })
      else if same_text key (codes "logits_scaling")
      then some (λ c. c.logits_scaling, λ x c. record c { logits_scaling = x })
      else none

unfoldable pub act_fn_of : Text → Result ActFn
unfolding same_text
act_fn_of v =
    if same_text v (codes "silu")
    then ok ActFn.silu
    else if same_text v (codes "gelu")
    then ok ActFn.gelu
    else throw runtime_error

unfoldable pub rope_scaling_of : Text → Result RopeScaling
unfolding same_text
rope_scaling_of v =
    if same_text v (codes "none")
    then ok RopeScaling.unscaled
    else if same_text v (codes "llama3")
    then ok RopeScaling.llama3
    else throw runtime_error

-- `v <= 0`
abbrev pub is_nonpos : ℕ → Bool
is_nonpos v = is_negative v || v == 0

-- `need`, whose name for the message is left out.
unfoldable pub need : ℕ → Result (Unit {0})
need v = raise_if (is_nonpos v) runtime_error

-- The checks at the end of `load_config`.
unfoldable pub validate : {F : Type 0} → Config F → Result (Config F)
unfolding need
validate c =
    need c.vocab_size
    >> need c.hidden_size
    >> need c.intermediate_size
    >> need c.num_layers
    >> need c.num_attention_heads
    >> need c.num_kv_heads
    >> need c.head_dim
    >> need c.max_position_embeddings
    >> raise_if (not (c.num_attention_heads % c.num_kv_heads == 0)) runtime_error
    >> ok c

-- `read_float old f` is `f >> x` for a float that holds `old`.
module _ (fp : FloatOps) (read_float : fp.Float → Stream → fp.Float × Stream) where
  open fp use {Float}

  -- The branches of the two keys whose value is a word, and of unknown keys.
  unfoldable pub read_word_value : Text → Config Float → Stream → Result (Config Float × Stream)
  unfolding act_fn_of rope_scaling_of
  read_word_value key c f =
      let (v, f) = read_word f in
      if same_text key (codes "act_fn")
      then act_fn_of v >>= (λ a. ok (record c { act_fn = a }, f))
      else if same_text key (codes "rope_scaling")
      then rope_scaling_of v >>= (λ r. ok (record c { rope_scaling = r }, f))
      else ok (c, f)

  -- The branch of a key, by the field that it names.
  unfoldable pub read_field :
      Option (Field Float ℕ)
      → Option (Field Float Float)
      → Text
      → Config Float
      → Stream
      → Result (Config Float × Stream)
  unfolding read_word_value
  read_field (some (get, put)) g key c f = let (x, f) = read_int (get c) f in ok (put x c, f)
  read_field none (some (get, put)) key c f = let (x, f) = read_float (get c) f in ok (put x c, f)
  read_field none none key c f = read_word_value key c f

  -- The body of the loop, after the key is read.
  unfoldable pub read_value : Text → Config Float → Stream → Result (Config Float × Stream)
  unfolding int_field float_field read_field
  read_value key c f = read_field (int_field Float key) (float_field Float key) key c f

  -- What follows a round: an exception leaves the loop.
  abbrev pub after_round :
      Result (Config Float × Stream)
      → (Config Float → Stream → Option (Result (Config Float)))
      → Option (Result (Config Float))
  after_round (ok (c, f)) rest = rest c f
  after_round (throw e) rest = some (throw e)

  -- `while (f >> key)`. The loop ends when a key cannot be read; `none` is a loop that still runs after
  -- the rounds it is given.
  unfoldable pub read_fields : ℕ → Config Float → Stream → Option (Result (Config Float))
  unfolding read_value
  read_fields zero c f = none
  read_fields (suc fuel) c f =
      let (key, f) = read_word f in
      let rest : Config Float → Stream → Option (Result (Config Float)) =
        λ c f. read_fields fuel c f in
      if f.failed then some (ok c) else after_round (read_value key c f) rest

  -- What the loop leaves. One that still runs leaves nothing, and is told as an exception.
  abbrev pub outcome : Option (Result (Config Float)) → Result (Config Float)
  outcome (some r) = r
  outcome none = throw runtime_error

  -- `none` is a file that does not open. Every round but the last reads a byte.
  unfoldable pub load_config : Float → Option Text → Result (Config Float)
  unfolding read_fields validate
  load_config eps none = throw runtime_error
  load_config eps (some bytes) =
      outcome (
        read_fields (length bytes + 1) (default_config fp eps)
          (record { rest = bytes; good = true; failed = false }))
      >>= validate
