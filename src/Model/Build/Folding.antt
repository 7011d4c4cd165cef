-- ===== src/Model/Build/Folding.antt =====
-- cpp/src/model.cpp: the scalars of the configuration that the constructor of Model folds into the weights.
use nanoinfer.Prelude.{
  Bool, not, List, ◌++◌, ◌==◌, if◌then◌else◌, Result, ok, runtime_error, ◌>>◌, raise_if,
}
use nanoinfer.Prelude.Loops.{for_range}
use nanoinfer.Prelude.Text.{Text, codes, to_string, update_at}
use nanoinfer.Floats.{FloatOps}
use nanoinfer.Tensor.{Tensor}
use nanoinfer.Ops.Attention.{flat, set_flat}
use nanoinfer.Config.{Config}

module _ (fp : FloatOps) where
  open fp use {Float, one_f, of_ℕ, mul_f, div_f, eq_f, sqrt_f}

  abbrev pub Weights : Type 0
  Weights = List (Text × Tensor Float)

  -- `t.data()[i] *= s` for every entry.
  unfoldable pub scale_entries : Float → Tensor Float → Tensor Float
  scale_entries s t = for_range t.numel 0 (λ i t. set_flat fp t i (mul_f (flat fp t i) s)) t

  unfoldable pub scale_weight : Text → Float → Weights → Weights
  unfolding scale_entries update_at
  scale_weight name s w = update_at name (scale_entries s) w

  -- A scalar that is not 1.
  abbrev pub is_scaled : Float → Bool
  is_scaled x = not (eq_f x one_f)

  unfoldable pub fold_attention : Config Float → Weights → Weights
  unfolding scale_weight to_string
  fold_attention c w =
      let r = mul_f c.attention_multiplier (sqrt_f (of_ℕ c.head_dim)) in
      for_range c.num_layers 0
        (λ i w.
          let prefix = codes "layers." ++ to_string i ++ codes ".self_attn.q_proj." in
          scale_weight (prefix ++ codes "bias") r (scale_weight (prefix ++ codes "weight") r w))
        w

  unfoldable pub fold_residual : Config Float → Weights → Weights
  unfolding scale_weight to_string
  fold_residual c w =
      for_range c.num_layers 0
        (λ i w.
          let prefix = codes "layers." ++ to_string i ++ codes "." in
          let attn =
            scale_weight (prefix ++ codes "self_attn.o_proj.weight") c.residual_multiplier w in
          let dense =
            scale_weight (prefix ++ codes "mlp.down_proj.weight") c.residual_multiplier attn in
          for_range c.n_experts 0
            (λ e w.
              scale_weight
                (prefix ++ codes "mlp.experts." ++ to_string e ++ codes ".down_proj.weight")
                c.residual_multiplier w)
            dense)
        w

  -- `lm_div`
  unfoldable pub logits_divisor : Config Float → Float
  logits_divisor c =
      if c.tie_word_embeddings == 0
      then c.logits_scaling
      else mul_f c.logits_scaling c.embedding_multiplier

  unfoldable pub fold_ends : Config Float → Weights → Weights
  unfolding scale_weight logits_divisor
  fold_ends c w =
      let embedded =
        if is_scaled c.embedding_multiplier
        then scale_weight (codes "embed_tokens.weight") c.embedding_multiplier w
        else w in
      let divisor = logits_divisor c in
      if is_scaled divisor
      then scale_weight (codes "norm.weight") (div_f one_f divisor) embedded
      else embedded

  unfoldable pub fold_scalars : Config Float → Weights → Result Weights
  unfolding fold_attention fold_residual fold_ends
  fold_scalars c w =
      let queries = if is_scaled c.attention_multiplier then fold_attention c w else w in
      let outputs = if is_scaled c.residual_multiplier then fold_residual c queries else queries in
      if is_scaled c.attention_multiplier
      then raise_if (not (c.qk_norm == 0)) runtime_error >> ok (fold_ends c outputs)
      else ok (fold_ends c outputs)
