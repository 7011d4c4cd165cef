-- ===== src/Model/Forward.antt =====
-- cpp/src/model.cpp: Model::forward.
use nanoinfer.Prelude.{
  ℕ, ◌+◌, Bool, true, List, Option, none, some, ◌++◌, length, ltb, runtime_error, Method,
}
use nanoinfer.Prelude.Text.{Text, codes}
use nanoinfer.Prelude.Methods.{run, gets, modify, for_method, raise_if, ◌>>=◌, ◌>>◌}
use nanoinfer.Floats.{FloatOps}
use nanoinfer.Tensor.{Tensor, size}
use nanoinfer.Config.{n_rep}
use nanoinfer.Model.{
  Model, layer_prefix, weight, project, project_biased, apply_qk_norm, embed_tokens, lm_head_of,
}
use nanoinfer.Model.Ffn.{ffn}
use nanoinfer.Model.Caches.{KvCacheBase}

module _ (fp : FloatOps) (partial_sort : (ℕ → ℕ → Bool) → ℕ → List ℕ → List ℕ) (m : Model fp.Float)
    {World : Type 0} (store : KvCacheBase fp.Float World) where
  open fp use {Float}
  open store use {Ref}

  -- The cached length, or 0 without a cache.
  unfoldable pub start_of : Option Ref → World → ℕ
  start_of none w = 0
  start_of (some ref) w = store.length ref w

  unfoldable pub attend_or_recompute :
      Option Ref → ℕ → ℕ → Tensor Float → Tensor Float → Tensor Float → Method World (Tensor Float)
  attend_or_recompute (some ref) i start q k v = store.attend ref i q k v (n_rep m.cfg) true start
  attend_or_recompute none i start q k v = do
    kk ← run (m.backend.repeat_kv k (n_rep m.cfg))
    vv ← run (m.backend.repeat_kv v (n_rep m.cfg))
    run (m.backend.attention q kk vv true 0)

  -- `a = merge_heads(a)`, its projection, and the residual.
  unfoldable pub add_projected : Tensor Float → Tensor Float → Text → Method World (Tensor Float)
  unfolding project
  add_projected x a prefix = do
    a ← run (project m a (prefix ++ codes "self_attn.o_proj.weight") none)
    run (m.backend.add x a)

  -- The second half of a layer.
  unfoldable pub add_ffn : Tensor Float → Text → Method World (Tensor Float)
  unfolding weight ffn
  add_ffn x prefix = do
    norm ← run (weight m (prefix ++ codes "post_attention_layernorm.weight"))
    hm ← run (m.backend.rmsnorm x norm m.cfg.rms_norm_eps)
    run (m.backend.add x (← run (ffn fp partial_sort m hm prefix)))

  -- The body of the loop over layers.
  unfoldable pub forward_layer : Option Ref → ℕ → ℕ → Tensor Float → Method World (Tensor Float)
  unfolding layer_prefix weight apply_qk_norm attend_or_recompute add_projected add_ffn
  forward_layer cache start i x = do
    norm ← run (weight m (layer_prefix i ++ codes "input_layernorm.weight"))
    h ← run (m.backend.rmsnorm x norm m.cfg.rms_norm_eps)
    q ← run (
        project_biased m h (layer_prefix i ++ codes "self_attn.q_proj.weight")
          (layer_prefix i ++ codes "self_attn.q_proj.bias"))
    k ← run (
        project_biased m h (layer_prefix i ++ codes "self_attn.k_proj.weight")
          (layer_prefix i ++ codes "self_attn.k_proj.bias"))
    v ← run (
        project_biased m h (layer_prefix i ++ codes "self_attn.v_proj.weight")
          (layer_prefix i ++ codes "self_attn.v_proj.bias"))
    q ← run (m.backend.split_heads q m.cfg.num_attention_heads m.cfg.head_dim)
    k ← run (m.backend.split_heads k m.cfg.num_kv_heads m.cfg.head_dim)
    v ← run (m.backend.split_heads v m.cfg.num_kv_heads m.cfg.head_dim)
    qk ← run (apply_qk_norm m q k (layer_prefix i))
    q ← run (m.backend.apply_rope (qk.0) m.rope.cos m.rope.sin start)
    k ← run (m.backend.apply_rope (qk.1) m.rope.cos m.rope.sin start)
    a ← attend_or_recompute cache i start q k v
    a ← run (m.backend.merge_heads a)
    x ← add_projected x a (layer_prefix i)
    add_ffn x (layer_prefix i)

  -- `if (cache) cache->advance(seq)`
  unfoldable pub advance_by : Option Ref → ℕ → World → World
  advance_by none n w = w
  advance_by (some ref) n w = store.advance ref n w

  -- The final norm and the output projection.
  unfoldable pub logits_of : Tensor Float → Method World (Tensor Float)
  unfolding weight lm_head_of
  logits_of x = do
    norm ← run (weight m (codes "norm.weight"))
    h ← run (m.backend.rmsnorm x norm m.cfg.rms_norm_eps)
    logits ← run (lm_head_of m h)
    run (m.backend.finalize_logits logits)

  unfoldable pub forward : List ℕ → Option Ref → Method World (Tensor Float)
  unfolding start_of embed_tokens forward_layer advance_by logits_of
  forward ids cache = do
    start ← gets (start_of cache)
    raise_if (ltb (size m.rope.cos 0) (start + length ids)) runtime_error
    x ← run (embed_tokens m ids)
    x ← for_method m.cfg.num_layers 0 (forward_layer cache start) x
    modify (advance_by cache (length ids))
    logits_of x
