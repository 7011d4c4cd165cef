-- ===== src/Model/Layers.antt =====
-- cpp/src/model.cpp: a layer of forward over the paged cache and over the contiguous one.
use nanoinfer.Prelude.{
  ℕ, ◌+◌, ◌*◌, ◌^◌, ◌<◌, ◌≡◌, ap, subst, ◌∙◌, inl, inr, Bool, Bool-cases, List, [], ◌∷◌, Option,
  some, none, Method, Yields, yields, Yields-bind, Yields-map, Yields-anything, get_or, ◌==◌,
}
use nanoinfer.Prelude.Text.{Text}
use nanoinfer.Prelude.Methods.{run, ◌>>=◌}
use nanoinfer.Floats.{FloatOps}
use nanoinfer.Tensor.{Tensor, size}
use nanoinfer.Tensor.Host.{IsHost, IsHost-Is3d}
use nanoinfer.Ops.Shapes.{
  rmsnorm-IsHost, split_heads-IsHost, apply_rope-IsHost, merge_heads-IsHost, add-IsHost,
}
use nanoinfer.KvCache.{KvCache}
use nanoinfer.Paged.Cache.{Session}
use nanoinfer.Paged.Pass.{Pass, Pass-attend}
use nanoinfer.Config.{n_rep}
use nanoinfer.Backend.Cpu.{cpu_backend}
use nanoinfer.Model.{
  Model, weight, project, project_biased, qkv_bias_ptr, apply_qk_norm, layer_prefix,
}
use nanoinfer.Model.Ffn.{ffn}
use nanoinfer.Model.Caches.{KvCacheBase, contiguous, paged}
use nanoinfer.Model.Forward.{forward_layer, attend_or_recompute, add_projected, add_ffn}
use nanoinfer.Model.Alike.{Alike, both, Alike-bind, Alike-run, Alike-last}

-- The model on the CPU.
abbrev pub on_cpu : (fp : FloatOps) → Model fp.Float → Model fp.Float
on_cpu fp m = record m { backend = cpu_backend fp }

module _ (fp : FloatOps) (partial_sort : (ℕ → ℕ → Bool) → ℕ → List ℕ → List ℕ)
    (m : Model fp.Float) where
  open fp use {Float, zero_f}

  abbrev pub cpu : Model Float
  cpu = on_cpu fp m

  -- The rows of a tensor.
  abbrev pub Rows : ℕ → Tensor Float → Type 0
  Rows t x = size x 0 ≡ t

  -- A tensor of the three dimensions.
  abbrev Heads : ℕ → ℕ → ℕ → Tensor Float → Type 0
  Heads n t d = IsHost (n ∷ t ∷ d ∷ [])

  module _ (t : ℕ)
      (projected : (name : Text) (x : Tensor Float) (bias : Option (Tensor Float))
        → Yields (λ y. size y 0 ≡ size x 0) (project cpu x name bias)) where
    pub rmsnorm-Rows :
        (x w : Tensor Float) (eps : Float)
        → Rows t x
        → Yields (Rows t) (cpu.backend.rmsnorm x w eps)
    unfolding cpu_backend
    rmsnorm-Rows x w eps e =
        Yields-map (λ y v. ap (λ s. get_or s 0 0) v.shaped ∙ e) (rmsnorm-IsHost fp x w eps)

    project_biased-Rows :
        (x : Tensor Float) (name bias : Text)
        → Rows t x
        → Yields (Rows t) (project_biased cpu x name bias)
    project_biased-Rows x name bias e =
        Yields-bind (Yields-anything (qkv_bias_ptr cpu bias))
          λ b _. Yields-map (λ y v. v ∙ e) (projected name x b)

    split_heads-Heads :
        (x : Tensor Float) (n d : ℕ)
        → Rows t x
        → Yields (Heads n t d) (cpu.backend.split_heads x n d)
    unfolding cpu_backend
    split_heads-Heads x n d e =
        Yields-map (λ y v. subst (λ r. Heads n r d y) e v) (split_heads-IsHost zero_f x n d)

    rmsnorm-Heads :
        (x w : Tensor Float) (eps : Float) (a d : ℕ)
        → Heads a t d x
        → Yields (Heads a t d) (cpu.backend.rmsnorm x w eps)
    unfolding cpu_backend
    rmsnorm-Heads x w eps a d v =
        Yields-map (λ y u. subst (λ s. IsHost s y) v.shaped u) (rmsnorm-IsHost fp x w eps)

    apply_qk_norm-Heads :
        (q k : Tensor Float) (prefix : Text) (a b d : ℕ)
        → Heads a t d q
        → Heads b t d k
        → Yields (λ qk. Heads a t d (qk.0) × Heads b t d (qk.1)) (apply_qk_norm cpu q k prefix)
    unfolding apply_qk_norm
    apply_qk_norm-Heads q k prefix a b d wq wk = elim (Bool-cases (m.cfg.qk_norm == 0)) [
      | inl e ↦ rw e (yields (wq, wk))
      | inr e ↦ rw e (
          Yields-bind (Yields-anything (weight cpu _)) λ nq _.
            Yields-bind (rmsnorm-Heads q nq _ a d wq) λ q' wq'.
              Yields-bind (Yields-anything (weight cpu _))
                λ nk _. Yields-bind (rmsnorm-Heads k nk _ b d wk) λ k' wk'. yields (wq', wk'))
    ]

    apply_rope-Heads :
        (x cos sin : Tensor Float) (off a d : ℕ)
        → Heads a t d x
        → Yields (Heads a t d) (cpu.backend.apply_rope x cos sin off)
    unfolding cpu_backend
    apply_rope-Heads x cos sin off a d w =
        subst
          (λ s.
            Yields (IsHost (get_or s 0 0 ∷ get_or s 1 0 ∷ get_or s 2 0 ∷ []))
              (cpu.backend.apply_rope x cos sin off))
          w.shaped (apply_rope-IsHost fp x cos sin off)

    add-Rows : (x y : Tensor Float) → Rows t x → Yields (Rows t) (cpu.backend.add x y)
    unfolding cpu_backend
    add-Rows x y e = Yields-map (λ y v. ap (λ s. get_or s 0 0) v.shaped ∙ e) (add-IsHost fp x y)

    merge_heads-Rows :
        (x : Tensor Float) → size x 1 ≡ t → Yields (Rows t) (cpu.backend.merge_heads x)
    unfolding cpu_backend
    merge_heads-Rows x e =
        Yields-map (λ y v. ap (λ s. get_or s 0 0) v.shaped ∙ e) (merge_heads-IsHost zero_f x)

    module _ (others : List ℕ) (start : ℕ) (some_rep : 0 < n_rep m.cfg)
        (small_rep : n_rep m.cfg < 2 ^ 63) (few_layers : m.cfg.num_layers < 2 ^ 63)
        (grouped : m.cfg.num_attention_heads ≡ m.cfg.num_kv_heads * n_rep m.cfg) where
      -- Before a layer of the pass.
      abbrev pub Before : ℕ → KvCache Float → Session Float → Type 0
      Before = Pass fp others m.cfg.num_layers m.cfg.num_kv_heads m.cfg.head_dim start t

      abbrev pub RowsBefore : ℕ → Tensor Float → KvCache Float → Session Float → Type 0
      RowsBefore i x c s = Rows t x × Before i c s

      attend-Alike :
          (i : ℕ) (q k v : Tensor Float) (c : KvCache Float) (s : Session Float)
          → Before i c s
          → i < m.cfg.num_layers
          → Heads m.cfg.num_attention_heads t m.cfg.head_dim q
          → Heads m.cfg.num_kv_heads t m.cfg.head_dim k
          → Alike
              (λ out c s. (size out 1 ≡ t) × Before (i + 1) c s)
              (attend_or_recompute fp partial_sort cpu (contiguous fp) (some tt) i start q k v c)
              (attend_or_recompute fp partial_sort cpu (paged fp) (some tt) i start q k v s)
      unfolding attend_or_recompute
      attend-Alike i q k v c s w h wq wk =
          let (out, c', u, ec, eu, shape, next) =
            Pass-attend fp others m.cfg.num_layers m.cfg.num_kv_heads m.cfg.head_dim start t i
              (n_rep m.cfg) q k v c s w h few_layers some_rep small_rep
              (ap (λ s. get_or s 1 0) wk.shaped)
              (IsHost-Is3d _ t m.cfg.head_dim q
                (subst (λ n. Heads n t m.cfg.head_dim q) grouped wq)) in
          rw (ec, eu) (both (shape, next))

      add_projected-Alike :
          (i : ℕ) (x a : Tensor Float) (prefix : Text) (c : KvCache Float) (s : Session Float)
          → Rows t x
          → Before i c s
          → Alike
              (RowsBefore i)
              (add_projected fp partial_sort cpu (contiguous fp) x a prefix c)
              (add_projected fp partial_sort cpu (paged fp) x a prefix s)
      unfolding add_projected
      add_projected-Alike i x a prefix c s e w =
          Alike-run (project cpu a _ none) _ _ c s (Yields-anything _)
            λ p _. Alike-last _ c s (Yields-map (λ y r. (r, w)) (add-Rows x p e))

      add_ffn-Alike :
          (i : ℕ) (x : Tensor Float) (prefix : Text) (c : KvCache Float) (s : Session Float)
          → Rows t x
          → Before i c s
          → Alike
              (RowsBefore i)
              (add_ffn fp partial_sort cpu (contiguous fp) x prefix c)
              (add_ffn fp partial_sort cpu (paged fp) x prefix s)
      unfolding add_ffn
      add_ffn-Alike i x prefix c s e w =
          Alike-run (weight cpu _) _ _ c s (Yields-anything _) λ norm _.
            Alike-run (cpu.backend.rmsnorm x norm _) _ _ c s (Yields-anything _) λ hm _.
              Alike-run (ffn fp partial_sort cpu hm prefix) _ _ c s (Yields-anything _)
                λ y _. Alike-last _ c s (Yields-map (λ z r. (r, w)) (add-Rows x y e))

      -- What follows the attention of a layer.
      unfoldable rest_of_layer :
          {World : Type 0}
          → KvCacheBase Float World
          → ℕ
          → Tensor Float
          → Tensor Float
          → Method World (Tensor Float)
      rest_of_layer store i x a = do
        a ← run (cpu.backend.merge_heads a)
        x ← add_projected fp partial_sort cpu store x a (layer_prefix i)
        add_ffn fp partial_sort cpu store x (layer_prefix i)

      rest_of_layer-Alike :
          (j i : ℕ) (x a : Tensor Float) (c : KvCache Float) (s : Session Float)
          → Rows t x
          → Before i c s
          → Alike
              (RowsBefore i)
              (rest_of_layer (contiguous fp) j x a c)
              (rest_of_layer (paged fp) j x a s)
      unfolding rest_of_layer
      rest_of_layer-Alike j i x a c s e w =
          Alike-run (cpu.backend.merge_heads a) _ _ c s (Yields-anything _) λ b _.
            Alike-bind (add_projected fp partial_sort cpu (contiguous fp) x b (layer_prefix j))
              (add_projected fp partial_sort cpu (paged fp) x b (layer_prefix j))
              (λ y. add_ffn fp partial_sort cpu (contiguous fp) y (layer_prefix j))
              (λ y. add_ffn fp partial_sort cpu (paged fp) y (layer_prefix j)) c s
              (add_projected-Alike i x b (layer_prefix j) c s e w)
              λ y c s p. add_ffn-Alike i y (layer_prefix j) c s (p.0) (p.1)

      pub forward_layer-Alike :
          (i : ℕ) (x : Tensor Float) (c : KvCache Float) (s : Session Float)
          → i < m.cfg.num_layers
          → RowsBefore i x c s
          → Alike
              (RowsBefore (i + 1))
              (forward_layer fp partial_sort cpu (contiguous fp) (some tt) start i x c)
              (forward_layer fp partial_sort cpu (paged fp) (some tt) start i x s)
      unfolding forward_layer rest_of_layer
      forward_layer-Alike i x c s h (e, w) =
          Alike-run (weight cpu _) _ _ c s (Yields-anything _) λ norm _.
            Alike-run (cpu.backend.rmsnorm x norm _) _ _ c s (rmsnorm-Rows x norm _ e) λ hm hr.
              Alike-run (project_biased cpu hm _ _) _ _ c s (project_biased-Rows hm _ _ hr) λ q qr.
                Alike-run (project_biased cpu hm _ _) _ _ c s (project_biased-Rows hm _ _ hr)
                  λ k kr. Alike-run (project_biased cpu hm _ _) _ _ c s (Yields-anything _) λ v _.
                    Alike-run (cpu.backend.split_heads q _ _) _ _ c s (split_heads-Heads q _ _ qr)
                      λ q qw.
                        Alike-run (cpu.backend.split_heads k _ _) _ _ c s
                          (split_heads-Heads k _ _ kr)
                          λ k kw.
                            Alike-run (cpu.backend.split_heads v _ _) _ _ c s (Yields-anything _)
                              λ v _.
                                Alike-run (apply_qk_norm cpu q k (layer_prefix i)) _ _ c s
                                  (apply_qk_norm-Heads q k (layer_prefix i) _ _ _ qw kw)
                                  λ qk qkw.
                                    Alike-run
                                      (cpu.backend.apply_rope (qk.0) m.rope.cos m.rope.sin start) _
                                      _ c s (apply_rope-Heads (qk.0) _ _ start _ _ (qkw.0))
                                      λ q qw.
                                        Alike-run
                                          (cpu.backend.apply_rope (qk.1) m.rope.cos m.rope.sin
                                            start)
                                          _ _ c s (apply_rope-Heads (qk.1) _ _ start _ _ (qkw.1))
                                          λ k kw.
                                            Alike-bind
                                              (attend_or_recompute fp partial_sort cpu
                                                (contiguous fp) (some tt) i start q k v)
                                              (attend_or_recompute fp partial_sort cpu (paged fp)
                                                (some tt) i start q k v)
                                              (rest_of_layer (contiguous fp) i x)
                                              (rest_of_layer (paged fp) i x) c s
                                              (attend-Alike i q k v c s w h qw kw)
                                              λ a c s p.
                                                rest_of_layer-Alike i (i + 1) x a c s e (p.1)
