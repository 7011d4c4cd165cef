-- ===== src/Model/Refinement.antt =====
-- cpp/src/model.cpp: forward over the paged cache answers as forward over the contiguous one.
use nanoinfer.Prelude.{
  ℕ, ◌+◌, ◌*◌, ◌^◌, ◌≤◌, ◌<◌, ◌≡◌, refl, sym, ap, subst, ◌∙◌, Bool, List, Option, some, length,
  arith, runtime_error, ltb, Method, Yields, Yields-anything, Yields-map,
}
use native.Mathlib.Nat.{le_trans}
use nanoinfer.Prelude.{raise_if as result_raise_if}
use nanoinfer.Prelude.Arith.{div_mono}
use nanoinfer.Prelude.Text.{Text}
use nanoinfer.Prelude.Methods.{run, modify, raise_if, for_method, ◌>>=◌, ◌>>◌}
use nanoinfer.Floats.{FloatOps}
use nanoinfer.Tensor.{Tensor, size}
use nanoinfer.KvCache.{KvCache}
use nanoinfer.KvCache as Contiguous
use nanoinfer.KvCache.Update.{IsCache}
use nanoinfer.Paged.Cache.{Session}
use nanoinfer.Paged.Cache as Paged
use nanoinfer.Paged.Cache.Attend.Contract.{IsHealthy}
use nanoinfer.Paged.Refinement.{Represents, AgreesUpTo}
use nanoinfer.Paged.Pass.{Pass}
use nanoinfer.Config.{n_rep}
use nanoinfer.Model.{Model, weight, project, embed_tokens, lm_head_of}
use nanoinfer.Model.Caches.{KvCacheBase, contiguous, paged}
use nanoinfer.Model.Forward.{forward, forward_layer, start_of, advance_by, logits_of}
use nanoinfer.Model.Alike.{Alike, Alike-bind, Alike-run, Alike-last, Alike-for_method}
use nanoinfer.Model.Layers.{on_cpu, RowsBefore, forward_layer-Alike}

module _ (fp : FloatOps) (layers : ℕ) (others : List ℕ) where
  open fp use {Float, zero_f}

  -- Two caches of one sequence of `n` tokens, which may both be extended.
  pub record Describe (n : ℕ) (c : KvCache Float) (s : Session Float) : Type 0 where
    pub one_sequence : Represents fp layers c s
    pub cache : IsCache zero_f c
    pub healthy : IsHealthy others layers s
    pub holds : c.filled ≡ n

  module _ (heads dim start t : ℕ) (some_layer : 0 < layers) (c : KvCache Float) (s : Session Float)
      (w : Pass fp others layers heads dim start t layers c s) where
    Describe-advance : Describe (start + t) (Contiguous.advance t c) (Paged.advance t s)
    unfolding Contiguous.advance Paged.advance
    Describe-advance = record {
      one_sequence = record {
        same_filled = ap (λ n. n + t) (w.c_filled ∙ sym w.s_filled);
        same_heads = w.c_heads ∙ sym w.s_heads;
        same_dim = w.c_dim ∙ sym w.s_dim;
        same_entries =
            λ l h. subst (λ n. AgreesUpTo fp l (n + t) c s) (sym w.c_filled) (w.after l h);
      };
      cache = record {
        values = w.cache.values;
        bounded = omega (arith, w.c_filled, w.c_room);
        planes = w.cache.planes;
      };
      healthy = record {
        backed = record {
          accounts = w.healthy.backed.accounts;
          covered = omega (arith, w.s_filled, w.covered some_layer);
        };
        memory = w.healthy.memory;
        positive = w.healthy.positive;
        exclusive = λ i low high.
            w.healthy.exclusive i
              (le_trans
                (div_mono s.pool.block_size s.cache.filled (s.cache.filled + t) w.healthy.positive
                  (omega arith))
                low)
              high;
      };
      holds = ap (λ n. n + t) w.c_filled;
    }

module _ (fp : FloatOps) (others : List ℕ) (layers heads dim t : ℕ) (c : KvCache fp.Float)
    (s : Session fp.Float) where
  -- Before the first layer.
  Pass-start :
      Describe fp layers others c.filled c s
      → length c.k ≡ layers
      → c.n_kv_heads ≡ heads
      → c.head_dim ≡ dim
      → c.filled + t ≤ c.max_seq
      → c.filled + t ≤ (length s.cache.block_table + length s.pool.free_list) * s.pool.block_size
      → Pass fp others layers heads dim c.filled t 0 c s
  Pass-start w all_layers same_heads same_dim c_room s_room = record {
    cache = w.cache;
    healthy = w.healthy;
    all_layers = all_layers;
    c_filled = refl;
    s_filled = sym w.one_sequence.same_filled;
    c_heads = same_heads;
    s_heads = sym w.one_sequence.same_heads ∙ same_heads;
    c_dim = same_dim;
    s_dim = sym w.one_sequence.same_dim ∙ same_dim;
    c_room = c_room;
    s_room = s_room;
    covered = λ h. omega (arith, h);
    before = w.one_sequence.same_entries;
    after = λ l h. absurd (omega (arith, h));
  }

module _ (fp : FloatOps) (partial_sort : (ℕ → ℕ → Bool) → ℕ → List ℕ → List ℕ)
    (m : Model fp.Float) where
  open fp use {Float, zero_f}

  abbrev cpu : Model Float
  cpu = on_cpu fp m

  logits-Alike :
      (P : KvCache Float → Session Float → Type 0) (x : Tensor Float) (c : KvCache Float)
      (s : Session Float)
      → P c s
      → Alike
          (λ y c s. P c s)
          (logits_of fp partial_sort cpu (contiguous fp) x c)
          (logits_of fp partial_sort cpu (paged fp) x s)
  unfolding logits_of
  logits-Alike P x c s p = Alike-run (weight cpu _) _ _ c s (Yields-anything _) λ norm _.
      Alike-run (cpu.backend.rmsnorm x norm m.cfg.rms_norm_eps) _ _ c s (Yields-anything _) λ h _.
        Alike-run (lm_head_of cpu h) _ _ c s (Yields-anything _)
          λ logits _. Alike-last _ c s (Yields-map (λ y _. p) (Yields-anything _))

  -- What follows the loop over layers.
  unfoldable finish :
      {World : Type 0} (store : KvCacheBase Float World)
      → store.Ref
      → ℕ
      → Tensor Float
      → Method World (Tensor Float)
  finish store ref n x = do
    modify (advance_by fp partial_sort cpu store (some ref) n)
    logits_of fp partial_sort cpu store x

  -- A forward pass from a position on.
  unfoldable forward_at :
      {World : Type 0} (store : KvCacheBase Float World)
      → store.Ref
      → ℕ
      → List ℕ
      → Method World (Tensor Float)
  unfolding finish
  forward_at store ref start ids = do
    raise_if (ltb (size m.rope.cos 0) (start + length ids)) runtime_error
    x ← run (embed_tokens cpu ids)
    x ← for_method m.cfg.num_layers 0 (forward_layer fp partial_sort cpu store (some ref) start) x
    finish store ref (length ids) x

  -- On the CPU, a forward pass over tokens with the paged cache of a sequence returns the logits
  -- that it returns with a contiguous cache of that sequence, and both caches then hold the new
  -- tokens too, or both passes throw one exception. The caches have the sizes of the model, which
  -- has a layer, query heads in equal groups, and counts below 2^63, and room for the tokens; the
  -- projections keep the number of rows, and the embedding yields a row for each token.
  pub forward_refines :
      (ids others : List ℕ) (c : KvCache Float) (s : Session Float)
      → ((name : Text) (x : Tensor Float) (bias : Option (Tensor Float))
          → Yields (λ y. size y 0 ≡ size x 0) (project cpu x name bias))
      → Yields (λ x. size x 0 ≡ length ids) (embed_tokens cpu ids)
      → 0 < n_rep m.cfg
      → n_rep m.cfg < 2 ^ 63
      → 0 < m.cfg.num_layers
      → m.cfg.num_layers < 2 ^ 63
      → m.cfg.num_attention_heads ≡ m.cfg.num_kv_heads * n_rep m.cfg
      → Describe fp m.cfg.num_layers others c.filled c s
      → length c.k ≡ m.cfg.num_layers
      → c.n_kv_heads ≡ m.cfg.num_kv_heads
      → c.head_dim ≡ m.cfg.head_dim
      → c.filled + length ids ≤ c.max_seq
      → c.filled + length ids
        ≤ (length s.cache.block_table + length s.pool.free_list) * s.pool.block_size
      → Alike
          (λ y c' s'. Describe fp m.cfg.num_layers others (c.filled + length ids) c' s')
          (forward fp partial_sort cpu (contiguous fp) ids (some tt) c)
          (forward fp partial_sort cpu (paged fp) ids (some tt) s)
  unfolding forward start_of advance_by finish forward_at
  forward_refines ids others c s projected embedded some_rep small_rep some_layer few_layers grouped
        w all_layers heads dim c_room s_room =
      let P : KvCache Float → Session Float → Type 0 =
        Describe fp m.cfg.num_layers others (c.filled + length ids) in
      let body_c : ℕ → Tensor Float → Method (KvCache Float) (Tensor Float) =
        forward_layer fp partial_sort cpu (contiguous fp) (some tt) c.filled in
      let body_s : ℕ → Tensor Float → Method (Session Float) (Tensor Float) =
        forward_layer fp partial_sort cpu (paged fp) (some tt) c.filled in
      subst
        (λ n.
          Alike (λ y c' s'. P c' s') (forward_at (contiguous fp) tt c.filled ids c)
            (forward_at (paged fp) tt n ids s))
        w.one_sequence.same_filled
        (Alike-run _ _ _ c s
          (Yields-anything
            (result_raise_if (ltb (size m.rope.cos 0) (c.filled + length ids)) runtime_error))
          λ _ _. Alike-run (embed_tokens cpu ids) _ _ c s embedded λ x xr.
            Alike-bind (for_method m.cfg.num_layers 0 body_c x)
              (for_method m.cfg.num_layers 0 body_s x) (finish (contiguous fp) tt (length ids))
              (finish (paged fp) tt (length ids)) c s
              (Alike-for_method
                (λ i.
                  RowsBefore fp partial_sort m (length ids) projected others c.filled some_rep
                    small_rep few_layers grouped i)
                body_c body_s m.cfg.num_layers 0 x c s
                (λ i x c s h p.
                  forward_layer-Alike fp partial_sort m (length ids) projected others _ some_rep
                    small_rep few_layers grouped i x c s (omega arith) p)
                (
                  xr,
                  Pass-start fp others _ _ _ (length ids) c s w all_layers heads dim c_room s_room,
                ))
              λ y c' s' p. logits-Alike P y _ _ (
                Describe-advance fp m.cfg.num_layers others _ _ _ (length ids) some_layer c' s' (
                  subst
                    (λ n.
                      Pass fp others m.cfg.num_layers m.cfg.num_kv_heads m.cfg.head_dim c.filled
                        (length ids) n c' s')
                    (omega arith) (p.1))))
