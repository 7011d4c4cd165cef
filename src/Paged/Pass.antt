-- ===== src/Paged/Pass.antt =====
-- cpp/src/paged.cpp against cpp/src/cache.cpp: a pass over the layers, which attends once in each.
use nanoinfer.Prelude.{
  ℕ, ◌+◌, ◌*◌, ◌^◌, ◌≤◌, ◌<◌, ◌≡◌, ◌≢◌, sym, ap, subst, ◌∙◌, true, List, arith, length, ok,
  ℕ_discrete,
}
use nanoinfer.Floats.{FloatOps}
use nanoinfer.Tensor.{Tensor, size}
use nanoinfer.Tensor.Access.{Is3d}
use nanoinfer.KvCache.{KvCache}
use nanoinfer.KvCache.Attend as Contiguous
use nanoinfer.KvCache.Update.{IsCache}
use nanoinfer.KvCache.Buffers.{read}
use nanoinfer.KvCache.Contract.{IsUpdated}
use nanoinfer.Paged.Cache.{Session}
use nanoinfer.Paged.Cache.Attend.{block_entry}
use nanoinfer.Paged.Cache.Attend as Paged
use nanoinfer.Paged.Cache.Attend.Contract.{IsHealthy, IsAttended}
use nanoinfer.Paged.Refinement.{AgreesUpTo, Represents, attend_agrees}

module _ (fp : FloatOps) (others : List ℕ) (layers heads dim start t : ℕ) where
  open fp use {Float, zero_f}

  -- Before layer `i` of a pass with `t` new tokens: the layers below `i` hold them in both caches.
  pub record Pass (i : ℕ) (c : KvCache Float) (s : Session Float) : Type 0 where
    pub cache : IsCache zero_f c
    pub healthy : IsHealthy others layers s
    pub all_layers : length c.k ≡ layers
    pub c_filled : c.filled ≡ start
    pub s_filled : s.cache.filled ≡ start
    pub c_heads : c.n_kv_heads ≡ heads
    pub s_heads : s.pool.n_kv_heads ≡ heads
    pub c_dim : c.head_dim ≡ dim
    pub s_dim : s.pool.head_dim ≡ dim
    pub c_room : start + t ≤ c.max_seq
    pub s_room :
        start + t ≤ (length s.cache.block_table + length s.pool.free_list) * s.pool.block_size
    pub covered : 0 < i → start + t ≤ length s.cache.block_table * s.pool.block_size
    pub before : (l : ℕ) → l < layers → AgreesUpTo fp l start c s
    pub after : (l : ℕ) → l < i → AgreesUpTo fp l (start + t) c s

  pub Represents-of_Pass :
      (i : ℕ) (c : KvCache Float) (s : Session Float) → Pass i c s → Represents fp layers c s
  Represents-of_Pass i c s w = record {
    same_filled = w.c_filled ∙ sym w.s_filled;
    same_heads = w.c_heads ∙ sym w.s_heads;
    same_dim = w.c_dim ∙ sym w.s_dim;
    same_entries = λ l h. subst (λ n. AgreesUpTo fp l n c s) (sym w.c_filled) (w.before l h);
  }

  module _ (i : ℕ) (k v : Tensor Float) (c c' : KvCache Float) (s u : Session Float)
      (kv : Tensor Float × Tensor Float) (w : Pass i c s) (in_layers : i < layers)
      (kept : IsUpdated zero_f i t (k, v) c c' kv)
      (done : IsAttended fp others layers i t (k, v) s u)
      (agree : AgreesUpTo fp i (c.filled + t) c' u) where
    -- Another layer, up to positions that the sequence had blocks for.
    other_layer :
        (l n : ℕ)
        → i ≢ l
        → ((pos : ℕ) → pos < n → pos < length s.cache.block_table * s.pool.block_size)
        → AgreesUpTo fp l n c s
        → AgreesUpTo fp l n c' u
    other_layer l n ne had same h pos d hh hp hd =
        ap (λ p. read zero_f p h pos d) (kept.others l ne)
        ∙ same h pos d (subst (λ x. h < x) kept.same_heads hh) hp
            (subst (λ x. d < x) kept.same_dim hd)
        ∙ sym (
            done.kept_layers l h pos d ne
              (subst (λ x. h < x) (kept.same_heads ∙ w.c_heads ∙ sym w.s_heads) hh) (had pos hp)
              (subst (λ x. d < x) (kept.same_dim ∙ w.c_dim ∙ sym w.s_dim) hd))

    this_layer : AgreesUpTo fp i (start + t) c' u
    this_layer = subst (λ n. AgreesUpTo fp i (n + t) c' u) w.c_filled agree

    Pass-next : Pass (i + 1) c' u
    Pass-next = record {
      cache = kept.valid;
      healthy = done.healthy;
      all_layers = kept.same_layers ∙ w.all_layers;
      c_filled = kept.same_filled ∙ w.c_filled;
      s_filled = done.same_filled ∙ w.s_filled;
      c_heads = kept.same_heads ∙ w.c_heads;
      s_heads = done.same_heads ∙ w.s_heads;
      c_dim = kept.same_dim ∙ w.c_dim;
      s_dim = done.same_dim ∙ w.s_dim;
      c_room = rw kept.same_capacity w.c_room;
      s_room = rw (done.conserved, done.same_block_size) w.s_room;
      covered = λ _.
          subst (λ n. n + t ≤ length u.cache.block_table * u.pool.block_size) w.s_filled
            done.covers;
      before = λ l hl. elim (ℕ_discrete i l) [
        | yes e ↦
            subst (λ x. AgreesUpTo fp x start c' u) e
              (λ h pos d hh hp hd. this_layer h pos d hh (omega arith) hd)
        | no ne ↦
            other_layer l start ne (λ pos hp. omega (arith, w.healthy.backed.covered, w.s_filled))
              (w.before l hl)
      ];
      after = λ l hl. elim (ℕ_discrete i l) [
        | yes e ↦ subst (λ x. AgreesUpTo fp x (start + t) c' u) e this_layer
        | no ne ↦
            other_layer l (start + t) ne (λ pos hp. omega (arith, w.covered (omega arith)))
              (w.after l (omega arith))
      ];
    }

  -- The next layer of a pass: both `attend`s return one tensor, of `t` rows for each head, and both caches
  -- are as before the layer after it.
  pub Pass-attend :
      (i n_rep : ℕ) (q k v : Tensor Float) (c : KvCache Float) (s : Session Float)
      → Pass i c s
      → i < layers
      → layers < 2 ^ 63
      → 0 < n_rep
      → n_rep < 2 ^ 63
      → size k 1 ≡ t
      → Is3d (heads * n_rep) t dim q
      → (out : Tensor Float) × (c' : KvCache Float) × (u : Session Float) × (Contiguous.attend fp i
            q k v n_rep true start c
          ≡ (ok out, c'))
        × (Paged.attend fp i q k v n_rep true start s ≡ (ok out, u))
        × (size out 1 ≡ t)
        × Pass (i + 1) c' u
  Pass-attend i n_rep q k v c s w h small pos rep_small et wq =
      let (out, c', u, ec, eu, shape, kv, kept, done, agree) =
        attend_agrees fp layers i t n_rep q k v true others c s (Represents-of_Pass i c s w) w.cache
          w.healthy h (sym w.all_layers) (omega arith) pos rep_small et (rw w.c_filled w.c_room)
          (rw w.s_filled w.s_room) (rw (w.c_heads, w.c_dim) wq) in
      (
        out,
        c',
        u,
        subst (λ n. Contiguous.attend fp i q k v n_rep true n c ≡ (ok out, c')) w.c_filled ec,
        subst (λ n. Paged.attend fp i q k v n_rep true n s ≡ (ok out, u)) w.c_filled eu,
        shape,
        Pass-next i k v c c' s u kv w h kept done agree,
      )
