-- ===== src/Paged/Refinement.antt =====
-- cpp/src/paged.cpp against cpp/src/cache.cpp: the paged cache answers as the contiguous one.
use nanoinfer.Prelude.{
  ℕ, ◌+◌, ◌-◌, ◌*◌, ◌/◌, ◌^◌, ◌≤◌, ◌<◌, ◌≡◌, refl, sym, ap, subst, ◌∙◌, Bool, List, arith, length,
  Result, ok, throw,
}
use native.Mathlib.Decide.{dec_lt}
use nanoinfer.Prelude.Arith.{div-lt_of_lt_mul}
use nanoinfer.Floats.{FloatOps}
use nanoinfer.Prelude.Loops.{for3-miss}
use nanoinfer.Tensor.{Tensor, size, make_tensor}
use nanoinfer.Tensor.Access.{Is3d}
use nanoinfer.Ops.Attention.{attend_heads}
use nanoinfer.Ops.Attention.Agreement.{attend_heads-cong}
use nanoinfer.KvCache.{KvCache}
use nanoinfer.KvCache.Attend as Contiguous
use nanoinfer.KvCache.Update.{IsCache, entry}
use nanoinfer.KvCache.Contract.{IsUpdated}
use nanoinfer.Paged.Cache.{Session}
use nanoinfer.Paged.Cache.Attend.{block_entry}
use nanoinfer.Paged.Cache.Attend as Paged
use nanoinfer.Paged.Cache.Attend.Contract.{IsHealthy, IsAttended, Attended, attend-Attended}

-- The second dimension of what attention returns.
attend_heads-size :
    (fp : FloatOps) (q : Tensor fp.Float) (key value : ℕ → ℕ → ℕ → fp.Float) (keys : ℕ)
    (causal : Bool) (off : ℕ)
    → size (attend_heads fp q key value keys causal off) 1 ≡ size q 1
unfolding attend_heads make_tensor
attend_heads-size fp q key value keys causal off =
    for3-miss {S = Tensor fp.Float} (λ u. Unit {0}) _ (λ i h d u v. tt) (size q 0) (size q 1)
      (size q 2) (λ u. size u 1) _ (λ i h d u hi hh hd v. refl) tt

module _ (fp : FloatOps) where
  open fp use {Float, zero_f}

  -- Both caches hold the same entries of a layer at the first `n` positions.
  abbrev pub AgreesUpTo : ℕ → ℕ → KvCache Float → Session Float → Type 0
  AgreesUpTo layer n c s =
      (h pos d : ℕ)
      → h < c.n_kv_heads
      → pos < n
      → d < c.head_dim
      → entry zero_f c layer h pos d ≡ block_entry fp s.pool s.cache.block_table layer h pos d

  -- The contiguous cache and the paged one describe one sequence.
  pub record Represents (layers : ℕ) (c : KvCache Float) (s : Session Float) : Type 0 where
    pub same_filled : c.filled ≡ s.cache.filled
    pub same_heads : c.n_kv_heads ≡ s.pool.n_kv_heads
    pub same_dim : c.head_dim ≡ s.pool.head_dim
    pub same_entries : (layer : ℕ) → layer < layers → AgreesUpTo layer c.filled c s

  module _ (layers layer t n_rep : ℕ) (q k v : Tensor Float) (causal : Bool) (others : List ℕ)
      (c : KvCache Float) (s : Session Float) (w : Represents layers c s) where
    -- The entries of the layer agree up to the new tokens.
    agree_after :
        (c' : KvCache Float) (u : Session Float) (out : Tensor Float × Tensor Float)
        → layer < layers
        → IsUpdated zero_f layer t (k, v) c c' out
        → IsAttended fp others layers layer t (k, v) s u
        → AgreesUpTo layer (c.filled + t) c' u
    agree_after c' u out h a b x pos d hx hp hd = elim (dec_lt pos c.filled) [
      | yes old ↦
          a.kept x pos d old (rw a.same_dim at hd)
          ∙ w.same_entries layer h x pos d (rw a.same_heads at hx) old (rw a.same_dim at hd)
          ∙ sym (b.kept layer x pos d in_heads (subst (λ n. pos < n) w.same_filled old) in_dim)
      | no new ↦
          subst
            (λ n.
              entry zero_f c' layer x n d ≡ block_entry fp u.pool u.cache.block_table layer x n d)
            (omega arith)
            (a.stored x (pos - c.filled) d (rw a.same_heads at hx) (omega arith)
                (rw a.same_dim at hd)
              ∙ sym (b.stored x (pos - c.filled) d in_heads (omega arith) in_dim)
              ∙ ap (λ n. block_entry fp u.pool u.cache.block_table layer x (n + (pos - c.filled)) d)
                  (sym w.same_filled))
    ]
      where
        in_heads : x < s.pool.n_kv_heads
        in_heads = subst (λ n. x < n) (a.same_heads ∙ w.same_heads) hx

        in_dim : d < s.pool.head_dim
        in_dim = subst (λ n. d < n) (a.same_dim ∙ w.same_dim) hd

    -- What the paged `attend` does when the blocks suffice.
    Attended-of_room :
        (off : ℕ) (r : Result (Tensor Float) × Session Float)
        → s.cache.filled + t
          ≤ (length s.cache.block_table + length s.pool.free_list) * s.pool.block_size
        → Attended fp others layers layer t q (k, v) n_rep causal off s r
        → (u : Session Float) × (r ≡ (
          ok (
              attend_heads fp q
                (λ h j x. (block_entry fp u.pool u.cache.block_table layer (h / n_rep) j x).0)
                (λ h j x. (block_entry fp u.pool u.cache.block_table layer (h / n_rep) j x).1)
                (s.cache.filled + t)
                causal
                off),
          u,
        ))
          × IsAttended fp others layers layer t (k, v) s u
    Attended-of_room off (ok out, u) enough (done, e) = (
      u,
      ap (λ (y : Tensor Float). let r : Result (Tensor Float) × Session Float = (ok y, u) in r) e,
      done,
    )
    Attended-of_room off (throw e, u) enough (_, _, short) = absurd (omega arith)

    -- Both `attend`s succeed with one tensor, of `t` rows for each head, and what each of them stored.
    pub attend_agrees :
        IsCache zero_f c
        → IsHealthy others layers s
        → layer < layers
        → layers ≡ length c.k
        → layer < 2 ^ 63
        → 0 < n_rep
        → n_rep < 2 ^ 63
        → size k 1 ≡ t
        → c.filled + t ≤ c.max_seq
        → s.cache.filled + t
          ≤ (length s.cache.block_table + length s.pool.free_list) * s.pool.block_size
        → Is3d (c.n_kv_heads * n_rep) t c.head_dim q
        → (out : Tensor Float) × (c' : KvCache Float) × (u : Session Float) × (Contiguous.attend fp
              layer q k v n_rep causal c.filled c
            ≡ (ok out, c'))
          × (Paged.attend fp layer q k v n_rep causal c.filled s ≡ (ok out, u))
          × (size out 1 ≡ t)
          × (kv : Tensor Float × Tensor Float) × IsUpdated zero_f layer t (k, v) c c' kv
          × IsAttended fp others layers layer t (k, v) s u
          × AgreesUpTo layer (c.filled + t) c' u
    attend_agrees wc ws in_layers all small pos rep_small et room enough wq =
        let (c', kept, ec, done_c) =
          Contiguous.attend-eq fp layer n_rep t q k v causal c wc (rw all at in_layers) small pos
            rep_small et room wq in
        let (u, eu, done_u) =
          Attended-of_room c.filled (Paged.attend fp layer q k v n_rep causal c.filled s) enough (
            rw et at (
              attend-Attended fp others layers layer q k v n_rep causal c.filled s ws in_layers)) in
        let agree = agree_after c' u kept in_layers done_c done_u in
        (
          _,
          c',
          u,
          ec,
          eu
              ∙ ap
                  (λ (y : Tensor Float).
                    let r : Result (Tensor Float) × Session Float = (ok y, u) in r)
                  (ap
                      (λ n.
                        attend_heads fp q
                          (λ h j x.
                            (block_entry fp u.pool u.cache.block_table layer (h / n_rep) j x).0)
                          (λ h j x.
                            (block_entry fp u.pool u.cache.block_table layer (h / n_rep) j x).1)
                          (n + t) causal c.filled)
                      (sym w.same_filled)
                    ∙ attend_heads-cong fp q _ _ _ _ (c.filled + t) causal c.filled
                        (rw wq.shape (omega arith))
                        (λ h j x hh hj hx.
                          ap (λ (y : Float × Float). y.0)
                            (sym
                              (agree (h / n_rep) j x (head h hh done_c) hj (column x hx done_c))))
                        (λ h j x hh hj hx.
                          ap (λ (y : Float × Float). y.1)
                            (sym
                              (agree (h / n_rep) j x (head h hh done_c) hj (column x hx done_c))))),
          attend_heads-size fp q _ _ _ causal _ ∙ rw wq.shape refl,
          kept,
          done_c,
          done_u,
          agree,
        )
      where
        head :
            {c' : KvCache Float} {r : Tensor Float × Tensor Float} (h : ℕ)
            → h < size q 0
            → IsUpdated zero_f layer t (k, v) c c' r
            → h / n_rep < c'.n_kv_heads
        head h hh done =
            rw done.same_heads (div-lt_of_lt_mul n_rep h c.n_kv_heads (rw wq.shape at hh))

        column :
            {c' : KvCache Float} {r : Tensor Float × Tensor Float} (x : ℕ)
            → x < size q 2
            → IsUpdated zero_f layer t (k, v) c c' r
            → x < c'.head_dim
        column x hx done = rw done.same_dim (rw wq.shape at hx)

    -- On caches that describe one sequence, with room in both, both `attend`s return the same tensor,
    -- and the caches then hold the same entries of the layer.
    pub attend_refines :
        IsCache zero_f c
        → IsHealthy others layers s
        → layer < layers
        → layers ≡ length c.k
        → layer < 2 ^ 63
        → 0 < n_rep
        → n_rep < 2 ^ 63
        → size k 1 ≡ t
        → c.filled + t ≤ c.max_seq
        → s.cache.filled + t
          ≤ (length s.cache.block_table + length s.pool.free_list) * s.pool.block_size
        → Is3d (c.n_kv_heads * n_rep) t c.head_dim q
        → (out : Tensor Float) × (c' : KvCache Float) × (u : Session Float) × (Contiguous.attend fp
              layer q k v n_rep causal c.filled c
            ≡ (ok out, c'))
          × (Paged.attend fp layer q k v n_rep causal c.filled s ≡ (ok out, u))
          × IsCache zero_f c'
          × IsHealthy others layers u
          × AgreesUpTo layer (c.filled + t) c' u
    attend_refines wc ws in_layers all small pos rep_small et room enough wq =
        let (out, c', u, ec, eu, shape, kv, done_c, done_u, agree) =
          attend_agrees wc ws in_layers all small pos rep_small et room enough wq in
        (out, c', u, ec, eu, done_c.valid, done_u.healthy, agree)
