-- ===== src/Cuda/Paged/Table/Reachability.antt =====
-- cpp/src/cuda/cuda_backend.cu, class CudaPagedKVCache: the calls of a sequence's methods, in any order, and
-- what other sequences do to the pool between them.
use nanoinfer.Prelude.{
  ℕ, ◌+◌, ◌<◌, ◌≤◌, ◌≡◌, refl, sym, ap, subst, ◌∙◌, false, List, length, get_or, ltb, ◌==◌, inl,
  inr, Bool-cases, arith, Result, ok, throw, continue, lift,
}
use nanoinfer.Paged.Cache as Host
use nanoinfer.Cuda.Paged.Pool.{CudaBlockPool}
use nanoinfer.Cuda.Paged.Leaves.{Leaves-state}
use nanoinfer.Cuda.Paged.Cache.{
  CudaSession, with_pool, make_cache, allocated, upload, ensure_capacity, sync_device_block_table,
  prepare, share_prefix, truncate, advance, set_length,
}
use nanoinfer.Cuda.Paged.Bookkeeping.{on_host, ensure_capacity-books}
use nanoinfer.Cuda.Paged.Table.{
  Holds, refilled, length-allocated, ensure_capacity-Holds, prepare-Holds, sync-Holds,
  share_prefix-Holds, truncate-Holds,
}

module _ {F : Type 0} (raw : ℕ → ℕ) where
  -- A call, with the state that it leaves when it returns or throws.
  pub data Step : CudaSession F → CudaSession F → Type 0 where
    prepared : (s : CudaSession F) (end : ℕ) → Step s ((prepare raw end s).1)
    shared : (s : CudaSession F) (blocks : List ℕ) (n : ℕ) → Step s ((share_prefix blocks n s).1)
    truncated : (s : CudaSession F) (n : ℕ) → Step s ((truncate n s).1)
    advanced : (s : CudaSession F) (t : ℕ) → Step s (advance t s)
    rewound : (s : CudaSession F) (n : ℕ) → Step s (set_length n s)
    elsewhere :
        (s : CudaSession F) (q : CudaBlockPool F)
        → q.num_blocks ≡ s.pool.num_blocks
        → Step s (with_pool s q)

  -- The states of a sequence that starts on the pool `p`.
  pub data Reachable (p : CudaBlockPool F) : CudaSession F → Type 0 where
    created : Reachable p (record { pool = p; cache = make_cache })
    next : {s t : CudaSession F} → Reachable p s → Step s t → Reachable p t

  Step-Holds : (n : ℕ) {s t : CudaSession F} → Step s t → Holds n s → Holds n t
  unfolding advance set_length
  Step-Holds n (prepared s end) v = Leaves-state (prepare-Holds raw n end s v)
  Step-Holds n (shared s blocks k) v = Leaves-state (share_prefix-Holds n blocks k s v)
  Step-Holds n (truncated s k) v = Leaves-state (truncate-Holds n k s v)
  Step-Holds n (advanced s t) v = record {
    pool_size = v.pool_size;
    synced = refilled n (s.cache.filled + t) s.cache v.synced;
  }
  Step-Holds n (rewound s k) v = record {
    pool_size = v.pool_size;
    synced = refilled n k s.cache v.synced;
  }
  Step-Holds n (elsewhere s q e) v = record { pool_size = e ∙ v.pool_size; synced = v.synced }

  pub Reachable-Holds :
      (p : CudaBlockPool F) {s : CudaSession F} → Reachable p s → Holds p.num_blocks s
  unfolding make_cache
  Reachable-Holds p created = record {
    pool_size = refl;
    synced = record {
      behind = omega arith;
      sized = inl refl;
      room = omega arith;
      uploaded = λ i h. absurd (omega arith);
    };
  }
  Reachable-Holds p (next r step) = Step-Holds p.num_blocks step (Reachable-Holds p r)

  -- A copy that fits succeeds, and leaves no entry behind.
  sync-ok :
      (n : ℕ) (s : CudaSession F)
      → Holds n s
      → length s.cache.block_table ≤ n
      → (t : CudaSession F) × (sync_device_block_table raw s ≡ (ok tt, t))
        × (on_host t ≡ on_host s)
        × (t.cache.d_bt_count ≡ length t.cache.block_table)
  unfolding sync_device_block_table
  sync-ok n s v fits =
      let c = s.cache in
      elim (Bool-cases (length c.block_table == c.d_bt_count)) [
        | inl e ↦ (s, rw e, refl, ground arith)
        | inr e ↦
            let room : ltb (length (allocated raw s.pool.num_blocks c.d_block_table))
                  (length c.block_table)
                ≡ false =
              rw (v.pool_size, length-allocated raw n c.d_block_table v.synced.sized)
                (ground arith) in
            let device : List ℕ =
              upload c.block_table c.d_bt_count (length c.block_table)
                (allocated raw s.pool.num_blocks c.d_block_table) in
            (
              record s {
                cache = record c { d_block_table = device; d_bt_count = length c.block_table };
              },
              rw (e, room),
              refl,
              refl,
            )
      ]

  -- What `prepare` leaves of `s`, and how it ends.
  pub record IsPrepared (end : ℕ) (s : CudaSession F) (after : Result (Unit {0}) × CudaSession F)
      : Type 0 where
    pub as_on_host : lift on_host after ≡ Host.ensure_capacity end (on_host s)
    pub current :
        after.0 ≡ ok tt
        → (i : ℕ) → i < length (after.1).cache.block_table
        → get_or (after.1).cache.d_block_table i 0 ≡ get_or (after.1).cache.block_table i 0

  synced_after :
      (n end : ℕ) (s : CudaSession F) (grown : Result (Unit {0}) × CudaSession F)
      → lift on_host grown ≡ Host.ensure_capacity end (on_host s)
      → Holds n (grown.1)
      → length (grown.1).cache.block_table ≤ n
      → IsPrepared end s (continue grown λ _ t. sync_device_block_table raw t)
  synced_after n end s (ok _, t) books v fits =
      let (u, e, same, caught) = sync-ok n t v fits in
      let w : Holds n u = rw e at (Leaves-state (sync-Holds raw n t v)) in
      rw e (record {
        as_on_host = ap (λ x. (ok tt, x)) same ∙ books;
        current = λ _ i h. w.synced.uploaded i (omega (arith, caught));
      })
  synced_after n end s (throw x, t) books v fits = record {
    as_on_host = books;
    current = λ e. ground arith;
  }

  grown_table :
      (m : Result (Unit {0}) × CudaSession F) {m' : Result (Unit {0}) × Host.Session F}
      → lift on_host m ≡ m'
      → on_host (m.1) ≡ m'.1
  grown_table (ok a, t) e = ap (λ x. x.1) e
  grown_table (throw x, t) e = ap (λ x. x.1) e

  -- In every state that the methods of a sequence reach, also after calls that throw, prepare ends
  -- as ensure_capacity of the cache on the host does, with the same books, if the grown table has at
  -- most as many blocks as the pool; when it returns, the table on the device is the one on the
  -- host.
  pub prepare-IsPrepared :
      (p : CudaBlockPool F) (s : CudaSession F) (end : ℕ)
      → Reachable p s
      → length ((Host.ensure_capacity end (on_host s)).1).cache.block_table ≤ p.num_blocks
      → IsPrepared end s (prepare raw end s)
  unfolding prepare
  prepare-IsPrepared p s end r fits =
      synced_after p.num_blocks end s (ensure_capacity end s) (ensure_capacity-books end s)
        (Leaves-state (ensure_capacity-Holds p.num_blocks end s (Reachable-Holds p r)))
        (subst (λ x. length x.cache.block_table ≤ p.num_blocks)
          (sym (grown_table (ensure_capacity end s) (ensure_capacity-books end s))) fits)
