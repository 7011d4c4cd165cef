-- ===== src/Cuda/Paged/Table.antt =====
-- cpp/src/cuda/cuda_backend.cu, class CudaPagedKVCache: the block table on the device follows the one on
-- the host.
pub mod Reachability
use nanoinfer.Prelude.{
  ℕ, zero, suc, ◌+◌, ◌-◌, ◌*◌, ◌<◌, ◌≤◌, ◌≡◌, ◌≢◌, refl, sym, ap, ◌∙◌, Bool, true, false, not, ◌||◌,
  List, [], ◌∷◌, ◌++◌, length, take, drop, get_or, set, replicate, leb, ltb, ◌==◌, if◌then◌else◌,
  is_negative, inl, inr, Bool-cases, ◌⊎◌, Result, ok, throw, Method, continue, lift, arith,
  length-set, length-append, length-take, length-replicate, get_or-append_left, get_or-take,
  get_or-set_self, get_or-set_ne,
}
use native.Mathlib.Decide.{dec_lt}
use nanoinfer.Prelude.Loops.{for_range-keep, for_range-hit, for_range-miss}
use nanoinfer.Prelude.Tabulate.{length-tabulate}
use nanoinfer.Paged.Cache.{blocks_for, resize, is_empty}
use nanoinfer.Cuda.Paged.Pool.{CudaBlockPool, allocate, pop_free, incref, free}
use nanoinfer.Cuda.Paged.Leaves.{
  Leaves, leaves, Leaves-continue, Leaves-lift, Leaves-if, Leaves-test, Leaves-elim, Leaves-state,
  HasSize, allocate-HasSize, free_all-HasSize, incref_all-HasSize,
}
use nanoinfer.Cuda.Paged.Cache.{
  CudaPagedKvCache, CudaSession, with_pool, make_cache, allocated, upload, free_all, incref_all,
  push_block, grow, ensure_capacity, sync_device_block_table, prepare, share_prefix, truncate,
}

-- The entries that count as uploaded are on the device, and the buffer has the size of the pool.
pub record IsSynced (blocks : ℕ) (c : CudaPagedKvCache) : Type 0 where
  pub behind : c.d_bt_count ≤ length c.block_table
  pub sized : (length c.d_block_table ≡ 0) ⊎ (length c.d_block_table ≡ blocks)
  pub room : c.d_bt_count ≤ length c.d_block_table
  pub uploaded : (i : ℕ) → i < c.d_bt_count → get_or c.d_block_table i 0 ≡ get_or c.block_table i 0

-- The copy of the new entries.
module _ (table : List ℕ) (from n : ℕ) (device : List ℕ) where
  length-upload : length (upload table from n device) ≡ length device
  unfolding upload
  length-upload =
      for_range-keep (λ d. length d ≡ length device) _ (λ i d e. length-set d (from + i) _ ∙ e)
        (n - from) 0 device refl

  upload_new :
      (i : ℕ)
      → from + i < n
      → n ≤ length device
      → get_or (upload table from n device) (from + i) 0 ≡ get_or table (from + i) 0
  unfolding upload
  upload_new i h inside =
      for_range-hit (λ d. length d ≡ length device) _ (λ i d e. length-set d (from + i) _ ∙ e)
        (λ d. get_or d (from + i) 0) i (get_or table (from + i) 0) (n - from) 0 device (omega arith)
        (omega arith) (λ d e. get_or-set_self d (from + i) _ 0 (omega (arith, e)))
        (λ k d lo hi ne e. get_or-set_ne d (from + k) (from + i) _ 0 (λ p. ne (omega (arith, p))))
        refl

  upload_old : (i : ℕ) → i < from → get_or (upload table from n device) i 0 ≡ get_or device i 0
  unfolding upload
  upload_old i h =
      for_range-miss (λ d. length d ≡ length device) _ (λ i d e. length-set d (from + i) _ ∙ e)
        (λ d. get_or d i 0) (n - from) 0 device
        (λ k d lo hi e. get_or-set_ne d (from + k) i _ 0 (λ p. omega (arith, p, h))) refl

pub length-allocated :
    (raw : ℕ → ℕ) (n : ℕ) (d : List ℕ)
    → (length d ≡ 0) ⊎ (length d ≡ n)
    → length (allocated raw n d) ≡ n
length-allocated raw n [] e = length-tabulate n raw
length-allocated raw n (x ∷ d) (inl e) = absurd (omega (arith, e))
length-allocated raw n (x ∷ d) (inr e) = e

allocated_keeps :
    (raw : ℕ → ℕ) (n : ℕ) (d : List ℕ) (i : ℕ)
    → i < length d
    → get_or (allocated raw n d) i 0 ≡ get_or d i 0
allocated_keeps raw n [] i h = absurd (omega arith)
allocated_keeps raw n (x ∷ d) i h = refl

-- The buffer that `sync_device_block_table` allocates.
with_buffer :
    (raw : ℕ → ℕ) (n : ℕ) (c : CudaPagedKvCache)
    → IsSynced n c
    → IsSynced n (record c { d_block_table = allocated raw n c.d_block_table })
with_buffer raw n c v = record {
  behind = v.behind;
  sized = inr (length-allocated raw n c.d_block_table v.sized);
  room = room_in c.d_block_table v.room;
  uploaded =
      λ i h. allocated_keeps raw n c.d_block_table i (omega (arith, v.room)) ∙ v.uploaded i h;
}
  where
    room_in : (d : List ℕ) → c.d_bt_count ≤ length d → c.d_bt_count ≤ length (allocated raw n d)
    room_in [] h = omega arith
    room_in (x ∷ d) h = h

-- What a successful `sync_device_block_table` leaves.
caught_up :
    (n : ℕ) (c : CudaPagedKvCache)
    → IsSynced n c
    → ltb (length c.d_block_table) (length c.block_table) ≡ false
    → IsSynced n (record c {
      d_block_table = upload c.block_table c.d_bt_count (length c.block_table) c.d_block_table;
      d_bt_count = length c.block_table;
    })
caught_up n c v fits =
    let room : length c.block_table ≤ length c.d_block_table = ground arith in
    let from = c.d_bt_count in
    let size = length c.block_table in
    record {
      behind = omega arith;
      sized = rw (length-upload c.block_table from size c.d_block_table) v.sized;
      room = omega (arith, length-upload c.block_table from size c.d_block_table, room);
      uploaded = λ i h. elim (dec_lt i from) [
        | yes before ↦
            upload_old c.block_table from size c.d_block_table i before ∙ v.uploaded i before
        | no after ↦
            let e : from + (i - from) ≡ i = omega arith in
            rw e at
              (upload_new c.block_table from size c.d_block_table (i - from) (omega arith) room)
      ];
    }

-- A longer table on the host has the same uploaded entries.
extended :
    (n : ℕ) (c : CudaPagedKvCache) (b : ℕ)
    → IsSynced n c
    → IsSynced n (record c { block_table = c.block_table ++ b ∷ [] })
extended n c b v = record {
  behind = omega (arith, length-append c.block_table (b ∷ []), v.behind);
  sized = v.sized;
  room = v.room;
  uploaded = λ i h.
      v.uploaded i h
      ∙ sym (get_or-append_left c.block_table (b ∷ []) i 0 (omega (arith, v.behind)));
}

-- `length_` does not matter.
pub refilled :
    (n k : ℕ) (c : CudaPagedKvCache) → IsSynced n c → IsSynced n (record c { filled = k })
refilled n k c v = record {
  behind = v.behind;
  sized = v.sized;
  room = v.room;
  uploaded = v.uploaded;
}

-- An empty table is replaced.
blank :
    (n : ℕ) (c : CudaPagedKvCache) (blocks : List ℕ)
    → IsSynced n c
    → length c.block_table ≡ 0
    → IsSynced n (record c { block_table = blocks })
blank n c blocks v e = record {
  behind = omega (arith, v.behind, e);
  sized = v.sized;
  room = v.room;
  uploaded = λ i h. absurd (omega (arith, v.behind, e));
}

nothing_there : (t : List ℕ) (b : Bool) → (not (is_empty t) || b) ≡ false → length t ≡ 0
nothing_there [] b e = refl
nothing_there (x ∷ t) b e = ground arith

-- What `truncate` does to the cache.
cut :
    (n keep k : ℕ) (c : CudaPagedKvCache)
    → IsSynced n c
    → IsSynced n (record c {
      block_table = resize keep c.block_table;
      d_bt_count = if ltb keep c.d_bt_count then keep else c.d_bt_count;
      filled = k;
    })
unfolding resize
cut n keep k c v =
    let count : ℕ = if ltb keep c.d_bt_count then keep else c.d_bt_count in
    let few : count ≤ keep = ground arith in
    let fewer : count ≤ c.d_bt_count = ground arith in
    let size : length (resize keep c.block_table) ≡ keep = omega (
      arith,
      length-append (take keep c.block_table) (replicate (keep - length c.block_table) 0),
      length-take keep c.block_table,
      length-replicate {A = ℕ} (keep - length c.block_table) 0,
    ) in
    record {
      behind = omega (arith, size);
      sized = v.sized;
      room = omega (arith, v.room);
      uploaded = λ i h.
          v.uploaded i (omega arith)
          ∙ sym (
              get_or-append_left (take keep c.block_table)
                (replicate (keep - length c.block_table) 0) i 0
                (omega (arith, length-take keep c.block_table, v.behind))
              ∙ get_or-take keep i c.block_table 0 (omega arith));
    }

module _ {F : Type 0} where
  -- The size of the pool never changes, and the table of the sequence is synced.
  pub record Holds (n : ℕ) (s : CudaSession F) : Type 0 where
    pub pool_size : s.pool.num_blocks ≡ n
    pub synced : IsSynced n s.cache

  push_block-Holds : (n : ℕ) (s : CudaSession F) → Holds n s → Leaves (Holds n) (push_block s)
  unfolding push_block
  push_block-Holds n s v =
      Leaves-continue
        (Leaves-lift (with_pool s) (allocate-HasSize n s.pool v.pool_size)
          λ p e. record { pool_size = e; synced = v.synced })
        λ b t w. leaves (record { pool_size = w.pool_size; synced = extended n t.cache b w.synced })

  grow-Holds :
      (n fuel positions : ℕ) (s : CudaSession F)
      → Holds n s
      → Leaves (Holds n) (grow fuel positions s)
  unfolding grow
  grow-Holds n zero positions s v = leaves v
  grow-Holds n (suc fuel) positions s v =
      Leaves-elim (ltb (length s.cache.block_table * s.pool.block_size) positions)
        (Leaves-continue (push_block-Holds n s v) λ _ t. grow-Holds n fuel positions t) (leaves v)

  pub ensure_capacity-Holds :
      (n positions : ℕ) (s : CudaSession F)
      → Holds n s
      → Leaves (Holds n) (ensure_capacity positions s)
  unfolding ensure_capacity
  ensure_capacity-Holds n positions s = grow-Holds n (suc (length s.pool.free_list)) positions s

  pub sync-Holds :
      (raw : ℕ → ℕ) (n : ℕ) (s : CudaSession F)
      → Holds n s
      → Leaves (Holds n) (sync_device_block_table raw s)
  unfolding sync_device_block_table
  sync-Holds raw n s v =
      let c = s.cache in
      let d = allocated raw s.pool.num_blocks c.d_block_table in
      let got : IsSynced n (record c { d_block_table = d }) =
        rw v.pool_size (with_buffer raw n c v.synced) in
      Leaves-if (length c.block_table == c.d_bt_count) (leaves v) (
        Leaves-test (ltb (length d) (length c.block_table))
          (λ _. leaves (record { pool_size = v.pool_size; synced = got }))
          (λ fits. leaves (record {
            pool_size = v.pool_size;
            synced = caught_up n (record c { d_block_table = d }) got fits;
          })))

  pub prepare-Holds :
      (raw : ℕ → ℕ) (n end : ℕ) (s : CudaSession F)
      → Holds n s
      → Leaves (Holds n) (prepare raw end s)
  unfolding prepare
  prepare-Holds raw n end s v =
      Leaves-continue (ensure_capacity-Holds n end s v) λ _ t. sync-Holds raw n t

  pub share_prefix-Holds :
      (n : ℕ) (blocks : List ℕ) (k : ℕ) (s : CudaSession F)
      → Holds n s
      → Leaves (Holds n) (share_prefix blocks k s)
  unfolding share_prefix
  share_prefix-Holds n blocks k s v =
      let seeded : CudaSession F = record s { cache = record (s.cache) { block_table = blocks } } in
      Leaves-test (not (is_empty s.cache.block_table) || not (s.cache.filled == 0)) (λ _. leaves v)
        λ unused. Leaves-if (not (k == length blocks * s.pool.block_size)) (leaves v) (
          Leaves-continue
            (Leaves-lift (with_pool seeded) (incref_all-HasSize n blocks s.pool v.pool_size) λ p e.
              record {
                pool_size = e;
                synced =
                    blank n s.cache blocks v.synced (nothing_there s.cache.block_table _ unused);
              })
            λ _ t w.
              leaves (record { pool_size = w.pool_size; synced = refilled n k t.cache w.synced }))

  pub truncate-Holds : (n k : ℕ) (s : CudaSession F) → Holds n s → Leaves (Holds n) (truncate k s)
  unfolding truncate
  truncate-Holds n k s v = Leaves-if (is_negative k || ltb s.cache.filled k) (leaves v) (
      Leaves-continue
        (Leaves-lift (with_pool s)
          (free_all-HasSize n (drop (blocks_for s.pool.block_size k) s.cache.block_table) s.pool
            v.pool_size)
          λ p e. record { pool_size = e; synced = v.synced })
        λ _ t w. leaves (record {
          pool_size = w.pool_size;
          synced = cut n (blocks_for s.pool.block_size k) k t.cache w.synced;
        }))
