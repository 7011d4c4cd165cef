-- ===== src/Paged/Cache/Attend/Contract.antt =====
-- cpp/src/paged.cpp: what PagedKVCache::attend promises, on either outcome.
use nanoinfer.Prelude.{
  ℕ, ◌+◌, ◌*◌, ◌/◌, ◌≤◌, ◌<◌, ◌≡◌, ◌≢◌, refl, sym, ap, subst, ◌∙◌, Bool, List, ◌++◌, arith, length,
  get_or, count, Result, ok, throw, runtime_error, continue,
}
use native.Mathlib.Nat.{le_trans}
use nanoinfer.Prelude.Arith.{div-lt_of_lt_mul}
use nanoinfer.Floats.{FloatOps}
use nanoinfer.Tensor.{Tensor, size}
use nanoinfer.KvCache.Buffers.{Planes, read}
use nanoinfer.Ops.Attention.{attend_heads}
use nanoinfer.Paged.Pool.{BlockPool, k_at}
use nanoinfer.Paged.Pool.Memory.{cell, IsStore, room_of}
use nanoinfer.Paged.Pool.Frames.{frame_of, Accounts-frame, IsStore-store_of, k_at-frame, k_at-store}
use nanoinfer.Paged.Cache.{Session, with_pool, ensure_capacity}
use nanoinfer.Paged.Cache.References.{IsBacked, IsGrown, Grown, ensure_capacity-Grown}
use nanoinfer.Paged.Cache.Attend.{attend, block_entry, slot, write_blocks}
use nanoinfer.Paged.Cache.Attend.Writes.{
  IsWritable, write_blocks-frame, write_blocks-IsStore, write_blocks_new, write_blocks_old,
  write_blocks_others, unwritten,
}
use nanoinfer.Paged.Cache.Attend.Growth.{
  table-lt, grown-get_or, grown-exclusive, slot-frame, slot-store, slot-table,
}

-- A sequence that may be written: backed by blocks, its pool's buffers in place, and the blocks from
-- the first unfilled position on held by it alone.
pub record IsHealthy {F : Type 0} (others : List ℕ) (layers : ℕ) (s : Session F) : Type 0 where
  pub backed : IsBacked others s
  pub memory : IsStore layers (room_of s.pool) s.pool
  pub positive : 0 < s.pool.block_size
  pub exclusive :
      (i : ℕ)
      → s.cache.filled / s.pool.block_size ≤ i
      → i < length s.cache.block_table
      → count (get_or s.cache.block_table i 0) (s.cache.block_table ++ others) ≡ 1

module _ (fp : FloatOps) (others : List ℕ) (layers : ℕ) where
  open fp use {Float, zero_f}

  -- After a successful `attend` of a layer with `t` new tokens.
  pub record IsAttended (layer t : ℕ) (new : Planes Float) (s u : Session Float) : Type 0 where
    pub healthy : IsHealthy others layers u
    pub same_filled : u.cache.filled ≡ s.cache.filled
    pub covers : s.cache.filled + t ≤ length u.cache.block_table * u.pool.block_size
    pub same_heads : u.pool.n_kv_heads ≡ s.pool.n_kv_heads
    pub same_dim : u.pool.head_dim ≡ s.pool.head_dim
    pub same_block_size : u.pool.block_size ≡ s.pool.block_size
    pub stored :
        (h i d : ℕ)
        → h < s.pool.n_kv_heads
        → i < t
        → d < s.pool.head_dim
        → block_entry fp u.pool u.cache.block_table layer h (s.cache.filled + i) d
          ≡ read zero_f new h i d
    pub kept :
        (l h pos d : ℕ)
        → h < s.pool.n_kv_heads
        → pos < s.cache.filled
        → d < s.pool.head_dim
        → block_entry fp u.pool u.cache.block_table l h pos d
          ≡ block_entry fp s.pool s.cache.block_table l h pos d
    -- The other layers keep everything in the blocks that the sequence had.
    pub kept_layers :
        (l h pos d : ℕ)
        → layer ≢ l
        → h < s.pool.n_kv_heads
        → pos < length s.cache.block_table * s.pool.block_size
        → d < s.pool.head_dim
        → block_entry fp u.pool u.cache.block_table l h pos d
          ≡ block_entry fp s.pool s.cache.block_table l h pos d
    pub conserved :
        length u.cache.block_table + length u.pool.free_list
        ≡ length s.cache.block_table + length s.pool.free_list
    -- The blocks that somebody else holds are untouched.
    pub foreign :
        (l b h o d : ℕ)
        → 0 < count b others
        → h < s.pool.n_kv_heads
        → o < s.pool.block_size
        → d < s.pool.head_dim
        → cell zero_f u.pool l (k_at u.pool b h o + d)
          ≡ cell zero_f s.pool l (k_at s.pool b h o + d)

  -- `grown` is the sequence with its new blocks, before the write loop.
  IsAttended-of_grown :
      (layer t : ℕ) (new : Planes Float) (s g : Session Float)
      → IsHealthy others layers s
      → layer < layers
      → IsGrown others s g
      → s.cache.filled + t ≤ length g.cache.block_table * g.pool.block_size
      → IsAttended layer t new s
          (with_pool g (write_blocks zero_f g.cache.block_table s.cache.filled t layer new g.pool))
  IsAttended-of_grown layer t new s g v in_layers w enough = record {
    healthy = record {
      backed = record {
        accounts = Accounts-frame g.pool q (g.cache.block_table ++ others) frame w.accounts;
        covered = rw bs (
            le_trans (subst (λ n. n ≤ s.cache.filled + t) (sym w.filled) (omega arith))
              (rw w_bs at enough));
      };
      memory =
          subst (λ n. IsStore layers n q) (sym (ap room_of frame))
            (write_blocks-IsStore zero_f others layers g.pool table start t layer new g_memory
              writable in_layers);
      positive = rw bs v.positive;
      exclusive = λ i low high.
          exclusive i
            (subst (λ n. n ≤ i)
              (ap (λ n. n / q.block_size) w.filled ∙ ap (λ n. s.cache.filled / n) bs) low)
            high;
    };
    same_filled = w.filled;
    covers = rw bs (rw w_bs at enough);
    same_heads = ap (λ (p : BlockPool Float). p.n_kv_heads) frame ∙ w_heads;
    same_dim = ap (λ (p : BlockPool Float). p.head_dim) frame ∙ w_dim;
    same_block_size = bs;
    stored = λ h i d hh hi hd.
        ap (λ n. cell zero_f q layer (n + d)) (place h (start + i))
        ∙ write_blocks_new zero_f others layers g.pool table start t layer new g_memory writable
            in_layers h i d (rw w_heads hh) hi (rw w_dim hd);
    kept = λ l h pos d hh hp hd.
        ap (λ n. cell zero_f q l (n + d)) (place h pos)
        ∙ write_blocks_old zero_f others layers g.pool table start t layer new g_memory writable
            in_layers l h pos d (rw w_heads hh) hp (rw w_dim hd)
        ∙ same_before l h pos d (le_trans hp v.backed.covered);
    kept_layers = λ l h pos d ne hh hp hd.
        ap (λ n. cell zero_f q l (n + d)) (place h pos)
        ∙ unwritten zero_f others layers g.pool table start t layer new g_memory writable in_layers
            l (slot g.pool table h pos + d) (λ i h' d' hi hh' hd' e. ne e.0)
        ∙ same_before l h pos d hp;
    conserved = ap (λ (p : BlockPool Float). length table + length p.free_list) frame ∙ w.conserved;
    foreign = λ l b h o d held hh ho hd.
        ap (λ n. cell zero_f q l (n + d)) (k_at-frame g.pool q b h o frame)
        ∙ write_blocks_others zero_f others layers g.pool table start t layer new g_memory writable
            in_layers l b h o d held (rw w_heads hh) (rw w_bs ho) (rw w_dim hd)
        ∙ ap (λ (r : BlockPool Float). cell zero_f r l (k_at g.pool b h o + d)) w.store
        ∙ ap (λ n. cell zero_f s.pool l (n + d)) (k_at-store s.pool g.pool b h o w.store);
  }
    where
      table : List ℕ
      table = g.cache.block_table

      start : ℕ
      start = s.cache.filled

      q : BlockPool Float
      q = write_blocks zero_f table start t layer new g.pool

      frame : frame_of q ≡ frame_of g.pool
      frame = write_blocks-frame zero_f table start t layer new g.pool

      w_bs : g.pool.block_size ≡ s.pool.block_size
      w_bs = ap (λ (p : BlockPool Float). p.block_size) w.store

      w_heads : g.pool.n_kv_heads ≡ s.pool.n_kv_heads
      w_heads = ap (λ (p : BlockPool Float). p.n_kv_heads) w.store

      w_dim : g.pool.head_dim ≡ s.pool.head_dim
      w_dim = ap (λ (p : BlockPool Float). p.head_dim) w.store

      bs : q.block_size ≡ s.pool.block_size
      bs = ap (λ (p : BlockPool Float). p.block_size) frame ∙ w_bs

      g_memory : IsStore layers (room_of g.pool) g.pool
      g_memory = IsStore-store_of s.pool g.pool layers w.store v.memory

      exclusive :
          (i : ℕ)
          → start / s.pool.block_size ≤ i
          → i < length table
          → count (get_or table i 0) (table ++ others) ≡ 1
      exclusive = grown-exclusive others s g (start / s.pool.block_size) w v.exclusive

      writable : IsWritable others g.pool table start t
      writable = record {
        positive = rw w_bs v.positive;
        covers = enough;
        inside = table-lt others g w.accounts;
        exclusive = λ i low high. exclusive i (subst (λ n. start / n ≤ i) w_bs low) high;
      }

      same_before :
          (l h pos d : ℕ)
          → pos < length s.cache.block_table * s.pool.block_size
          → cell zero_f g.pool l (slot g.pool table h pos + d)
            ≡ cell zero_f s.pool l (slot s.pool s.cache.block_table h pos + d)
      same_before l h pos d hp =
          ap (λ (r : BlockPool Float). cell zero_f r l (slot g.pool table h pos + d)) w.store
          ∙ ap (λ n. cell zero_f s.pool l (n + d))
              (slot-store s.pool g.pool table h pos w.store
                ∙ slot-table s.pool table s.cache.block_table h pos (
                    grown-get_or others s g w (pos / s.pool.block_size)
                      (div-lt_of_lt_mul s.pool.block_size pos (length s.cache.block_table) hp)))

      place : (h pos : ℕ) → slot q table h pos ≡ slot g.pool table h pos
      place h pos = slot-frame g.pool q table h pos frame

  -- What `attend` does on either outcome: it attends over the blocks that hold the old and the new
  -- entries, or it runs out of blocks.
  abbrev pub Attended :
      ℕ
      → ℕ
      → Tensor Float
      → Planes Float
      → ℕ
      → Bool
      → ℕ
      → Session Float
      → Result (Tensor Float) × Session Float
      → Type 0
  Attended layer t q new n_rep causal off s (ok out, u) =
      IsAttended layer t new s u
      × (out
          ≡ attend_heads fp q
              (λ h j x. (block_entry fp u.pool u.cache.block_table layer (h / n_rep) j x).0)
              (λ h j x. (block_entry fp u.pool u.cache.block_table layer (h / n_rep) j x).1)
              (s.cache.filled + t) causal off)
  Attended layer t q new n_rep causal off s (throw e, u) =
      IsGrown others s u
      × (e ≡ runtime_error)
      × ((length s.cache.block_table + length s.pool.free_list) * s.pool.block_size
          < s.cache.filled + t)

  Attended-of_result :
      (layer : ℕ) (q k v : Tensor Float) (n_rep : ℕ) (causal : Bool) (off : ℕ) (s : Session Float)
      (r : Result (Unit {0}) × Session Float)
      → IsHealthy others layers s
      → layer < layers
      → Grown others (s.cache.filled + size k 1) s r
      → Attended layer
          (size k 1)
          q
          (k, v)
          n_rep
          causal
          off
          s
          (continue r λ _ grown.
            let table = grown.cache.block_table in
            let pool =
              write_blocks zero_f table s.cache.filled (size k 1) layer (k, v) grown.pool in
            (
              ok (
                  attend_heads fp q
                    (λ h j x. (block_entry fp pool table layer (h / n_rep) j x).0)
                    (λ h j x. (block_entry fp pool table layer (h / n_rep) j x).1)
                    (s.cache.filled + size k 1)
                    causal
                    off),
              with_pool grown pool,
            ))
  Attended-of_result layer q k v n_rep causal off s (ok _, g) w in_layers (grown, enough) =
      (IsAttended-of_grown layer (size k 1) (k, v) s g w in_layers grown enough, refl)
  Attended-of_result layer q k v n_rep causal off s (throw _, g) w in_layers
        (grown, kind, empty, short) =
      let total : length g.cache.block_table
          ≡ length s.cache.block_table + length s.pool.free_list =
        omega (arith, ap length empty, grown.conserved) in
      let size_kept : g.pool.block_size ≡ s.pool.block_size =
        ap (λ (p : BlockPool Float). p.block_size) grown.store in
      (grown, kind, rw (← total, ← size_kept) short)

  -- `attend` keeps the sequence healthy, stores the new tokens behind the filled positions, keeps the
  -- earlier entries and everybody else's blocks, and attends over its own entries. It throws only if
  -- all the free blocks together do not cover the new positions.
  pub attend-Attended :
      (layer : ℕ) (q k v : Tensor Float) (n_rep : ℕ) (causal : Bool) (off : ℕ) (s : Session Float)
      → IsHealthy others layers s
      → layer < layers
      → Attended layer
          (size k 1)
          q
          (k, v)
          n_rep
          causal
          off
          s
          (attend fp layer q k v n_rep causal off s)
  unfolding attend
  attend-Attended layer q k v n_rep causal off s w in_layers =
      Attended-of_result layer q k v n_rep causal off s
        (ensure_capacity (s.cache.filled + size k 1) s) w in_layers
        (ensure_capacity-Grown others (s.cache.filled + size k 1) s w.backed.accounts)
