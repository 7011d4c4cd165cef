-- ===== src/Cuda/Paged/Cache.antt =====
-- cpp/src/cuda/cuda_backend.hpp and cuda_backend.cu, class CudaPagedKVCache: one sequence's block table on
-- the host and its copy on the device. A method runs on the sequence and the pool that it points to.
use nanoinfer.Prelude.{
  ℕ, zero, suc, ◌+◌, ◌-◌, ◌*◌, true, false, not, ◌||◌, List, [], ◌∷◌, ◌++◌, length, drop, get_or,
  set, ltb, ◌==◌, if◌then◌else◌, is_negative, ok, throw, Method, continue, lift, invalid_argument,
  runtime_error,
}
use nanoinfer.Prelude.Loops.{for_range}
use nanoinfer.Prelude.Tabulate.{tabulate}
use nanoinfer.Paged.Cache.{blocks_for, resize, is_empty}
use nanoinfer.Cuda.Paged.Pool.{CudaBlockPool, allocate, incref, free}

-- `filled` is `length_`. The list `d_block_table` is empty while the pointer is null.
pub record CudaPagedKvCache : Type 0 where
  pub block_table : List ℕ
  pub d_block_table : List ℕ
  pub d_bt_count : ℕ
  pub filled : ℕ

pub record CudaSession (F : Type 0) : Type 0 where
  pub pool : CudaBlockPool F
  pub cache : CudaPagedKvCache

-- A cache on a pool that is not null.
unfoldable pub make_cache : CudaPagedKvCache
make_cache = record { block_table = []; d_block_table = []; d_bt_count = 0; filled = 0 }

-- `num_blocks()`
unfoldable pub num_blocks : CudaPagedKvCache → ℕ
num_blocks c = length c.block_table

-- The buffer after `cudaMalloc`, unless there is one.
abbrev pub allocated : (ℕ → ℕ) → ℕ → List ℕ → List ℕ
allocated raw n table = if is_empty table then tabulate n raw else table

-- Entries `from`, `from + 1`, … up to `n` of the host's table.
unfoldable pub upload : List ℕ → ℕ → ℕ → List ℕ → List ℕ
upload table from n device =
    for_range (n - from) 0 (λ i d. set d (from + i) (get_or table (from + i) 0)) device

module _ {F : Type 0} where
  abbrev pub with_pool : CudaSession F → CudaBlockPool F → CudaSession F
  with_pool s p = record s { pool = p }

  -- `for (b : blocks) pool_->free(b)`
  unfoldable pub free_all : List ℕ → Method (CudaBlockPool F) (Unit {0})
  free_all [] p = (ok tt, p)
  free_all (b ∷ bs) p = continue (free b p) λ _ q. free_all bs q

  -- `for (b : blocks) pool_->incref(b)`
  unfoldable pub incref_all : List ℕ → Method (CudaBlockPool F) (Unit {0})
  incref_all [] p = (ok tt, p)
  incref_all (b ∷ bs) p = continue (incref b p) λ _ q. incref_all bs q

  -- The destructor.
  unfoldable pub destroy : Method (CudaSession F) (Unit {0})
  unfolding free_all
  destroy s = lift (with_pool s) (free_all s.cache.block_table s.pool)

  -- `block_table_.push_back(pool_->allocate())`
  unfoldable pub push_block : Method (CudaSession F) (Unit {0})
  push_block s = continue (lift (with_pool s) (allocate s.pool)) λ b t.
      (ok tt, record t { cache = record (t.cache) { block_table = t.cache.block_table ++ b ∷ [] } })

  -- The `while` of `ensure_capacity`, on fuel.
  unfoldable pub grow : ℕ → ℕ → Method (CudaSession F) (Unit {0})
  grow zero positions s = (ok tt, s)
  grow (suc fuel) positions s =
      elim (ltb (length s.cache.block_table * s.pool.block_size) positions) [
        | true ↦ continue (push_block s) λ _ t. grow fuel positions t
        | false ↦ (ok tt, s)
      ]

  -- A round takes a block from the free list or throws, so this fuel does not run out.
  unfoldable pub ensure_capacity : ℕ → Method (CudaSession F) (Unit {0})
  unfolding grow
  ensure_capacity positions s = grow (suc (length s.pool.free_list)) positions s

  -- `raw` is in the memory that `cudaMalloc` gives. A copy past the end of the buffer is an error of
  -- `cudaMemcpyAsync`, which `cuda_check` throws.
  unfoldable pub sync_device_block_table : (ℕ → ℕ) → Method (CudaSession F) (Unit {0})
  unfolding upload
  sync_device_block_table raw s =
      let c = s.cache in
      let n = length c.block_table in
      if n == c.d_bt_count
      then (ok tt, s)
      else let buffer = allocated raw s.pool.num_blocks c.d_block_table in
        if ltb (length buffer) n
        then (throw runtime_error, record s { cache = record c { d_block_table = buffer } })
        else (
          ok tt,
          record s {
            cache = record c {
              d_block_table = upload c.block_table c.d_bt_count n buffer;
              d_bt_count = n;
            };
          },
        )

  unfoldable pub prepare : (ℕ → ℕ) → ℕ → Method (CudaSession F) (Unit {0})
  unfolding ensure_capacity sync_device_block_table
  prepare raw end s = continue (ensure_capacity end s) λ _ t. sync_device_block_table raw t

  unfoldable pub share_prefix : List ℕ → ℕ → Method (CudaSession F) (Unit {0})
  unfolding incref_all
  share_prefix blocks n s =
      if not (is_empty s.cache.block_table) || not (s.cache.filled == 0)
      then (throw runtime_error, s)
      else if not (n == length blocks * s.pool.block_size)
      then (throw invalid_argument, s)
      else let seeded = record s { cache = record (s.cache) { block_table = blocks } } in
        continue (lift (with_pool seeded) (incref_all blocks s.pool))
          λ _ t. (ok tt, record t { cache = record (t.cache) { filled = n } })

  unfoldable pub truncate : ℕ → Method (CudaSession F) (Unit {0})
  unfolding free_all resize
  truncate n s =
      if is_negative n || ltb s.cache.filled n
      then (throw invalid_argument, s)
      else let keep = blocks_for s.pool.block_size n in
        continue (lift (with_pool s) (free_all (drop keep s.cache.block_table) s.pool)) λ _ t.
          let c = t.cache in
          (
            ok tt,
            record t {
              cache = record c {
                block_table = resize keep c.block_table;
                d_bt_count = if ltb keep c.d_bt_count then keep else c.d_bt_count;
                filled = n;
              };
            },
          )

  unfoldable pub advance : ℕ → CudaSession F → CudaSession F
  advance t s = record s { cache = record (s.cache) { filled = s.cache.filled + t } }

  unfoldable pub set_length : ℕ → CudaSession F → CudaSession F
  set_length n s = record s { cache = record (s.cache) { filled = n } }
