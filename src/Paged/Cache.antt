-- ===== src/Paged/Cache.antt =====
-- cpp/src/paged.hpp and paged.cpp, class PagedKVCache: one sequence's block table over a pool.
-- A method runs on the sequence and the pool that it points to.
pub mod Accounting
pub mod References
pub mod Rollback
pub mod Attend
use nanoinfer.Prelude.{
  ℕ, zero, suc, ◌+◌, ◌-◌, ◌*◌, ◌/◌, Bool, true, false, not, ◌||◌, List, [], ◌∷◌, ◌++◌, length, take,
  drop, replicate, ltb, ◌==◌, if◌then◌else◌, is_negative, ok, throw, Method, continue, lift,
  invalid_argument, runtime_error,
}
use nanoinfer.Paged.Pool.{BlockPool, allocate, incref, free}

-- `filled` is `length_`; `attached` is false in a cache that was moved from (its pool is null).
pub record PagedKvCache : Type 0 where
  pub attached : Bool
  pub block_table : List ℕ
  pub filled : ℕ

pub record Session (F : Type 0) : Type 0 where
  pub pool : BlockPool F
  pub cache : PagedKvCache

-- A cache on a pool that is not null.
unfoldable pub make_cache : PagedKvCache
make_cache = record { attached = true; block_table = []; filled = 0 }

-- The moved-to cache and the moved-from one.
unfoldable pub steal : PagedKvCache → PagedKvCache × PagedKvCache
steal o = (o, record { attached = false; block_table = []; filled = 0 })

unfoldable pub num_blocks : PagedKvCache → ℕ
num_blocks c = length c.block_table

-- The blocks that `truncate` keeps: ceil(length / block_size).
abbrev pub blocks_for : ℕ → ℕ → ℕ
blocks_for bs n = (n + bs - 1) / bs

-- `std::vector::resize`
unfoldable pub resize : ℕ → List ℕ → List ℕ
resize n xs = take n xs ++ replicate (n - length xs) 0

abbrev pub is_empty : List ℕ → Bool
is_empty [] = true
is_empty (x ∷ xs) = false

module _ {F : Type 0} where
  -- `for (b : blocks) pool_->free(b)`
  unfoldable pub free_all : List ℕ → Method (BlockPool F) (Unit {0})
  free_all [] p = (ok tt, p)
  free_all (b ∷ bs) p = continue (free b p) λ _ q. free_all bs q

  -- `for (b : blocks) pool_->incref(b)`
  unfoldable pub incref_all : List ℕ → Method (BlockPool F) (Unit {0})
  incref_all [] p = (ok tt, p)
  incref_all (b ∷ bs) p = continue (incref b p) λ _ q. incref_all bs q

  abbrev pub with_pool : Session F → BlockPool F → Session F
  with_pool s p = record s { pool = p }

  -- The destructor runs `release` too.
  unfoldable pub release : Method (Session F) (Unit {0})
  unfolding free_all
  release s =
      continue
        (if s.cache.attached
          then lift (with_pool s) (free_all s.cache.block_table s.pool)
          else (ok tt, s))
        λ _ t. (ok tt, record t { cache = record (t.cache) { block_table = []; filled = 0 } })

  -- `block_table_.push_back(pool_->allocate())`
  unfoldable pub push_block : Method (Session F) (Unit {0})
  push_block s = continue (lift (with_pool s) (allocate s.pool)) λ b t.
      (ok tt, record t { cache = record (t.cache) { block_table = t.cache.block_table ++ b ∷ [] } })

  -- The `while` of `ensure_capacity`, on fuel.
  unfoldable pub grow : ℕ → ℕ → Method (Session F) (Unit {0})
  grow zero positions s = (ok tt, s)
  grow (suc fuel) positions s =
      elim (ltb (length s.cache.block_table * s.pool.block_size) positions) [
        | true ↦ continue (push_block s) λ _ t. grow fuel positions t
        | false ↦ (ok tt, s)
      ]

  -- A round takes a block from the free list or throws, so this fuel does not run out.
  unfoldable pub ensure_capacity : ℕ → Method (Session F) (Unit {0})
  unfolding grow
  ensure_capacity positions s = grow (suc (length s.pool.free_list)) positions s

  unfoldable pub advance : ℕ → Session F → Session F
  advance t s = record s { cache = record (s.cache) { filled = s.cache.filled + t } }

  unfoldable pub truncate : ℕ → Method (Session F) (Unit {0})
  unfolding free_all resize
  truncate n s =
      if is_negative n || ltb s.cache.filled n
      then (throw invalid_argument, s)
      else let keep = blocks_for s.pool.block_size n in
        continue (lift (with_pool s) (free_all (drop keep s.cache.block_table) s.pool)) λ _ t. (
          ok tt,
          record t {
            cache = record (t.cache) { block_table = resize keep t.cache.block_table; filled = n };
          },
        )

  unfoldable pub share_prefix : List ℕ → ℕ → Method (Session F) (Unit {0})
  unfolding incref_all
  share_prefix blocks n s =
      if not (is_empty s.cache.block_table) || not (s.cache.filled == 0)
      then (throw runtime_error, s)
      else if not (n == length blocks * s.pool.block_size)
      then (throw invalid_argument, s)
      else let seeded = record s { cache = record (s.cache) { block_table = blocks } } in
        continue (lift (with_pool seeded) (incref_all blocks s.pool))
          λ _ t. (ok tt, record t { cache = record (t.cache) { filled = n } })
