-- ===== src/Paged/Pool.antt =====
-- cpp/src/paged.hpp and paged.cpp, class BlockPool: the blocks that all sequences share, their
-- reference counts and the free list. The head of the list `free_list` is the back of the vector.
pub mod Accounting
pub mod Memory
pub mod Frames
pub mod Tests
use nanoinfer.Prelude.{
  ℕ, zero, suc, ◌+◌, ◌-◌, ◌*◌, Bool, ◌||◌, List, [], ◌∷◌, length, get_or, set, replicate, leb, ◌==◌,
  if◌then◌else◌, is_negative, Result, ok, throw, Method,
}
use nanoinfer.Prelude.{invalid_argument, out_of_range, runtime_error}

pub record BlockPool (F : Type 0) : Type 0 where
  pub num_layers : ℕ
  pub n_kv_heads : ℕ
  pub head_dim : ℕ
  pub block_size : ℕ
  pub num_blocks : ℕ
  pub block_stride : ℕ
  pub k : List (List F)
  pub v : List (List F)
  pub free_list : List ℕ
  pub refcount : List ℕ

-- `n <= 0` for an `int64_t`.
abbrev pub is_nonpos : ℕ → Bool
is_nonpos n = is_negative n || n == 0

-- The constructor's test of its dimensions.
abbrev pub ill_sized : ℕ → ℕ → ℕ → ℕ → ℕ → Bool
ill_sized num_layers n_kv_heads head_dim block_size num_blocks =
    is_nonpos num_layers
    || (is_nonpos n_kv_heads
        || (is_nonpos head_dim || (is_nonpos block_size || is_nonpos num_blocks)))

-- `for (i = n - 1; i >= 0; --i) free_list_.push_back(i)`
pub push_ids : ℕ → List ℕ → List ℕ
push_ids zero ids = ids
push_ids (suc i) ids = push_ids i (i ∷ ids)

module _ {F : Type 0} where
  unfoldable pub make_pool : F → ℕ → ℕ → ℕ → ℕ → ℕ → Result (BlockPool F)
  make_pool nought num_layers n_kv_heads head_dim block_size num_blocks =
      if ill_sized num_layers n_kv_heads head_dim block_size num_blocks
      then throw invalid_argument
      else ok (record {
        num_layers = num_layers;
        n_kv_heads = n_kv_heads;
        head_dim = head_dim;
        block_size = block_size;
        num_blocks = num_blocks;
        block_stride = n_kv_heads * block_size * head_dim;
        k =
            replicate num_layers
              (replicate (num_blocks * (n_kv_heads * block_size * head_dim)) nought);
        v =
            replicate num_layers
              (replicate (num_blocks * (n_kv_heads * block_size * head_dim)) nought);
        free_list = push_ids num_blocks [];
        refcount = replicate num_blocks 0;
      })

  unfoldable pub pop_free : List ℕ → Method (BlockPool F) ℕ
  pop_free [] p = (throw runtime_error, p)
  pop_free (b ∷ rest) p = (ok b, record p { free_list = rest; refcount = set p.refcount b 1 })

  unfoldable pub allocate : Method (BlockPool F) ℕ
  unfolding pop_free
  allocate p = pop_free p.free_list p

  -- The reference count of a block.
  abbrev pub holders : BlockPool F → ℕ → ℕ
  holders p b = get_or p.refcount b 0

  unfoldable pub incref : ℕ → Method (BlockPool F) (Unit {0})
  incref b p =
      if is_negative b || leb p.num_blocks b
      then (throw out_of_range, p)
      else if holders p b == 0
      then (throw runtime_error, p)
      else (ok tt, record p { refcount = set p.refcount b (holders p b + 1) })

  unfoldable pub free : ℕ → Method (BlockPool F) (Unit {0})
  free b p =
      if is_negative b || leb p.num_blocks b
      then (throw out_of_range, p)
      else if holders p b == 0
      then (throw runtime_error, p)
      else (
        ok tt,
        record p {
          refcount = set p.refcount b (holders p b - 1);
          free_list = if holders p b - 1 == 0 then b ∷ p.free_list else p.free_list;
        },
      )

  unfoldable pub free_blocks : BlockPool F → ℕ
  free_blocks p = length p.free_list

  unfoldable pub used_blocks : BlockPool F → ℕ
  unfolding free_blocks
  used_blocks p = p.num_blocks - free_blocks p

  -- The position of (block, head, off) in a layer's buffer: `k_at` and `v_at` are pointers to it.
  unfoldable pub k_at : BlockPool F → ℕ → ℕ → ℕ → ℕ
  k_at p block head off = ((block * p.n_kv_heads + head) * p.block_size + off) * p.head_dim
