-- ===== src/Cuda/Tests.antt =====
-- A device whose threads run in ascending order, and the witnesses of the theorems on the CUDA build.
use nanoinfer.Prelude.{
  ℕ, zero, suc, ◌+◌, ◌*◌, ◌/◌, ◌≤◌, ◌<◌, ◌≡◌, refl, ap, ◌∙◌, true, List, [], ◌∷◌, arith, count,
  count-cons, count-nil, length, get_or, ltb, if◌then◌else◌, ok, lift, ℕ_discrete, replicate,
}
use nanoinfer.Tensor.{Tensor}
use nanoinfer.Tensor.Access.{Is3d}
use nanoinfer.Tensor.Tests.{cube, rows, rows-Is2d, two_heads, two_heads-Is3d}
use nanoinfer.Ops.Tests.{numbers}
use nanoinfer.Ops.Heads as Cpu
use nanoinfer.Ops.Rope as CpuRope
use nanoinfer.Paged.Pool as HostPool
use nanoinfer.Paged.Cache as Host
use nanoinfer.Prelude.Loops.{for_range}
use nanoinfer.Prelude.Tabulate.{tabulate_from}
use nanoinfer.Cuda.Launch.{IsOrder, launch}
use nanoinfer.Cuda.Device.{DeviceTensor, Gpu}
use nanoinfer.Cuda.Device.Laws.{Mirrors}
use nanoinfer.Cuda.Policy.{default_policy, split_count, chunk_of}
use nanoinfer.Cuda.Attention.Splits.{IsVisible, IsRead, split_tiles}
use nanoinfer.Cuda.Elementwise.{merge_heads, apply_rope}
use nanoinfer.Cuda.Elementwise.Merge.{merge_heads-Mirrors}
use nanoinfer.Cuda.Elementwise.Entries.{apply_rope-Mirrors}
use nanoinfer.Cuda.Attention.Kernels.{Inputs, attention_warp_kernel}
use nanoinfer.Cuda.Attention.Method.{warp_blocks, attention}
use nanoinfer.Cuda.Attention.Tiled.{attention_warp_tiled_kernel}
use nanoinfer.Cuda.Attention.Tiled.Laws.{AreTiles}
use nanoinfer.Cuda.Attention.Tiled.Output.{tiled_launch}
use nanoinfer.Cuda.Paged.Pool.{CudaBlockPool, allocate, pop_free, free, layer_stride}
use nanoinfer.Cuda.Paged.Cache.{
  CudaSession, make_cache, ensure_capacity, grow, push_block, sync_device_block_table, upload,
  free_all, prepare, truncate, advance,
}
use nanoinfer.Cuda.Paged.Bookkeeping.{on_host, truncate-books}
use nanoinfer.Cuda.Paged.Table.Reachability.{
  Reachable, created, next, prepared, advanced, truncated, IsPrepared, prepare-IsPrepared,
}
use nanoinfer.Cuda.Paged.Attend.{attend_blocks, block_offset}
use nanoinfer.Cuda.Paged.Attend.Contiguous.{BlocksHold, attend_blocks-attention}

ascending : ℕ → ℕ → List ℕ
ascending lo zero = []
ascending lo (suc n) = lo ∷ ascending (lo + 1) n

count-ascending_below : (lo n i : ℕ) → i < lo → count i (ascending lo n) ≡ 0
unfolding ascending
count-ascending_below lo zero i h = count-nil i
count-ascending_below lo (suc n) i h = ground (
  arith,
  count-cons i lo (ascending (lo + 1) n),
  count-ascending_below (lo + 1) n i (omega arith),
)

count-ascending :
    (lo n i : ℕ) → lo ≤ i → count i (ascending lo n) ≡ (if ltb i (lo + n) then 1 else 0)
unfolding ascending
count-ascending lo zero i h = count-nil i ∙ ground arith
count-ascending lo (suc n) i h = elim (ℕ_discrete lo i) [
  | yes e ↦ ground (
    arith,
    count-cons i lo (ascending (lo + 1) n),
    count-ascending_below (lo + 1) n i (omega arith),
  )
  | no ne ↦
      ground
        (arith, count-cons i lo (ascending (lo + 1) n), count-ascending (lo + 1) n i (omega arith))
]

abbrev gpu : Gpu ℕ
gpu = record { order = λ n. ascending 0 n; stale = λ k i. 99; sm_count = 4 }

gpu-IsOrder : IsOrder gpu.order
gpu-IsOrder n i =
    count-ascending 0 n i (omega arith) ∙ ap (λ k. if ltb i k then 1 else 0) (omega arith)

abbrev on_device : Tensor ℕ → DeviceTensor ℕ
on_device t = record { header = t; buffer = t.values }

on_device-Mirrors : (t : Tensor ℕ) → Mirrors (on_device t) t
on_device-Mirrors t = record { same_shape = refl; same_numel = refl; same_entries = refl }

merge_heads-Mirrors_example :
    (y : Tensor ℕ) × (dy : DeviceTensor ℕ) × (Cpu.merge_heads 0 two_heads ≡ ok y)
    × (merge_heads numbers gpu (on_device two_heads) ≡ ok dy)
    × Mirrors dy y
merge_heads-Mirrors_example =
    merge_heads-Mirrors numbers gpu gpu-IsOrder two_heads (on_device two_heads) 2 2 1 two_heads-Is3d
      (on_device-Mirrors two_heads) (omega arith) (omega arith)

-- One head, one position, two dimensions.
abbrev one_token : Tensor ℕ
one_token = cube 1 1 2 (5 ∷ 6 ∷ [])

one_token-Is3d : Is3d 1 1 2 one_token
one_token-Is3d = record { shape = refl; strides = refl; numel = refl; stored = refl }

apply_rope-Mirrors_example :
    (y : Tensor ℕ) × (dy : DeviceTensor ℕ) × (CpuRope.apply_rope numbers one_token rows rows 1
      ≡ ok y)
    × (apply_rope numbers gpu (on_device one_token) (on_device rows) (on_device rows) 1 ≡ ok dy)
    × Mirrors dy y
apply_rope-Mirrors_example =
    apply_rope-Mirrors numbers gpu gpu-IsOrder one_token rows rows (on_device one_token)
      (on_device rows) (on_device rows) 1 1 2 2 1 one_token-Is3d rows-Is2d rows-Is2d
      (on_device-Mirrors one_token) (on_device-Mirrors rows) (on_device-Mirrors rows) (omega arith)
      (omega arith) (omega arith)

-- One head, two queries and two keys.
abbrev keys_of_one : List ℕ
keys_of_one = 7 ∷ 8 ∷ []

abbrev two_queries : Inputs ℕ
two_queries = record {
  q = 1 ∷ 2 ∷ [];
  heads = 1;
  sq = 2;
  keys = 2;
  dim = 1;
  causal = true;
  query_offset = 0;
  scale = 1;
  key = λ h j d. get_or keys_of_one (j + d) 0;
  value = λ h j d. get_or keys_of_one (j + d) 0;
  key_tile = λ h base idx. get_or keys_of_one (base + idx) 0;
  value_tile = λ h base idx. get_or keys_of_one (base + idx) 0;
}

split_tiles_example :
    let n = split_count 4 (1 * 2) 2 in
    let c = chunk_of 2 n in
    (IsVisible numbers two_queries 1 1
      → (s : ℕ) × (s < n)
        × IsRead numbers two_queries c s 1 1
        × ((s' : ℕ) → IsRead numbers two_queries c s' 1 1 → s' ≡ s))
    × ((s : ℕ) → IsRead numbers two_queries c s 1 1 → IsVisible numbers two_queries 1 1)
split_tiles_example = split_tiles numbers two_queries 4 1 1 (omega arith) (omega arith)

two_queries-AreTiles : AreTiles numbers two_queries
two_queries-AreTiles = record {
  keys_there = λ h base j d hd. ap (λ k. get_or keys_of_one k 0) (omega arith);
  values_there = λ h base j d hd. ap (λ k. get_or keys_of_one k 0) (omega arith);
}

tiled_launch_example :
    launch gpu.order
      ((2 + 7) / 8 * 1)
      1
      (attention_warp_tiled_kernel numbers two_queries gpu ((2 + 7) / 8))
      (0 ∷ 0 ∷ [])
    ≡ launch gpu.order
        (warp_blocks (1 * 2))
        8
        (attention_warp_kernel numbers two_queries)
        (3 ∷ 4 ∷ [])
tiled_launch_example =
    tiled_launch numbers two_queries gpu two_queries-AreTiles (λ i h. omega arith) gpu.order
      (0 ∷ 0 ∷ []) (3 ∷ 4 ∷ []) gpu-IsOrder (omega arith) (omega arith) (omega arith) refl refl

-- Two blocks of two positions, of one layer and one head; block 1 holds what the heads below read.
abbrev two_blocks : CudaBlockPool ℕ
two_blocks = record {
  num_layers = 1;
  n_kv_heads = 1;
  head_dim = 1;
  block_size = 2;
  num_blocks = 2;
  block_stride = 2;
  k = 0 ∷ 0 ∷ 7 ∷ 8 ∷ [];
  v = 0 ∷ 0 ∷ 7 ∷ 8 ∷ [];
  free_list = 0 ∷ 1 ∷ [];
  refcount = 0 ∷ 0 ∷ [];
}

abbrev unused : CudaSession ℕ
unused = record {
  pool = two_blocks;
  cache = record { block_table = []; d_block_table = []; d_bt_count = 0; filled = 0 };
}

-- What `cudaMalloc` gives.
abbrev raw_table : ℕ → ℕ
raw_table i = 77

-- Four positions are written and one is kept.
abbrev rolled_back : CudaSession ℕ
rolled_back = (truncate 1 (advance 4 ((prepare raw_table 4 unused).1))).1

rolled_back-Reachable : Reachable raw_table two_blocks rolled_back
unfolding make_cache
rolled_back-Reachable =
    next (next (next created (prepared unused 4)) (advanced _ 4)) (truncated _ 1)

rolled_back_table : length ((Host.ensure_capacity 3 (on_host rolled_back)).1).cache.block_table ≡ 2
unfolding Host.ensure_capacity Host.grow Host.push_block HostPool.allocate HostPool.pop_free prepare
    truncate advance ensure_capacity grow push_block sync_device_block_table upload free_all
    allocate pop_free free Host.resize for_range replicate tabulate_from
rolled_back_table = refl

prepare-IsPrepared_example : IsPrepared raw_table 3 rolled_back (prepare raw_table 3 rolled_back)
prepare-IsPrepared_example =
    prepare-IsPrepared raw_table two_blocks rolled_back 3 rolled_back-Reachable
      (omega (arith, rolled_back_table))

truncate-books_example :
    lift on_host (truncate 1 rolled_back) ≡ Host.truncate 1 (on_host rolled_back)
truncate-books_example = truncate-books 1 rolled_back

-- Two heads that both read the head of block 1.
abbrev shared_head : Tensor ℕ
shared_head = cube 2 2 1 (7 ∷ 8 ∷ 7 ∷ 8 ∷ [])

-- Position `j` of both heads is entry `j` of block 1.
held :
    (h j d : ℕ)
    → h < 2
    → j < 2
    → d < 1
    → get_or two_blocks.k
        (0 * layer_stride two_blocks + (block_offset (1 ∷ []) 1 2 1 (h / 2) j + d))
        0
      ≡ get_or shared_head.values (h * 2 * 1 + j * 1 + d) 0
unfolding layer_stride
held zero zero zero a b c = refl
held zero (suc zero) zero a b c = refl
held (suc zero) zero zero a b c = refl
held (suc zero) (suc zero) zero a b c = refl
held (suc (suc h)) j d a b c = absurd (omega arith)
held h (suc (suc j)) d a b c = absurd (omega arith)
held h j (suc d) a b c = absurd (omega arith)

shared_head-BlocksHold :
    BlocksHold numbers gpu
      (on_device two_heads)
      (on_device shared_head)
      (on_device shared_head)
      2
      0
      (1 ∷ [])
      two_blocks
shared_head-BlocksHold = record { keys_held = held; values_held = held }

attend_blocks-attention_example :
    attend_blocks numbers gpu default_policy 0 (on_device two_heads) 2 true 0 2 (1 ∷ []) two_blocks
    ≡ attention numbers gpu default_policy
        (on_device two_heads)
        (on_device shared_head)
        (on_device shared_head)
        true
        0
attend_blocks-attention_example =
    attend_blocks-attention numbers gpu (on_device two_heads) (on_device shared_head)
      (on_device shared_head) 2 0 (1 ∷ []) two_blocks default_policy true 0 shared_head-BlocksHold
      gpu-IsOrder (omega arith) (omega arith) (omega arith) (λ e. omega arith)
