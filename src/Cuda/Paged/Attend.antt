-- ===== src/Cuda/Paged/Attend.antt =====
-- cpp/src/cuda/cuda_backend.cu: the kernels that write and read keys and values in blocks, and
-- CudaPagedKVCache::attend outside of a capture.
pub mod Agreement
pub mod Contiguous
use nanoinfer.Prelude.{
  ℕ, ◌+◌, ◌-◌, ◌*◌, ◌/◌, ◌%◌, Bool, not, ◌&&◌, ◌||◌, List, [], ◌∷◌, Option, some, none, get_or, set,
  leb, ltb, if◌then◌else◌, Result, ok, throw, Method, continue, runtime_error, ◌>>=◌,
}
use nanoinfer.Floats.{FloatOps}
use nanoinfer.Tensor.{f32, size}
use nanoinfer.Cuda.Launch.{grid1d, k_block, launch}
use nanoinfer.Cuda.Policy.{CudaPolicy, split_count, chunk_of}
use nanoinfer.Cuda.Device.{DeviceTensor, Gpu, device_alloc}
use nanoinfer.Cuda.Elementwise.{load}
use nanoinfer.Cuda.Attention.Kernels.{
  Inputs, Parts, attention_kernel, attention_warp_kernel, attention_split_kv_kernel,
  attention_combine_kernel,
}
use nanoinfer.Cuda.Attention.Tiled.{attention_warp_tiled_kernel}
use nanoinfer.Cuda.Attention.Method.{warp_blocks, scale_of}
use nanoinfer.Cuda.Paged.Pool.{CudaBlockPool, layer_stride}
use nanoinfer.Cuda.Paged.Cache.{CudaSession, prepare}

-- `((blk * n_kv + h) * block_size + off) * hd` for position `pos`, through the block table.
abbrev pub block_offset : List ℕ → ℕ → ℕ → ℕ → ℕ → ℕ → ℕ
block_offset table n_kv block_size hd h pos =
    ((get_or table (pos / block_size) 0 * n_kv + h) * block_size + pos % block_size) * hd

-- `d_pos ? *d_pos : given`
abbrev pub position_or : Option ℕ → ℕ → ℕ
position_or none given = given
position_or (some pos) given = pos

module _ (fp : FloatOps) where
  open fp use {Float, one_f, div_f}

  -- The buffers of keys and of values; `base` is where the layer starts.
  unfoldable pub paged_write_kernel :
      List Float
      → List Float
      → ℕ
      → List ℕ
      → ℕ
      → ℕ
      → ℕ
      → ℕ
      → ℕ
      → Option ℕ
      → ℕ
      → List Float × List Float
      → List Float × List Float
  paged_write_kernel k v base block_table t n_kv hd block_size start d_pos idx blocks =
      if leb (n_kv * t * hd) idx
      then blocks
      else let d = idx % hd in
        let i = idx / hd % t in
        let h = idx / (hd * t) in
        let pos = position_or d_pos start + i in
        let dst = block_offset block_table n_kv block_size hd h pos + d in
        (set (blocks.0) (base + dst) (load fp k idx), set (blocks.1) (base + dst) (load fp v idx))

  -- What the kernels for attention read: query head `h` uses head `h / n_rep` of the keys.
  module _ (kbase vbase : List Float) (base : ℕ) (block_table : List ℕ)
      (n_kv n_rep block_size : ℕ) where
    unfoldable pub paged_inputs : List Float → ℕ → ℕ → ℕ → ℕ → Bool → ℕ → Float → Inputs Float
    paged_inputs q n_heads sq hd end causal query_offset scale = record {
      q = q;
      heads = n_heads;
      sq = sq;
      keys = end;
      dim = hd;
      causal = causal;
      query_offset = query_offset;
      scale = scale;
      key = λ h j d.
          load fp kbase (base + (block_offset block_table n_kv block_size hd (h / n_rep) j + d));
      value = λ h j d.
          load fp vbase (base + (block_offset block_table n_kv block_size hd (h / n_rep) j + d));
      key_tile = λ h first idx. load fp kbase (
          base
          + (block_offset block_table n_kv block_size hd (h / n_rep) (first + idx / hd)
              + idx % hd));
      value_tile = λ h first idx. load fp vbase (
          base
          + (block_offset block_table n_kv block_size hd (h / n_rep) (first + idx / hd)
              + idx % hd));
    }

  -- The kernels on such inputs.
  unfoldable pub paged_attention_kernel : Inputs Float → ℕ → List Float → List Float
  unfolding attention_kernel
  paged_attention_kernel a hi out = attention_kernel fp a hi out

  -- With `d_pos`, the position is read on the device: `end - query_offset` is the number of new tokens.
  unfoldable pub paged_attention_warp_kernel : Inputs Float → Option ℕ → ℕ → List Float → List Float
  unfolding attention_warp_kernel
  paged_attention_warp_kernel a none hi out = attention_warp_kernel fp a hi out
  paged_attention_warp_kernel a (some pos) hi out =
      let moved : Inputs Float = record a {
        query_offset = pos;
        keys = pos + (a.keys - a.query_offset);
      } in
      attention_warp_kernel fp moved hi out

  unfoldable pub paged_attention_warp_tiled_kernel :
      Inputs Float → Gpu Float → ℕ → ℕ → List Float → List Float
  unfolding attention_warp_tiled_kernel
  paged_attention_warp_tiled_kernel a g tiles b out = attention_warp_tiled_kernel fp a g tiles b out

  unfoldable pub paged_attention_split_kv_kernel :
      (a : Inputs Float) → ℕ → ℕ → ℕ → Parts fp a → Parts fp a
  unfolding attention_split_kv_kernel
  paged_attention_split_kv_kernel a num_splits chunk gwarp parts =
      attention_split_kv_kernel fp a num_splits chunk gwarp parts

  module _ (g : Gpu Float) where
    -- The split of the keys, with buffers of `float`.
    unfoldable pub paged_split_attention : Inputs Float → List Float → Result (List Float)
    unfolding device_alloc paged_attention_split_kv_kernel attention_combine_kernel
    paged_split_attention a out = do
      let nq = a.heads * a.sq
      let num_splits = split_count g.sm_count nq a.keys
      let chunk = chunk_of a.keys num_splits
      let n = nq * num_splits
      parts ←
          launch g.order (warp_blocks n) 8 (paged_attention_split_kv_kernel a num_splits chunk) (
            (device_alloc fp g 1 (n ∷ []) f32).buffer,
            (device_alloc fp g 2 (n ∷ []) f32).buffer,
            (device_alloc fp g 3 (n ∷ a.dim ∷ []) f32).buffer,
          )
      launch g.order (grid1d (nq * a.dim) k_block) k_block
          (attention_combine_kernel fp parts nq a.dim num_splits) out

    -- The choice of the kernel.
    unfoldable pub run_paged_attention :
        CudaPolicy → Inputs Float → List Float → Result (List Float)
    unfolding paged_attention_kernel paged_attention_warp_kernel paged_attention_warp_tiled_kernel
        paged_split_attention
    run_paged_attention policy a out =
        let nq = a.heads * a.sq in
        if policy.force_naive_attn
        then launch g.order (grid1d nq k_block) k_block (paged_attention_kernel a) out
        else if ltb 1 a.sq && (not policy.no_tiled_attn && (policy.use_tiled_attn || leb 128 a.dim))
        then (let tiles = (a.sq + 7) / 8 in
            launch g.order (tiles * a.heads) 1 (paged_attention_warp_tiled_kernel a g tiles) out)
        else if policy.use_split_attn && leb 2 (split_count g.sm_count nq a.keys)
        then paged_split_attention a out
        else launch g.order (warp_blocks nq) 8 (paged_attention_warp_kernel a none) out

    -- The new keys and values go into the blocks of the layer.
    unfoldable pub write_blocks :
        List Float
        → List Float
        → ℕ
        → ℕ
        → List ℕ
        → ℕ
        → CudaBlockPool Float
        → Result (CudaBlockPool Float)
    unfolding paged_write_kernel layer_stride
    write_blocks k v layer t table start p = do
      blocks ←
          launch g.order (grid1d (p.n_kv_heads * t * p.head_dim) k_block) k_block
            (paged_write_kernel k v (layer * layer_stride p) table t p.n_kv_heads p.head_dim
              p.block_size start none)
            (p.k, p.v)
      ok (record p { k = blocks.0; v = blocks.1 })

    -- After the writes: the attention, which reads the pool only.
    unfoldable pub attend_blocks :
        CudaPolicy
        → ℕ
        → DeviceTensor Float
        → ℕ
        → Bool
        → ℕ
        → ℕ
        → List ℕ
        → CudaBlockPool Float
        → Result (DeviceTensor Float)
    unfolding device_alloc run_paged_attention paged_inputs layer_stride
    attend_blocks policy layer q n_rep causal query_offset end table p =
        let n_heads = size q.header 0 in
        let sq = size q.header 1 in
        let dim = size q.header 2 in
        if ltb 128 dim then throw runtime_error else do
          let out = device_alloc fp g 0 (n_heads ∷ sq ∷ dim ∷ []) f32
          buffer ←
              run_paged_attention policy
                (paged_inputs p.k p.v (layer * layer_stride p) table p.n_kv_heads n_rep p.block_size
                  q.buffer n_heads sq dim end causal query_offset (scale_of fp g dim))
                out.buffer
          ok (record out { buffer = buffer })

    unfoldable pub attend :
        CudaPolicy
        → (ℕ → ℕ)
        → ℕ
        → DeviceTensor Float
        → DeviceTensor Float
        → DeviceTensor Float
        → ℕ
        → Bool
        → ℕ
        → Method (CudaSession Float) (DeviceTensor Float)
    unfolding prepare write_blocks attend_blocks
    attend policy raw layer q k v n_rep causal query_offset s =
        let t = size k.header 1 in
        let start = s.cache.filled in
        let end = start + t in
        continue (prepare raw end s) λ _ grown.
          let table = grown.cache.d_block_table in
          continue (write_blocks k.buffer v.buffer layer t table start grown.pool, grown)
            λ pool u. (
              attend_blocks policy layer q n_rep causal query_offset end table pool,
              record u { pool = pool },
            )
