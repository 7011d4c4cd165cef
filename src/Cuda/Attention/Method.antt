-- ===== src/Cuda/Attention/Method.antt =====
-- cpp/src/cuda/cuda_backend.cu: CudaBackend::attention.
use nanoinfer.Prelude.{
  ℕ, ◌+◌, ◌*◌, ◌/◌, ◌%◌, ◌^◌, Bool, not, ◌&&◌, ◌||◌, List, [], ◌∷◌, leb, ltb, if◌then◌else◌, Result,
  ok, throw, runtime_error, ◌>>=◌,
}
use nanoinfer.Floats.{FloatOps}
use nanoinfer.Tensor.{f32, size}
use nanoinfer.Cuda.Launch.{grid1d, k_block, launch}
use nanoinfer.Cuda.Policy.{CudaPolicy, split_count, chunk_of}
use nanoinfer.Cuda.Device.{DeviceTensor, Gpu, device_alloc}
use nanoinfer.Cuda.Elementwise.{load}
use nanoinfer.Cuda.Attention.Kernels.{
  Inputs, attention_kernel, attention_warp_kernel, attention_split_kv_kernel,
  attention_combine_kernel,
}
use nanoinfer.Cuda.Attention.Tiled.{attention_warp_tiled_kernel}

-- `(warps + warpsPerBlock - 1) / warpsPerBlock` blocks of eight warps, as an `int`.
abbrev pub warp_blocks : ℕ → ℕ
warp_blocks warps = (warps + 7) / 8 % 2 ^ 32

module _ (fp : FloatOps) (g : Gpu fp.Float) where
  open fp use {Float, one_f, div_f, sqrt_f, of_ℕ}

  abbrev pub scale_of : ℕ → Float
  scale_of dim = div_f one_f (sqrt_f (of_ℕ dim))

  -- `float` buffers of the given numbers of entries, which hold what `device_alloc` left there.
  abbrev scratch : ℕ → ℕ → List Float
  scratch k n = (device_alloc fp g k (n ∷ []) f32).buffer

  -- `attention_split_kv_kernel` and then `attention_combine_kernel`.
  unfoldable pub split_attention : Inputs Float → List Float → Result (List Float)
  unfolding device_alloc attention_split_kv_kernel attention_combine_kernel
  split_attention a out = do
    let nq = a.heads * a.sq
    let num_splits = split_count g.sm_count nq a.keys
    let chunk = chunk_of a.keys num_splits
    let n = nq * num_splits
    parts ←
        launch g.order (warp_blocks n) 8 (attention_split_kv_kernel fp a num_splits chunk)
          (scratch 1 n, scratch 2 n, (device_alloc fp g 3 (n ∷ a.dim ∷ []) f32).buffer)
    launch g.order (grid1d (nq * a.dim) k_block) k_block
        (attention_combine_kernel fp parts nq a.dim num_splits) out

  -- The choice of the kernel, the same over contiguous keys and over blocks.
  unfoldable pub run_attention : CudaPolicy → Inputs Float → List Float → Result (List Float)
  unfolding attention_kernel attention_warp_kernel attention_warp_tiled_kernel split_attention
  run_attention policy a out =
      let nq = a.heads * a.sq in
      if policy.force_naive_attn
      then launch g.order (grid1d nq k_block) k_block (attention_kernel fp a) out
      else if ltb 1 a.sq && (not policy.no_tiled_attn && (policy.use_tiled_attn || leb 128 a.dim))
      then (let tiles = (a.sq + 7) / 8 in
          launch g.order (tiles * a.heads) 1 (attention_warp_tiled_kernel fp a g tiles) out)
      else if policy.use_split_attn && leb 2 (split_count g.sm_count nq a.keys)
      then split_attention a out
      else launch g.order (warp_blocks nq) 8 (attention_warp_kernel fp a) out

  -- `k + h * sk * D` and `v + h * sk * D` for each head.
  unfoldable pub contiguous_inputs :
      DeviceTensor Float → DeviceTensor Float → DeviceTensor Float → Bool → ℕ → Inputs Float
  contiguous_inputs q k v causal query_offset =
      let dim = size q.header 2 in
      let sk = size k.header 1 in
      record {
        q = q.buffer;
        heads = size q.header 0;
        sq = size q.header 1;
        keys = sk;
        dim = dim;
        causal = causal;
        query_offset = query_offset;
        scale = scale_of dim;
        key = λ h j d. load fp k.buffer (h * sk * dim + j * dim + d);
        value = λ h j d. load fp v.buffer (h * sk * dim + j * dim + d);
        key_tile = λ h base idx. load fp k.buffer (h * sk * dim + (base * dim + idx));
        value_tile = λ h base idx. load fp v.buffer (h * sk * dim + (base * dim + idx));
      }

  unfoldable pub attention :
      CudaPolicy
      → DeviceTensor Float
      → DeviceTensor Float
      → DeviceTensor Float
      → Bool
      → ℕ
      → Result (DeviceTensor Float)
  unfolding device_alloc run_attention contiguous_inputs
  attention policy q k v causal query_offset =
      let heads = size q.header 0 in
      let sq = size q.header 1 in
      let dim = size q.header 2 in
      if ltb 128 dim then throw runtime_error else do
        let out = device_alloc fp g 0 (heads ∷ sq ∷ dim ∷ []) f32
        buffer ← run_attention policy (contiguous_inputs q k v causal query_offset) out.buffer
        ok (record out { buffer = buffer })
