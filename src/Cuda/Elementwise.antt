-- ===== src/Cuda/Elementwise.antt =====
-- cpp/src/cuda/cuda_elementwise.cu: the kernels with one thread for each entry, and the methods of
-- CudaBackend that launch them. The eager mode: no graph is being captured or replayed.
pub mod Index
pub mod Fill
pub mod Entries
pub mod Heads
pub mod Merge
pub mod Copies
use nanoinfer.Prelude.{
  ℕ, zero, suc, ◌+◌, ◌-◌, ◌*◌, ◌/◌, ◌%◌, Bool, List, [], ◌∷◌, length, get_or, set, leb, ltb,
  if◌then◌else◌, Result, ok, ◌>>=◌, map,
}
use nanoinfer.Prelude.Loops.{for_range}
use nanoinfer.Floats.{FloatOps}
use nanoinfer.Tensor.{Tensor, f32, size}
use nanoinfer.Ops.Norms.{last_dim}
use nanoinfer.Cuda.Launch.{grid1d, k_block, launch}
use nanoinfer.Cuda.Device.{DeviceTensor, Gpu, device_alloc, memcpy}

module _ (fp : FloatOps) where
  open fp use {
    Float, Double, zero_f, one_f, zero_d, add_f, mul_f, div_f, neg_f, exp_f, sqrt_f, add_d, mul_d,
    div_d, widen, narrow, of_ℕ_d,
  }

  -- `p[i]`
  abbrev pub load : List Float → ℕ → Float
  load p i = get_or p i zero_f

  unfoldable pub embedding_kernel : List Float → List ℕ → ℕ → ℕ → ℕ → List Float → List Float
  embedding_kernel table ids n hidden idx out =
      if leb (n * hidden) idx
      then out
      else let r = idx / hidden in
        let c = idx % hidden in set out idx (load table (get_or ids r 0 * hidden + c))

  -- `sumsq` of the row that `xr` points to.
  unfoldable pub row_squares : List Float → ℕ → ℕ → Double
  row_squares x xr d =
      for_range d 0
        (λ c sumsq. add_d sumsq (mul_d (widen (load x (xr + c))) (widen (load x (xr + c))))) zero_d

  unfoldable pub rmsnorm_kernel :
      List Float → List Float → ℕ → ℕ → Float → ℕ → List Float → List Float
  unfolding row_squares
  rmsnorm_kernel x w rows d eps r out =
      if leb rows r
      then out
      else let scale =
          div_f one_f (sqrt_f (add_f (narrow (div_d (row_squares x (r * d) d) (of_ℕ_d d))) eps)) in
        for_range d 0
          (λ c o. set o (r * d + c) (mul_f (mul_f (load x (r * d + c)) scale) (load w c))) out

  unfoldable pub silu_kernel : List Float → ℕ → ℕ → List Float → List Float
  silu_kernel x n i out =
      if leb n i
      then out
      else let v = load x i in set out i (div_f v (add_f one_f (exp_f (neg_f v))))

  unfoldable pub mul_kernel : List Float → List Float → ℕ → ℕ → List Float → List Float
  mul_kernel a b n i out = if ltb i n then set out i (mul_f (load a i) (load b i)) else out

  unfoldable pub add_kernel : List Float → List Float → ℕ → ℕ → List Float → List Float
  add_kernel a b n i out = if ltb i n then set out i (add_f (load a i) (load b i)) else out

  -- One thread for each entry of `out`.
  unfoldable pub split_heads_kernel : List Float → ℕ → ℕ → ℕ → ℕ → List Float → List Float
  split_heads_kernel x seq heads dim idx out =
      if leb (heads * seq * dim) idx
      then out
      else let h = idx / (seq * dim) in
        let rem = idx % (seq * dim) in
        let s = rem / dim in
        let d = rem % dim in set out idx (load x (s * (heads * dim) + h * dim + d))

  -- One thread for each entry of `x`.
  unfoldable pub merge_heads_kernel : List Float → ℕ → ℕ → ℕ → ℕ → List Float → List Float
  merge_heads_kernel x heads seq dim idx out =
      if leb (heads * seq * dim) idx
      then out
      else let h = idx / (seq * dim) in
        let rem = idx % (seq * dim) in
        let s = rem / dim in
        let d = rem % dim in set out (s * (heads * dim) + h * dim + d) (load x idx)

  unfoldable pub repeat_kv_kernel : List Float → ℕ → ℕ → ℕ → ℕ → ℕ → List Float → List Float
  repeat_kv_kernel x n_rep seq dim out_heads idx out =
      if leb (out_heads * seq * dim) idx
      then out
      else let oh = idx / (seq * dim) in
        let rem = idx % (seq * dim) in
        let s = rem / dim in
        let d = rem % dim in let j = oh / n_rep in set out idx (load x ((j * seq + s) * dim + d))

  unfoldable pub gather_rows_kernel : List Float → List ℕ → ℕ → ℕ → ℕ → List Float → List Float
  gather_rows_kernel x rows n width idx out =
      if leb (n * width) idx
      then out
      else let j = idx / width in
        let c = idx % width in set out idx (load x (get_or rows j 0 * width + c))

  unfoldable pub scatter_add_rows_kernel :
      List ℕ → List Float → List Float → ℕ → ℕ → ℕ → List Float → List Float
  scatter_add_rows_kernel rows scale src n width idx dst =
      if leb (n * width) idx
      then dst
      else let j = idx / width in
        let c = idx % width in
        let p = get_or rows j 0 * width + c in
        set dst p (add_f (load dst p) (mul_f (load scale j) (load src idx)))

  unfoldable pub rope_kernel :
      List Float → List Float → List Float → ℕ → ℕ → ℕ → ℕ → ℕ → List Float → List Float
  rope_kernel x cos_t sin_t heads seq dim pos_offset idx out =
      if leb (heads * seq * dim) idx
      then out
      else let h = idx / (seq * dim) in
        let rem = idx % (seq * dim) in
        let p = rem / dim in
        let d = rem % dim in
        let half = dim / 2 in
        let pos = pos_offset + p in
        let base = h * seq * dim + p * dim in
        let rot =
          if ltb d half then neg_f (load x (base + (d + half))) else load x (base + (d - half)) in
        set out idx (
          add_f (mul_f (load x idx) (load cos_t (pos * dim + d)))
            (mul_f rot (load sin_t (pos * dim + d))))

  -- `kernel<<<grid1d(total, kBlock), kBlock>>>(..., dptr(d), ...)` on the buffer of `d`.
  abbrev pub launch_on :
      Gpu Float
      → ℕ
      → (ℕ → List Float → List Float)
      → DeviceTensor Float
      → Result (DeviceTensor Float)
  launch_on g total kernel d =
      launch g.order (grid1d total k_block) k_block kernel d.buffer >>= λ buffer.
      ok (record d { buffer = buffer })

  module _ (g : Gpu Float) where
    abbrev alloc_f32 : List ℕ → DeviceTensor Float
    alloc_f32 shape = device_alloc fp g 0 shape f32

    -- `ids` in their device buffer. A table of any type is read through `ldf`.
    unfoldable pub embedding : DeviceTensor Float → List ℕ → Result (DeviceTensor Float)
    unfolding embedding_kernel
    embedding table ids =
        let n = length ids in
        let hidden = size table.header 1 in
        launch_on g (n * hidden) (embedding_kernel table.buffer ids n hidden)
          (alloc_f32 (n ∷ hidden ∷ []))

    unfoldable pub rmsnorm :
        DeviceTensor Float → DeviceTensor Float → Float → Result (DeviceTensor Float)
    unfolding rmsnorm_kernel
    rmsnorm x weight eps =
        let d = last_dim fp x.header in
        let rows = x.header.numel / d in
        launch_on g rows (rmsnorm_kernel x.buffer weight.buffer rows d eps)
          (alloc_f32 x.header.shape)

    unfoldable pub silu : DeviceTensor Float → Result (DeviceTensor Float)
    unfolding silu_kernel
    silu x =
        launch_on g x.header.numel (silu_kernel x.buffer x.header.numel) (alloc_f32 x.header.shape)

    unfoldable pub mul : DeviceTensor Float → DeviceTensor Float → Result (DeviceTensor Float)
    unfolding mul_kernel
    mul a b =
        launch_on g a.header.numel (mul_kernel a.buffer b.buffer a.header.numel)
          (alloc_f32 a.header.shape)

    unfoldable pub add : DeviceTensor Float → DeviceTensor Float → Result (DeviceTensor Float)
    unfolding add_kernel
    add a b =
        launch_on g a.header.numel (add_kernel a.buffer b.buffer a.header.numel)
          (alloc_f32 a.header.shape)

    unfoldable pub split_heads : DeviceTensor Float → ℕ → ℕ → Result (DeviceTensor Float)
    unfolding split_heads_kernel
    split_heads x n_heads head_dim =
        let seq = size x.header 0 in
        launch_on g (n_heads * seq * head_dim) (split_heads_kernel x.buffer seq n_heads head_dim)
          (alloc_f32 (n_heads ∷ seq ∷ head_dim ∷ []))

    unfoldable pub merge_heads : DeviceTensor Float → Result (DeviceTensor Float)
    unfolding merge_heads_kernel
    merge_heads x =
        let heads = size x.header 0 in
        let seq = size x.header 1 in
        let dim = size x.header 2 in
        launch_on g (heads * seq * dim) (merge_heads_kernel x.buffer heads seq dim)
          (alloc_f32 (seq ∷ (heads * dim) ∷ []))

    unfoldable pub repeat_kv : DeviceTensor Float → ℕ → Result (DeviceTensor Float)
    unfolding repeat_kv_kernel
    repeat_kv x n_rep =
        let kv = size x.header 0 in
        let seq = size x.header 1 in
        let dim = size x.header 2 in
        let out_heads = kv * n_rep in
        launch_on g (out_heads * seq * dim) (repeat_kv_kernel x.buffer n_rep seq dim out_heads)
          (alloc_f32 (out_heads ∷ seq ∷ dim ∷ []))

    unfoldable pub apply_rope :
        DeviceTensor Float
        → DeviceTensor Float
        → DeviceTensor Float
        → ℕ
        → Result (DeviceTensor Float)
    unfolding rope_kernel
    apply_rope x cos sin pos_offset =
        let heads = size x.header 0 in
        let seq = size x.header 1 in
        let dim = size x.header 2 in
        launch_on g (heads * seq * dim)
          (rope_kernel x.buffer cos.buffer sin.buffer heads seq dim pos_offset)
          (alloc_f32 (heads ∷ seq ∷ dim ∷ []))

    unfoldable pub gather_rows : DeviceTensor Float → List ℕ → Result (DeviceTensor Float)
    unfolding gather_rows_kernel
    gather_rows x rows =
        let n = length rows in
        let width = size x.header 1 in
        launch_on g (n * width) (gather_rows_kernel x.buffer rows n width)
          (alloc_f32 (n ∷ width ∷ []))

    -- The result is `dst` after the call.
    unfoldable pub scatter_add_rows :
        DeviceTensor Float → List ℕ → List Float → DeviceTensor Float → Result (DeviceTensor Float)
    unfolding scatter_add_rows_kernel
    scatter_add_rows dst rows scale src =
        let n = length rows in
        let width = size dst.header 1 in
        launch_on g (n * width) (scatter_add_rows_kernel rows scale src.buffer n width) dst
