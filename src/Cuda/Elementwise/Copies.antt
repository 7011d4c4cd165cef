-- ===== src/Cuda/Elementwise/Copies.antt =====
-- cpp/src/cuda/cuda_elementwise.cu: the methods of CudaBackend that copy rows.
use nanoinfer.Prelude.{
  ℕ, ◌+◌, ◌*◌, ◌<◌, ◌≤◌, ◌≡◌, sym, ◌∙◌, List, [], ◌∷◌, arith, length, get_or, replicate,
}
use nanoinfer.Prelude.Tabulate.{length-tabulate}
use nanoinfer.Floats.{FloatOps}
use nanoinfer.Tensor.{f32, size, make_tensor}
use nanoinfer.Cuda.Device.{DeviceTensor, Gpu, device_alloc, memcpy}
use nanoinfer.Cuda.Device.Laws.{get_or-memcpy_new}
use nanoinfer.Cuda.Elementwise.Fill.{numel2}

module _ (fp : FloatOps) (g : Gpu fp.Float) where
  open fp use {Float, zero_f}

  unfoldable pub alloc : List ℕ → DeviceTensor Float
  unfolding device_alloc
  alloc shape = device_alloc fp g 0 shape f32

  unfoldable pub extract_row : DeviceTensor Float → ℕ → ℕ → ℕ → DeviceTensor Float
  unfolding device_alloc memcpy
  extract_row x s heads dim =
      let width = heads * dim in
      let out = device_alloc fp g 0 (heads ∷ 1 ∷ dim ∷ []) f32 in
      record out { buffer = memcpy fp out.buffer 0 x.buffer (s * width) width }

  unfoldable pub place_row : DeviceTensor Float → ℕ → DeviceTensor Float → DeviceTensor Float
  unfolding memcpy
  place_row dst s row =
      let width = size dst.header 1 in
      record dst { buffer = memcpy fp dst.buffer (s * width) row.buffer 0 width }

  unfoldable pub extract_rows : DeviceTensor Float → ℕ → ℕ → DeviceTensor Float
  unfolding device_alloc memcpy
  extract_rows x row_start count =
      let width = size x.header 1 in
      let out = device_alloc fp g 0 (count ∷ width ∷ []) f32 in
      record out { buffer = memcpy fp out.buffer 0 x.buffer (row_start * width) (count * width) }

  unfoldable pub place_rows : DeviceTensor Float → ℕ → DeviceTensor Float → DeviceTensor Float
  unfolding memcpy
  place_rows dst row_start block =
      let width = size dst.header 1 in
      let count = size block.header 0 in
      record dst {
        buffer = memcpy fp dst.buffer (row_start * width) block.buffer 0 (count * width);
      }

  -- The buffer is filled with bytes of zero.
  unfoldable pub zeros : List ℕ → DeviceTensor Float
  unfolding device_alloc
  zeros shape =
      let t = device_alloc fp g 0 shape f32 in record t { buffer = replicate t.header.numel zero_f }

  -- Rows that are placed are read back.
  pub extract-place_rows :
      (dst block : DeviceTensor Float) (row_start count i : ℕ)
      → size block.header 0 ≡ count
      → i < count * size dst.header 1
      → row_start * size dst.header 1 + count * size dst.header 1 ≤ length dst.buffer
      → get_or (extract_rows (place_rows dst row_start block) row_start count).buffer i zero_f
        ≡ get_or block.buffer i zero_f
  unfolding extract_rows place_rows device_alloc make_tensor
  extract-place_rows dst block row_start count i e h room =
      let width = size dst.header 1 in
      let placed =
        memcpy fp dst.buffer (row_start * width) block.buffer 0 (size block.header 0 * width) in
      let fresh = (device_alloc fp g 0 (count ∷ width ∷ []) f32).buffer in
      let size_of : length fresh ≡ count * width =
        length-tabulate _ (g.stale 0) ∙ sym (numel2 count width) in
      let at : 0 + i ≡ i = omega arith in
      rw at at (
        get_or-memcpy_new fp fresh 0 placed (row_start * width) (count * width) i h
          (omega (arith, size_of)))
      ∙ rw at at (
          get_or-memcpy_new fp dst.buffer (row_start * width) block.buffer 0
            (size block.header 0 * width) i (rw e h) (omega (arith, room)))
