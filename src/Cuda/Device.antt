-- ===== src/Cuda/Device.antt =====
-- cpp/src/cuda/cuda_runtime.cu and cuda_backend.cu: tensors on the device, and the copies between them
-- and host tensors. Calls of the CUDA runtime succeed.
pub mod Laws
use nanoinfer.Prelude.{
  ℕ, ◌+◌, ◌*◌, List, length, get_or, set, leb, ltb, if◌then◌else◌, Result, ok, ◌>>=◌,
}
use nanoinfer.Prelude.Loops.{for_range}
use nanoinfer.Prelude.Tabulate.{tabulate}
use nanoinfer.Floats.{FloatOps}
use nanoinfer.Tensor.{Tensor, DType, f16, bf16, cpu, make_tensor, f32}
use nanoinfer.Tensor as Tensors
use nanoinfer.Cuda.Launch.{Order, grid1d, k_block, launch}

-- `buffer` is what `device_ptr()` points to. A half buffer is kept as the floats that `ldf` reads from it.
pub record DeviceTensor (F : Type 0) : Type 0 where
  pub header : Tensor F
  pub buffer : List F

-- What the device decides: the order of the threads of a launch, and what the buffers that a method
-- allocates hold before they are written. `sm_count` is what the runtime says of it.
pub record Gpu (F : Type 0) : Type 0 where
  pub order : Order
  pub stale : ℕ → ℕ → F
  pub sm_count : ℕ

-- The conversions of `__float2half` and `__float2bfloat16`, as the floats that the results stand for.
pub record Rounding (F : Type 0) : Type 0 where
  pub round_f16 : F → F
  pub round_bf16 : F → F

module _ (fp : FloatOps) where
  open fp use {Float, zero_f}

  -- Buffer number `k` of a method. A tensor without entries has no buffer.
  unfoldable pub device_alloc : Gpu Float → ℕ → List ℕ → DType → DeviceTensor Float
  device_alloc g k shape dt =
      let d = make_tensor zero_f shape Tensors.cuda in
      record { header = record d { dtype = dt }; buffer = tabulate d.numel (g.stale k) }

  -- `cudaMemcpy` of `n` entries.
  unfoldable pub memcpy : List Float → ℕ → List Float → ℕ → ℕ → List Float
  memcpy dst to src from n =
      for_range n 0 (λ i d. set d (to + i) (get_or src (from + i) zero_f)) dst

  unfoldable pub to_device : Gpu Float → ℕ → Tensor Float → DeviceTensor Float
  unfolding device_alloc memcpy
  to_device g k host =
      let d = device_alloc g k host.shape f32 in
      record d { buffer = memcpy d.buffer 0 host.values 0 host.numel }

  unfoldable pub to_host : DeviceTensor Float → Tensor Float
  unfolding memcpy
  to_host dev =
      let h = make_tensor zero_f dev.header.shape cpu in
      record h { values = memcpy h.values 0 dev.buffer 0 dev.header.numel }

  -- `if (i < n) dst[i] = convert(src[i])`
  unfoldable pub convert_kernel : (Float → Float) → List Float → ℕ → ℕ → List Float → List Float
  convert_kernel convert src n i dst =
      if ltb i n then set dst i (convert (get_or src i zero_f)) else dst

  -- `to_device_f16` and `to_device_bf16`.
  unfoldable pub to_device_half :
      Gpu Float → DType → (Float → Float) → Tensor Float → Result (DeviceTensor Float)
  unfolding to_device device_alloc convert_kernel
  to_device_half g dt convert host =
      let src = to_device g 0 host in
      let d = device_alloc g 1 host.shape dt in
      let n = host.numel in
      if ltb 0 n
      then (do
        buffer ←
            launch g.order (grid1d n k_block) k_block (convert_kernel convert src.buffer n) d.buffer
        ok (record d { buffer = buffer }))
      else ok d
