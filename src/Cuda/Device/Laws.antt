-- ===== src/Cuda/Device/Laws.antt =====
-- cpp/src/cuda/cuda_runtime.cu and cuda_backend.cu: what the copies between host and device leave.
use nanoinfer.Prelude.{
  ℕ, ◌+◌, ◌<◌, ◌≡◌, refl, sym, ap, replicate, ◌∙◌, List, arith, length, get_or, length-set,
  length-replicate, get_or-set_self, get_or-set_ne,
}
use nanoinfer.Prelude.Loops.{for_range-keep, for_range-hit, for_range-miss}
use nanoinfer.Prelude.Tabulate.{length-tabulate, list_ext}
use nanoinfer.Floats.{FloatOps}
use nanoinfer.Tensor.{Tensor, cpu, make_tensor, numel_from, strides_from_right}
use nanoinfer.Tensor.Host.{IsHost}
use nanoinfer.Cuda.Device.{DeviceTensor, Gpu, device_alloc, memcpy, to_device, to_host}

module _ (fp : FloatOps) where
  open fp use {Float, zero_f}

  module _ (dst : List Float) (to : ℕ) (src : List Float) (from n : ℕ) where
    pub length-memcpy : length (memcpy fp dst to src from n) ≡ length dst
    unfolding memcpy
    length-memcpy =
        for_range-keep (λ d. length d ≡ length dst) _ (λ i d e. length-set d (to + i) _ ∙ e) n 0 dst
          refl

    pub get_or-memcpy_new :
        (i : ℕ)
        → i < n
        → to + i < length dst
        → get_or (memcpy fp dst to src from n) (to + i) zero_f ≡ get_or src (from + i) zero_f
    unfolding memcpy
    get_or-memcpy_new i h inside =
        for_range-hit (λ d. length d ≡ length dst) _ (λ i d e. length-set d (to + i) _ ∙ e)
          (λ d. get_or d (to + i) zero_f) i (get_or src (from + i) zero_f) n 0 dst (omega arith)
          (omega arith) (λ d e. get_or-set_self d (to + i) _ zero_f (omega (arith, e)))
          (λ k d lo hi ne e.
            get_or-set_ne d (to + k) (to + i) _ zero_f (λ p. ne (omega (arith, p))))
          refl

    pub get_or-memcpy_old :
        (p : ℕ)
        → ((i : ℕ) → i < n → ¬ (to + i ≡ p))
        → get_or (memcpy fp dst to src from n) p zero_f ≡ get_or dst p zero_f
    unfolding memcpy
    get_or-memcpy_old p away =
        for_range-miss (λ d. length d ≡ length dst) _ (λ i d e. length-set d (to + i) _ ∙ e)
          (λ d. get_or d p zero_f) n 0 dst
          (λ k d lo hi e. get_or-set_ne d (to + k) p _ zero_f (away k (omega arith))) refl

  -- A whole buffer is copied.
  pub memcpy_all :
      (dst src : List Float) (n : ℕ)
      → length dst ≡ n
      → length src ≡ n
      → memcpy fp dst 0 src 0 n ≡ src
  memcpy_all dst src n e f =
      list_ext _ src zero_f (length-memcpy dst 0 src 0 n ∙ omega (arith, e, f)) λ i h.
        let j : 0 + i ≡ i = omega arith in
        let small : i < n = omega (arith, length-memcpy dst 0 src 0 n, e) in
        rw j at (get_or-memcpy_new dst 0 src 0 n i small (omega (arith, e)))

  -- A tensor of this shape on the device, with these entries.
  pub record IsOnDevice (shape : List ℕ) (entries : List Float) (d : DeviceTensor Float)
      : Type 0 where
    pub shaped : d.header.shape ≡ shape
    pub strided : d.header.strides ≡ (strides_from_right shape).0
    pub counted : d.header.numel ≡ numel_from 1 shape
    pub holds : d.buffer ≡ entries

  pub to_device-IsOnDevice :
      (g : Gpu Float) (k : ℕ) (shape : List ℕ) (t : Tensor Float)
      → IsHost shape t
      → IsOnDevice shape t.values (to_device fp g k t)
  unfolding to_device device_alloc make_tensor
  to_device-IsOnDevice g k shape t w = record {
    shaped = w.shaped;
    strided = ap (λ s. (strides_from_right s).0) w.shaped;
    counted = ap (λ s. numel_from 1 s) w.shaped;
    holds =
        memcpy_all _ t.values t.numel
          (length-tabulate _ (g.stale k) ∙ ap (numel_from 1) w.shaped ∙ omega (arith, w.counted))
          (omega (arith, w.stored, w.counted));
  }

  -- The copy on the host has the shape and the entries.
  pub to_host-values :
      (shape : List ℕ) (entries : List Float) (d : DeviceTensor Float)
      → IsOnDevice shape entries d
      → length entries ≡ numel_from 1 shape
      → to_host fp d ≡ record (make_tensor zero_f shape cpu) { values = entries }
  unfolding to_host make_tensor
  to_host-values shape entries d w e =
      ap
        (λ s.
          let h = make_tensor zero_f s cpu in
          record h { values = memcpy fp h.values 0 d.buffer 0 d.header.numel })
        w.shaped
      ∙ ap (λ vs. record (make_tensor zero_f shape cpu) { values = vs })
          (memcpy_all (replicate (numel_from 1 shape) zero_f) d.buffer d.header.numel
              (length-replicate _ zero_f ∙ sym w.counted) (ap length w.holds ∙ e ∙ sym w.counted)
            ∙ w.holds)

-- A tensor on the device with the shape and the entries of a host tensor.
pub record Mirrors {F : Type 0} (d : DeviceTensor F) (t : Tensor F) : Type 0 where
  pub same_shape : d.header.shape ≡ t.shape
  pub same_numel : d.header.numel ≡ t.numel
  pub same_entries : d.buffer ≡ t.values
