-- ===== src/Cuda/Elementwise/Fill.antt =====
-- cpp/src/cuda/cuda_elementwise.cu against cpp/src/ops.cpp: launches that fill a new tensor.
use nanoinfer.Prelude.{
  ℕ, ◌*◌, ◌^◌, ◌≤◌, ◌<◌, ◌≡◌, sym, ◌∙◌, List, [], ◌∷◌, arith, set, leb, if◌then◌else◌, ok,
}
use nanoinfer.Prelude.Tabulate.{tabulate, length-tabulate}
use nanoinfer.Floats.{FloatOps}
use nanoinfer.Tensor.{Tensor, f32, make_tensor, numel_from}
use nanoinfer.Cuda.Launch.{IsOrder}
use nanoinfer.Cuda.Launch.Writes.{launch_fill}
use nanoinfer.Cuda.Device.{DeviceTensor, Gpu, device_alloc}
use nanoinfer.Cuda.Device.Laws.{Mirrors}
use nanoinfer.Cuda.Elementwise.{launch_on}

pub numel2 : (a b : ℕ) → a * b ≡ numel_from 1 (a ∷ b ∷ [])
unfolding numel_from
numel2 a b = omega arith

pub numel3 : (a b c : ℕ) → a * b * c ≡ numel_from 1 (a ∷ b ∷ c ∷ [])
unfolding numel_from
numel3 a b c = omega arith

module _ (fp : FloatOps) (g : Gpu fp.Float) (w : IsOrder g.order) where
  open fp use {Float, zero_f}

  -- Each thread writes the entry of its number: `f` of it, whatever the new buffer held.
  pub launch_on_fill :
      (shape : List ℕ) (n : ℕ) (f : ℕ → Float) (t : Tensor Float)
      → n ≡ numel_from 1 shape
      → 0 < n
      → n ≤ 2 ^ 32
      → t.shape ≡ shape
      → t.numel ≡ n
      → t.values ≡ tabulate n f
      → (d : DeviceTensor Float) × (launch_on fp g n
            (λ i o. if leb n i then o else set o i (f i))
            (device_alloc fp g 0 shape f32)
          ≡ ok d)
        × Mirrors d t
  unfolding device_alloc make_tensor
  launch_on_fill shape n f t e pos small same_shape same_numel entries = (
    record (device_alloc fp g 0 shape f32) { buffer = tabulate n f },
    rw (
        launch_fill zero_f n f g.order w pos small (tabulate (numel_from 1 shape) (g.stale 0))
          (length-tabulate _ (g.stale 0) ∙ sym e)),
    record {
      same_shape = sym same_shape;
      same_numel = sym (same_numel ∙ e);
      same_entries = sym entries;
    },
  )
