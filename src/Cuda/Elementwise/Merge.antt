-- ===== src/Cuda/Elementwise/Merge.antt =====
-- cpp/src/cuda/cuda_elementwise.cu against cpp/src/ops.cpp: merge_heads, whose threads scatter.
use native.Mathlib.Nat.{div-add-mod'}
use nanoinfer.Prelude.{
  ℕ, ◌+◌, ◌*◌, ◌/◌, ◌%◌, ◌^◌, ◌≤◌, ◌<◌, ◌≡◌, sym, ap, ap₂, subst, ◌∙◌, [], ◌∷◌, arith, get_or,
  length, ok,
}
use nanoinfer.Prelude.Tabulate.{length-tabulate, list_ext}
use nanoinfer.Prelude.Arith.{div-lt_of_lt_mul, row_inj, row_bound}
use nanoinfer.Floats.{FloatOps}
use nanoinfer.Tensor.{Tensor, f32, at3, make_tensor}
use nanoinfer.Tensor.Access.{Is3d, at2_row, offset3_row}
use nanoinfer.Ops.Heads as Cpu
use nanoinfer.Ops.Heads.Laws.{merge_heads-at2}
use nanoinfer.Cuda.Launch.{IsOrder}
use nanoinfer.Cuda.Launch.Writes.{launch-eq, after, after-length, after_at}
use nanoinfer.Cuda.Device.{DeviceTensor, Gpu, device_alloc}
use nanoinfer.Cuda.Device.Laws.{Mirrors}
use nanoinfer.Cuda.Elementwise.{load, merge_heads}
use nanoinfer.Cuda.Elementwise.Index.{
  index3, entry_plane, entry_row, entry_column, mod-lt_of_lt_mul,
}
use nanoinfer.Cuda.Elementwise.Fill.{numel2}

-- Entry `p` of the merged rows comes from entry `merge_from p` of the heads, which goes to
-- `merge_place`.
module _ (heads seq dim : ℕ) where
  abbrev merge_place : ℕ → ℕ
  merge_place idx =
      idx % (seq * dim) / dim * (heads * dim) + idx / (seq * dim) * dim + idx % (seq * dim) % dim

  merge_place-lt : (idx : ℕ) → idx < heads * seq * dim → merge_place idx < seq * (heads * dim)
  merge_place-lt idx h =
      let i = index3 heads seq dim idx h in
      omega
        (arith, row_bound (heads * dim) seq _ _ i.row (row_bound dim heads _ _ i.plane i.column))

  merge_place_inj :
      (i j : ℕ)
      → i < heads * seq * dim
      → j < heads * seq * dim
      → merge_place i ≡ merge_place j
      → i ≡ j
  merge_place_inj i j hi hj e =
      let a = index3 heads seq dim i hi in
      let b = index3 heads seq dim j hj in
      let (same_row, low) =
        row_inj (heads * dim) _ _ _ _ (row_bound dim heads _ _ a.plane a.column)
          (row_bound dim heads _ _ b.plane b.column) (omega (arith, e)) in
      let (same_plane, same_column) = row_inj dim _ _ _ _ a.column b.column low in
      sym a.whole
      ∙ ap₂ (λ p c. (p * seq + i % (seq * dim) / dim) * dim + c) same_plane same_column
      ∙ ap (λ r. (j / (seq * dim) * seq + r) * dim + j % (seq * dim) % dim) same_row
      ∙ b.whole

  merge_from : ℕ → ℕ
  merge_from p = (p % (heads * dim) / dim * seq + p / (heads * dim)) * dim + p % (heads * dim) % dim

  module _ (p : ℕ) (h : p < seq * (heads * dim)) where
    row-lt : p / (heads * dim) < seq
    row-lt = div-lt_of_lt_mul (heads * dim) p seq h

    low-lt : p % (heads * dim) < heads * dim
    low-lt = mod-lt_of_lt_mul seq (heads * dim) p h

    plane-lt : p % (heads * dim) / dim < heads
    plane-lt = div-lt_of_lt_mul dim _ heads low-lt

    column-lt : p % (heads * dim) % dim < dim
    column-lt = mod-lt_of_lt_mul heads dim _ low-lt

    merge_from-lt : merge_from p < heads * seq * dim
    unfolding merge_from
    merge_from-lt =
        row_bound dim (heads * seq) _ _ (row_bound seq heads _ _ plane-lt row-lt) column-lt

    merge_place-from : merge_place (merge_from p) ≡ p
    unfolding merge_from
    merge_place-from =
        rw
          (
            entry_plane seq dim _ _ _ row-lt column-lt,
            entry_row seq dim (p % (heads * dim) / dim) _ _ row-lt column-lt,
            entry_column seq dim (p % (heads * dim) / dim) _ _ row-lt column-lt,
          )
          (omega (arith, div-add-mod' (p % (heads * dim)) dim, div-add-mod' p (heads * dim)))

module _ (fp : FloatOps) (g : Gpu fp.Float) (w : IsOrder g.order) where
  open fp use {Float, zero_f}

  -- On a copy of a tensor with at least one entry and at most 2^32, merge_heads on the device gives
  -- a copy of what merge_heads on the host gives, in every order of threads and whatever the new
  -- buffer held.
  pub merge_heads-Mirrors :
      (x : Tensor Float) (dx : DeviceTensor Float) (heads seq dim : ℕ)
      → Is3d heads seq dim x
      → Mirrors dx x
      → 0 < heads * seq * dim
      → heads * seq * dim ≤ 2 ^ 32
      → (y : Tensor Float) × (dy : DeviceTensor Float) × (Cpu.merge_heads zero_f x ≡ ok y)
        × (merge_heads fp g dx ≡ ok dy)
        × Mirrors dy y
  unfolding merge_heads at3 device_alloc make_tensor merge_from
  merge_heads-Mirrors x dx heads seq dim v m pos small =
      let (y, merge, yv, yat) = merge_heads-at2 zero_f x heads seq dim v in
      let n = heads * seq * dim in
      let place = merge_place heads seq dim in
      let write : ℕ → Float → Float = λ i old. load fp dx.buffer i in
      let blank = (device_alloc fp g 0 (seq ∷ (heads * dim) ∷ []) f32) in
      let room : length blank.buffer ≡ seq * (heads * dim) =
        length-tabulate _ (g.stale 0) ∙ sym (numel2 seq (heads * dim)) in
      let done = after zero_f n place write g.order w blank.buffer pos small in
      let same : done ≡ y.values =
        list_ext done y.values zero_f
          (after-length zero_f n place write g.order w blank.buffer pos small
            ∙ room
            ∙ sym yv.stored)
          λ p h.
            let hp : p < seq * (heads * dim) =
              omega
                (arith, after-length zero_f n place write g.order w blank.buffer pos small, room) in
            let t = merge_from heads seq dim p in
            let e : place t ≡ p = merge_place-from heads seq dim p hp in
            let ht : t < n = merge_from-lt heads seq dim p hp in
            let low = p % (heads * dim) in
            subst (λ q. get_or done q zero_f ≡ get_or y.values p zero_f) e
              (after_at zero_f n place write g.order w blank.buffer pos small
                  (merge_place_inj heads seq dim) t ht (omega (arith, e, room))
                ∙ ap (λ vs. load fp vs t) m.same_entries
                ∙ ap (load fp x.values) (
                    sym (
                      offset3_row zero_f heads seq dim x v (low / dim) (p / (heads * dim))
                        (low % dim)))
                ∙ sym (
                    yat (low / dim) (p / (heads * dim)) (low % dim) (plane-lt heads seq dim p hp)
                      (row-lt heads seq dim p hp) (column-lt heads seq dim p hp))
                ∙ at2_row zero_f seq (heads * dim) y yv (p / (heads * dim))
                    (low / dim * dim + low % dim)
                ∙ ap (load fp y.values)
                    (omega (arith, div-add-mod' low dim, div-add-mod' p (heads * dim)))) in
      (
        y,
        record blank { buffer = done },
        merge,
        rw (m.same_shape, v.shape, launch-eq zero_f n place write g.order w blank.buffer pos small),
        record {
          same_shape = sym yv.shape;
          same_numel = sym (yv.numel ∙ numel2 seq (heads * dim));
          same_entries = same;
        },
      )
