-- ===== src/Backend/Rows.antt =====
-- cpp/src/backend.cpp: rows that the CPU moves between tensors. Rows outside a tensor are not defined in C++.
use nanoinfer.Prelude.{ℕ, ◌+◌, ◌*◌, List, [], ◌∷◌, length, get_or, Result, ok, throw, runtime_error}
use nanoinfer.Prelude.Loops.{for_range}
use nanoinfer.Floats.{FloatOps}
use nanoinfer.Tensor.{Tensor, cpu, cuda, metal, make_tensor, size, at2, set_at2, set_at3}
use nanoinfer.Ops.Attention.{flat, set_flat}

module _ (fp : FloatOps) where
  open fp use {Float, zero_f, add_f, mul_f}

  unfoldable pub extract_row : Tensor Float → ℕ → ℕ → ℕ → Tensor Float
  extract_row x s heads dim =
      for_range heads 0
        (λ h out. for_range dim 0 (λ d out. set_at3 out h 0 d (at2 zero_f x s (h * dim + d))) out)
        (make_tensor zero_f (heads ∷ 1 ∷ dim ∷ []) cpu)

  unfoldable pub place_row : Tensor Float → ℕ → Tensor Float → Tensor Float
  place_row dst s row = for_range (size dst 1) 0 (λ c dst. set_at2 dst s c (at2 zero_f row 0 c)) dst

  -- `std::memcpy` of `n` floats.
  unfoldable pub copy_floats : Tensor Float → ℕ → Tensor Float → ℕ → ℕ → Tensor Float
  copy_floats dst to src from n =
      for_range n 0 (λ i dst. set_flat fp dst (to + i) (flat fp src (from + i))) dst

  unfoldable pub extract_rows : Tensor Float → ℕ → ℕ → Tensor Float
  unfolding copy_floats
  extract_rows x row_start count =
      let width = size x 1 in
      copy_floats (make_tensor zero_f (count ∷ width ∷ []) cpu) 0 x (row_start * width)
        (count * width)

  unfoldable pub place_rows : Tensor Float → ℕ → Tensor Float → Tensor Float
  unfolding copy_floats
  place_rows dst row_start block =
      let width = size dst 1 in copy_floats dst (row_start * width) block 0 (size block 0 * width)

  unfoldable pub to_host_copy : Tensor Float → Result (Tensor Float)
  to_host_copy x = elim x.device [
    | cpu ↦ ok x
    | cuda ↦ throw runtime_error
    | metal ↦ throw runtime_error
  ]

  -- The constructor already fills with zeros.
  unfoldable pub zeros : List ℕ → Tensor Float
  zeros shape =
      let t = make_tensor zero_f shape cpu in for_range t.numel 0 (λ i t. set_flat fp t i zero_f) t

  unfoldable pub gather_rows : Tensor Float → List ℕ → Tensor Float
  unfolding copy_floats
  gather_rows x rows =
      let width = size x 1 in
      let n = length rows in
      for_range n 0 (λ j out. copy_floats out (j * width) x (get_or rows j 0 * width) width)
        (make_tensor zero_f (n ∷ width ∷ []) cpu)

  unfoldable pub scatter_add_rows : Tensor Float → List ℕ → List Float → Tensor Float → Tensor Float
  scatter_add_rows dst rows scale src =
      let width = size dst 1 in
      for_range (length rows) 0
        (λ j dst.
          let d = get_or rows j 0 * width in
          let g = get_or scale j zero_f in
          for_range width 0
            (λ c dst.
              set_flat fp dst (d + c)
                (add_f (flat fp dst (d + c)) (mul_f g (flat fp src (j * width + c)))))
            dst)
        dst
