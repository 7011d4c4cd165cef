-- ===== src/Ops/Rope/Laws.antt =====
-- cpp/src/ops.cpp: what apply_rope returns.
use nanoinfer.Prelude.{ℕ, ◌+◌, ◌/◌, ◌≤◌, ◌<◌, ◌≡◌, [], ◌∷◌, ==_refl, le→leb, ok}
use nanoinfer.Prelude.Loops.{for3}
use nanoinfer.Floats.{FloatOps}
use nanoinfer.Tensor.{Tensor, cpu, make_tensor, at2, at3, set_at3}
use nanoinfer.Tensor.Access.{Is2d, Is3d, make_tensor-Is3d, at3-for3_fill, for3_fill-Is3d}
use nanoinfer.Ops.Rope.{rotated, apply_rope}

module _ (fp : FloatOps) where
  open fp use {Float, zero_f, add_f, mul_f}

  -- The entry of the rotated tensor.
  abbrev pub turned : Tensor Float → Tensor Float → Tensor Float → ℕ → ℕ → ℕ → ℕ → ℕ → Float
  turned x cos sin dim pos_offset h p d =
      add_f (mul_f (at3 zero_f x h p d) (at2 zero_f cos (pos_offset + p) d))
        (mul_f (rotated fp x (dim / 2) h p d) (at2 zero_f sin (pos_offset + p) d))

  -- With tables that reach the last position, every entry is turned with its partner in the other half by the
  -- angle of its position.
  pub apply_rope-at3 :
      (x cos sin : Tensor Float) (heads seq dim m pos_offset : ℕ)
      → Is3d heads seq dim x
      → Is2d m dim cos
      → Is2d m dim sin
      → pos_offset + seq ≤ m
      → (y : Tensor Float) × (apply_rope fp x cos sin pos_offset ≡ ok y)
        × Is3d heads seq dim y
        × ((h p d : ℕ)
            → h < heads
            → p < seq
            → d < dim
            → at3 zero_f y h p d ≡ turned x cos sin dim pos_offset h p d)
  unfolding apply_rope
  apply_rope-at3 x cos sin heads seq dim m pos_offset v vc vs room =
      let f = turned x cos sin dim pos_offset in
      let blank = make_tensor zero_f (heads ∷ seq ∷ dim ∷ []) cpu in
      (
        for3 heads seq dim (λ h p d out. set_at3 out h p d (f h p d)) blank,
        rw (v.shape, vc.shape, vs.shape, ==_refl dim, le→leb (pos_offset + seq) m room),
        for3_fill-Is3d zero_f heads seq dim f blank (make_tensor-Is3d zero_f heads seq dim),
        λ h p d hh hp hd.
            at3-for3_fill zero_f heads seq dim f blank h p d (make_tensor-Is3d zero_f heads seq dim)
              hh hp hd,
      )
