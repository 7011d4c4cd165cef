-- ===== src/Quant/Q4/Codes.antt =====
-- cpp/src/quant.cpp: the codes that round_clamp gives fit four bits.
use nanoinfer.Prelude.{◌≡◌, refl, inl, inr, Bool, Bool-cases, true, false, ◌||◌, if◌then◌else◌}
use nanoinfer.Floats.{FloatOps}
use nanoinfer.Quant.Nibbles.Bits.{IsCode}
use nanoinfer.Quant.Rounding.{q4_max, round_clamp}
use nanoinfer.Quant.Q4.{q4_of}

-- What the code relies on of comparisons and casts: 0 lies between -7 and 7 and is a number, no float is
-- greater than itself, -7 is not greater than 7, and a number between -7 and 7 is cast to one of the
-- integers from -7 to 7.
pub record IsComparison (fp : FloatOps) : Type 0 where
  pub irreflexive : (x : fp.Float) → fp.gt_f x x ≡ false
  pub ordered : fp.gt_f (fp.neg_f (q4_max fp)) (q4_max fp) ≡ false
  pub zero_low : fp.gt_f (fp.neg_f (q4_max fp)) fp.zero_f ≡ false
  pub zero_high : fp.gt_f fp.zero_f (q4_max fp) ≡ false
  pub zero_number : fp.is_nan fp.zero_f ≡ false
  pub cast :
      (r : fp.Float)
      → fp.gt_f (fp.neg_f (q4_max fp)) r ≡ false
      → fp.gt_f r (q4_max fp) ≡ false
      → fp.is_nan r ≡ false
      → IsCode (fp.to_ℤ r)

module _ (fp : FloatOps) (laws : IsComparison fp) where
  open fp use {Float, zero_f, neg_f, round_f, is_nan, div_f, gt_f, eq_f, to_ℤ}

  -- A float that the cast takes to a code.
  record IsBetween (r : Float) : Type 0 where
    low : gt_f (neg_f (q4_max fp)) r ≡ false
    high : gt_f r (q4_max fp) ≡ false

  zero-IsCode : IsCode (to_ℤ zero_f)
  zero-IsCode = laws.cast zero_f laws.zero_low laws.zero_high laws.zero_number

  -- The two comparisons of the clamp.
  abbrev top_of : Float → Float
  top_of r = if gt_f r (q4_max fp) then q4_max fp else r

  abbrev bottom_of : Float → Float
  bottom_of r = if gt_f (neg_f (q4_max fp)) r then neg_f (q4_max fp) else r

  top-high : (r : Float) → gt_f (top_of r) (q4_max fp) ≡ false
  top-high r = elim (Bool-cases (gt_f r (q4_max fp))) [
    | inl above ↦ rw above (laws.irreflexive (q4_max fp))
    | inr within ↦ rw (within, within) refl
  ]

  bottom-IsBetween : (r : Float) → gt_f r (q4_max fp) ≡ false → IsBetween (bottom_of r)
  bottom-IsBetween r h = elim (Bool-cases (gt_f (neg_f (q4_max fp)) r)) [
    | inl below ↦ rw below (record { low = laws.irreflexive _; high = laws.ordered })
    | inr within ↦ rw within (record { low = within; high = h })
  ]

  number_or_zero-IsCode : (r : Float) → IsBetween r → IsCode (to_ℤ (if is_nan r then zero_f else r))
  number_or_zero-IsCode r v = elim (Bool-cases (is_nan r)) [
    | inl nan ↦ rw nan zero-IsCode
    | inr number ↦ rw number (laws.cast r v.low v.high number)
  ]

  zero_or-IsCode :
      (b : Bool) (r : Float) → IsCode (to_ℤ r) → IsCode (to_ℤ (if b then zero_f else r))
  zero_or-IsCode true r h = zero-IsCode
  zero_or-IsCode false r h = h

  -- `round_clamp` with the bound 7 gives a float that is cast to a code.
  pub q4_of-IsCode : (x scale : Float) → IsCode (q4_of fp x scale)
  unfolding round_clamp
  q4_of-IsCode x scale =
      let r = round_f (div_f x scale) in
      zero_or-IsCode (gt_f zero_f scale || eq_f scale zero_f) _
        (number_or_zero-IsCode (bottom_of (top_of r)) (bottom-IsBetween (top_of r) (top-high r)))
