-- ===== src/Quant/Q4/RoundTrip.antt =====
-- cpp/src/quant.cpp: what quantize_q4 stores, and what dequantize_q4 makes of it.
use nanoinfer.Prelude.{
  ℕ, ◌+◌, ◌*◌, ◌/◌, ◌<◌, ◌≤◌, ◌≡◌, refl, sym, ap, ap₂, ◌∙◌, inl, inr, subst, ℕ_discrete, ok, ◌>>=◌,
  ==_refl, length, length-set, length-replicate, get_or, get_or-replicate, set, replicate,
  get_or-set_self, get_or-set_ne, arith,
}
use nanoinfer.Prelude.Loops.{for_range, for_range-count}
use nanoinfer.Prelude.Arith.{row_bound, row_end, half_lt}
use nanoinfer.Floats.{FloatOps}
use nanoinfer.Tensor.{Tensor, at2}
use nanoinfer.Tensor.Access.{Is2d, make_tensor-Is2d}
use nanoinfer.Tensor.Fill.{fill2-Is2d, at2-fill2}
use nanoinfer.Quant.Nibbles.{q4_code, q4_row_bytes, row_at, pack_row}
use nanoinfer.Quant.Nibbles.Bits.{IsCode}
use nanoinfer.Quant.Nibbles.Packing.{q4_code-pack_row}
use nanoinfer.Quant.Q8.{scale_at}
use nanoinfer.Quant.Q4.Codes.{IsComparison, q4_of-IsCode}
use nanoinfer.Quant.Q4.{Q4Tensor, check_q4tensor, quantize_q4, dequantize_q4, q4_scale, q4_of}

-- Only one byte of the row is read.
q4_code-cong : (a b : ℕ → ℕ) (j : ℕ) → a (j / 2) ≡ b (j / 2) → q4_code a j ≡ q4_code b j
unfolding q4_code
q4_code-cong a b j e = rw e refl

module _ (fp : FloatOps) where
  open fp use {Float, zero_f, of_ℤ, mul_f}

  module _ (out width : ℕ) (w : Tensor Float) where
    abbrev bytes : ℕ
    bytes = q4_row_bytes width

    inside : (j : ℕ) → j < width → j / 2 < bytes
    unfolding q4_row_bytes
    inside j h = half_lt width j h

    -- The first `i` rows are quantized.
    record Quantized (i : ℕ) (qt : Q4Tensor Float) : Type 0 where
      rows : qt.out ≡ out
      columns : qt.width ≡ width
      stored : length qt.q ≡ out * bytes
      scales : length qt.scale ≡ out
      scale_done : (o : ℕ) → o < i → scale_at fp qt.scale o ≡ q4_scale fp (at2 zero_f w o) width
      code_done :
          (o j : ℕ)
          → o < i
          → j < width
          → q4_code (row_at qt.q (o * bytes)) j
            ≡ q4_of fp (at2 zero_f w o j) (q4_scale fp (at2 zero_f w o) width)
      blank : (k : ℕ) → i * bytes ≤ k → get_or qt.q k 0 ≡ 0

    abbrev start : Q4Tensor Float
    start = record {
      q = replicate (out * bytes) 0;
      scale = replicate out zero_f;
      out = out;
      width = width;
    }

    abbrev round : ℕ → Q4Tensor Float → Q4Tensor Float
    round o qt =
        let scale = q4_scale fp (at2 zero_f w o) width in
        record qt {
          q = pack_row (o * bytes) width (λ j. q4_of fp (at2 zero_f w o j) scale) qt.q;
          scale = set qt.scale o scale;
        }

    start-Quantized : Quantized 0 start
    start-Quantized = record {
      rows = refl;
      columns = refl;
      stored = length-replicate _ 0;
      scales = length-replicate _ zero_f;
      scale_done = λ o h. absurd (omega arith);
      code_done = λ o j h. absurd (omega arith);
      blank = λ k h. get_or-replicate (out * bytes) k 0;
    }

    sound-Quantized : (qt : Q4Tensor Float) → Quantized out qt → check_q4tensor fp qt ≡ ok tt
    unfolding check_q4tensor
    sound-Quantized qt v = simp (v.stored, v.scales, v.rows, v.columns, ==_refl) refl

    module _ (codes : (x scale : Float) → IsCode (q4_of fp x scale)) where
      round-Quantized :
          (o : ℕ) (qt : Q4Tensor Float) → o < out → Quantized o qt → Quantized (o + 1) (round o qt)
      round-Quantized o qt h v =
          let packed =
            q4_code-pack_row (o * bytes) width
              (λ j. q4_of fp (at2 zero_f w o j) (q4_scale fp (at2 zero_f w o) width)) qt.q
              (λ j hj. codes _ _)
              (subst (λ n. o * bytes + bytes ≤ n) (sym v.stored) (row_end bytes out o h))
              (λ m hm. v.blank (o * bytes + m) (omega arith)) in
          record {
            rows = v.rows;
            columns = v.columns;
            stored = packed.0 ∙ v.stored;
            scales = length-set qt.scale o _ ∙ v.scales;
            scale_done = λ o' h'. elim (ℕ_discrete o o') [
              | yes e ↦
                  subst (λ n. scale_at fp (round o qt).scale n ≡ q4_scale fp (at2 zero_f w n) width)
                    e (get_or-set_self qt.scale o _ zero_f (omega (arith, v.scales)))
              | no ne ↦ get_or-set_ne qt.scale o o' _ zero_f ne ∙ v.scale_done o' (omega arith)
            ];
            code_done = λ o' j h' hj. elim (ℕ_discrete o o') [
              | yes e ↦
                  subst
                    (λ n.
                      q4_code (row_at (round o qt).q (n * bytes)) j
                      ≡ q4_of fp (at2 zero_f w n j) (q4_scale fp (at2 zero_f w n) width))
                    e (packed.1 j hj)
              | no ne ↦
                  q4_code-cong _ _ j (
                    packed.2 (o' * bytes + j / 2)
                      (inl (row_bound bytes o o' (j / 2) (omega arith) (inside j hj))))
                  ∙ v.code_done o' j (omega arith) hj
            ];
            blank = λ k le.
                let far : o * bytes + bytes ≤ k = grind arith in
                packed.2 k (inr far) ∙ v.blank k (omega arith);
          }

      quantize_q4-Quantized :
          Is2d out width w → (qt : Q4Tensor Float) × (quantize_q4 fp w ≡ ok qt) × Quantized out qt
      unfolding quantize_q4
      quantize_q4-Quantized ww = (
        for_range out 0 round start,
        rw ww.shape refl,
        subst (λ n. Quantized n (for_range out 0 round start)) (omega arith)
            (for_range-count Quantized round out 0 start
              (λ o qt _ hi. round-Quantized o qt (omega arith)) start-Quantized),
      )

  -- `dequantize_q4` of a sound weight: each code times the scale of its row.
  pub dequantize_q4-at2 :
      (qt : Q4Tensor Float)
      → check_q4tensor fp qt ≡ ok tt
      → (y : Tensor Float) × (dequantize_q4 fp qt ≡ ok y)
        × Is2d qt.out qt.width y
        × ((o j : ℕ)
            → o < qt.out
            → j < qt.width
            → at2 zero_f y o j
              ≡ mul_f
                  (of_ℤ (q4_code (row_at qt.q (o * q4_row_bytes qt.width)) j))
                  (scale_at fp qt.scale o))
  unfolding dequantize_q4
  dequantize_q4-at2 qt sound =
      let v = make_tensor-Is2d zero_f qt.out qt.width in
      let entry : ℕ → ℕ → Float = λ o j.
        mul_f (of_ℤ (q4_code (row_at qt.q (o * q4_row_bytes qt.width)) j))
          (scale_at fp qt.scale o) in
      (
        _,
        simp sound refl,
        fill2-Is2d zero_f qt.out qt.width entry _ v,
        λ o j ho hj. at2-fill2 zero_f qt.out qt.width entry _ o j v ho hj,
      )

  -- A matrix that is quantized to four bits and read back is, entry by entry, the code of the entry times
  -- the scale of its row, if comparison orders -7, 0 and 7 and no float is greater than itself, 0 is a
  -- number, and a number that is not below -7 and not above 7 is cast to one of the integers from -7 to 7.
  pub dequantize-quantize_q4 :
      (out width : ℕ) (w : Tensor Float)
      → IsComparison fp
      → Is2d out width w
      → (y : Tensor Float) × ((quantize_q4 fp w >>= dequantize_q4 fp) ≡ ok y)
        × Is2d out width y
        × ((o j : ℕ)
            → o < out
            → j < width
            → at2 zero_f y o j
              ≡ mul_f
                  (of_ℤ (q4_of fp (at2 zero_f w o j) (q4_scale fp (at2 zero_f w o) width)))
                  (q4_scale fp (at2 zero_f w o) width))
  dequantize-quantize_q4 out width w laws ww =
      let (qt, e, v) = quantize_q4-Quantized out width w (q4_of-IsCode fp laws) ww in
      let sound : check_q4tensor fp qt ≡ ok tt = sound-Quantized out width w qt v in
      let (y, made, shape, entry) = dequantize_q4-at2 qt sound in
      (
        y,
        ap (λ r. r >>= dequantize_q4 fp) e ∙ made,
        rw (sym v.rows, sym v.columns) shape,
        λ o j ho hj.
            entry o j (omega (arith, v.rows)) (omega (arith, v.columns))
            ∙ rw v.columns
                (ap₂ (λ c s. mul_f (of_ℤ c) s) (v.code_done o j ho hj) (v.scale_done o ho)),
      )
