-- ===== src/Quant/Q4g/OneGroup.antt =====
-- cpp/src/quant.cpp: groups as wide as a row.
use native.Mathlib.Nat.{div-add-mod, mod-lt}
use nanoinfer.Prelude.{
  ℕ, ◌+◌, ◌*◌, ◌-◌, ◌<◌, ◌≡◌, sym, ap, ap₂, ◌∙◌, min, true, ok, ◌>>=◌, replicate, set, arith, ◌^◌,
}
use nanoinfer.Prelude.Loops.{for_range, for_range-map}
use nanoinfer.Floats.{FloatOps}
use nanoinfer.Tensor.{Tensor, at2}
use nanoinfer.Tensor.Access.{Is2d}
use nanoinfer.Quant.Nibbles.{q4_row_bytes, pack_row, pack_nibble}
use nanoinfer.Quant.Rounding.{n_blocks, abs_max, q4_max}
use nanoinfer.Quant.Q4.{Q4Tensor, quantize_q4, q4_of, q4_scale}
use nanoinfer.Quant.Q4g.{Q4gTensor, block_scale, group_ok, block_len, quantize_q4g}

one_block : (width : ℕ) → 0 < width → n_blocks width width ≡ 1
unfolding n_blocks
one_block width h = grind (arith, div-add-mod, mod-lt)

module _ (fp : FloatOps) where
  open fp use {Float, zero_f, div_f}

  -- A per-row weight as one with a group for each row.
  abbrev pub as_grouped : Q4Tensor Float → Q4gTensor Float
  as_grouped t = record { q = t.q; scale = t.scale; out = t.out; width = t.width; group = t.width }

  module _ (out width : ℕ) (w : Tensor Float) where
    unfoldable fill_block : ℕ → ℕ → Q4gTensor Float → Q4gTensor Float
    unfolding pack_nibble
    fill_block o b qt =
        let scale = block_scale fp (at2 zero_f w o) width width b in
        record qt {
          q =
              for_range (block_len width width b) (b * width)
                (λ j q.
                  pack_nibble (o * q4_row_bytes width) q j (q4_of fp (at2 zero_f w o j) scale))
                qt.q;
          scale = set qt.scale (o * n_blocks width width + b) scale;
        }

    unfoldable fill_row : ℕ → Q4Tensor Float → Q4Tensor Float
    unfolding pack_row
    fill_row o qt =
        let scale = q4_scale fp (at2 zero_f w o) width in
        record qt {
          q = pack_row (o * q4_row_bytes width) width (λ j. q4_of fp (at2 zero_f w o j) scale) qt.q;
          scale = set qt.scale o scale;
        }

    first_scale : (x : ℕ → Float) → block_scale fp x width width 0 ≡ q4_scale fp x width
    first_scale x =
        let len : block_len width width 0 ≡ width = ground arith in
        ap₂ (λ from n. div_f (abs_max fp x from n) (q4_max fp)) (omega arith) len

    same_row :
        0 < width
        → (o : ℕ) (qt : Q4Tensor Float)
        → as_grouped (fill_row o qt)
          ≡ for_range (n_blocks width width) 0 (fill_block o) (as_grouped qt)
    unfolding fill_row fill_block for_range pack_row
    same_row pos o qt =
        let base : 0 * width ≡ 0 = omega arith in
        let len : min (0 + width) width - 0 ≡ width = ground arith in
        let place : o * 1 + 0 ≡ o = omega arith in
        simp (one_block width pos, base, len, place)
          (ap
            (λ scale. record (as_grouped qt) {
              q =
                  pack_row (o * q4_row_bytes width) width (λ j. q4_of fp (at2 zero_f w o j) scale)
                    qt.q;
              scale = set qt.scale o scale;
            })
            (sym (first_scale (at2 zero_f w o))))

    -- Quantizing in groups as wide as a row is quantizing by rows.
    pub quantize_q4g-eq-quantize_q4 :
        Is2d out width w
        → 0 < width
        → width < 2 ^ 63
        → quantize_q4g fp w width ≡ (quantize_q4 fp w >>= λ t. ok (as_grouped t))
    unfolding quantize_q4g quantize_q4 fill_row fill_block
    quantize_q4g-eq-quantize_q4 ww pos small =
        let good : group_ok width ≡ true = ground arith in
        simp (ww.shape, good)
          (ap ok (
            sym (
              for_range-map as_grouped fill_row
                (λ o. for_range (n_blocks width width) 0 (fill_block o)) out 0
                (record {
                  q = replicate (out * q4_row_bytes width) 0;
                  scale = replicate out zero_f;
                  out = out;
                  width = width;
                })
                (λ o qt _ _. same_row pos o qt)
              ∙ ap
                  (λ n.
                    for_range out 0 (λ o. for_range (n_blocks width width) 0 (fill_block o))
                      (record {
                        q = replicate (out * q4_row_bytes width) 0;
                        scale = replicate n zero_f;
                        out = out;
                        width = width;
                        group = width;
                      }))
                  (rw (one_block width pos) (omega arith)))))
