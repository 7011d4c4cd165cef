-- ===== src/Quant/Q4.antt =====
-- cpp/src/quant.hpp and quant.cpp: four-bit weights with one scale for each row.
pub mod Laws
pub mod RoundTrip
pub mod Codes
use nanoinfer.Prelude.{
  ℕ, zero, suc, ℤ, pos, ◌+◌, ◌-◌, ◌*◌, ◌/◌, ◌%◌, List, [], ◌∷◌, Option, length, get_or, set,
  replicate, leb, ◌==◌, if◌then◌else◌, Result, ok, ◌>>=◌, ◌>>◌,
}
use nanoinfer.Prelude.Loops.{for_range}
use nanoinfer.Floats.{FloatOps}
use nanoinfer.Tensor.{Tensor, cpu, make_tensor, ndim, size, at2, set_at2}
use nanoinfer.Ops.Heads.{require}
use nanoinfer.Ops.Attention.{flat}
use nanoinfer.Ops.Linear.{bias_at, by_channel}
use nanoinfer.Quant.Nibbles.{q4_row_bytes, unshifted, pack_row, q4_code, row_at}
use nanoinfer.Quant.Rounding.{q4_max, round_clamp, abs_max, dot_qf32}
use nanoinfer.Quant.Q8.{code_at, scale_at, product_fits}

-- `width` is the field `in`.
pub record Q4Tensor (F : Type 0) : Type 0 where
  pub q : List ℕ
  pub scale : List F
  pub out : ℕ
  pub width : ℕ

-- `j + 2 <= n` rounds of `unpack_q4` from column `j`.
unfoldable pub unpack_pairs : (ℕ → ℕ) → ℕ → ℕ → List ℤ → List ℤ
unpack_pairs packed n j out =
    for_range n j
      (λ p out.
        let byte = packed p in
        set (set out (2 * p) (unshifted (byte % 16))) (2 * p + 1) (unshifted (byte / 16)))
      out

-- `simd::unpack_q4` of a build without AVX2 or NEON.
unfoldable pub unpack_q4 : (ℕ → ℕ) → List ℤ → ℕ → List ℤ
unfolding unpack_pairs
unpack_q4 packed out n =
    let pairs = unpack_pairs packed (n / 2) 0 out in
    if n % 2 == 1 then set pairs (n - 1) (unshifted (packed (n / 2) % 16)) else pairs

-- The codes of a row, unpacked to scratch.
abbrev pub scratch : (ℕ → ℕ) → ℕ → List ℤ
scratch row width = unpack_q4 row (replicate width (pos 0)) width

-- `kQ4UnpackMinRows`
abbrev pub unpack_min_rows : ℕ
unpack_min_rows = 8

module _ (fp : FloatOps) where
  open fp use {
    Float, Double, zero_f, zero_d, of_ℤ, of_ℤ_d, to_ℤ, div_f, mul_f, add_d, mul_d, widen, narrow,
  }

  unfoldable pub check_q4tensor : Q4Tensor Float → Result (Unit {0})
  check_q4tensor w =
      require (length w.q == w.out * q4_row_bytes w.width)
        (require (length w.scale == w.out) (ok tt))

  abbrev pub q4_scale : (ℕ → Float) → ℕ → Float
  q4_scale x width = div_f (abs_max fp x 0 width) (q4_max fp)

  -- The code of an entry.
  abbrev pub q4_of : Float → Float → ℤ
  q4_of x scale = to_ℤ (round_clamp fp x scale (q4_max fp))

  unfoldable pub quantize_q4 : Tensor Float → Result (Q4Tensor Float)
  unfolding ndim
  quantize_q4 w = require (ndim w == 2) (
      let out = size w 0 in
      let width = size w 1 in
      let row_bytes = q4_row_bytes width in
      ok (
        for_range out 0
          (λ o qt.
            let scale = q4_scale (at2 zero_f w o) width in
            record qt {
              q = pack_row (o * row_bytes) width (λ j. q4_of (at2 zero_f w o j) scale) qt.q;
              scale = set qt.scale o scale;
            })
          (record {
            q = replicate (out * row_bytes) 0;
            scale = replicate out zero_f;
            out = out;
            width = width;
          })))

  unfoldable pub dequantize_q4 : Q4Tensor Float → Result (Tensor Float)
  unfolding check_q4tensor
  dequantize_q4 w =
      check_q4tensor w
      >> ok (
          for_range w.out 0
            (λ o out.
              for_range w.width 0
                (λ j out. set_at2 out o j (
                  mul_f (of_ℤ (q4_code (row_at w.q (o * q4_row_bytes w.width)) j))
                    (scale_at fp w.scale o)))
                out)
            (make_tensor zero_f (w.out ∷ w.width ∷ []) cpu))

  -- `acc += double(xr[j]) * q4_code(row, j)` for the columns from `from` on.
  unfoldable pub dot_q4 : (ℕ → Float) → (ℕ → ℕ) → ℕ → ℕ → Double
  dot_q4 x row from n =
      for_range n from (λ j acc. add_d acc (mul_d (widen (x j)) (of_ℤ_d (q4_code row j)))) zero_d

  unfoldable pub linear_q4 :
      Tensor Float → Q4Tensor Float → Option (Tensor Float) → Result (Tensor Float)
  unfolding check_q4tensor dot_q4 unpack_q4 ndim
  linear_q4 x w bias =
      check_q4tensor w
      >> product_fits fp x w.width w.out bias
      >> ok (
          by_channel fp (size x 0) w.out (λ o i.
            let row = row_at w.q (o * q4_row_bytes w.width) in
            let xr : ℕ → Float = λ t. flat fp x (i * w.width + t) in
            let dot =
              if leb unpack_min_rows (size x 0)
              then dot_qf32 fp xr (code_at (scratch row w.width)) w.width
              else dot_q4 xr row 0 w.width in
            narrow (add_d (mul_d dot (widen (scale_at fp w.scale o))) (bias_at fp bias o))))
