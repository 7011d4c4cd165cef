-- ===== src/Quant/Q8.antt =====
-- cpp/src/quant.hpp and quant.cpp: eight-bit weights with one scale for each row.
pub mod Laws
use nanoinfer.Prelude.{
  ℕ, ℤ, pos, negsuc, ◌+◌, ◌-◌, ◌*◌, ◌&&◌, List, [], ◌∷◌, Option, length, get_or, set, replicate,
  ltb, leb, ◌==◌, if◌then◌else◌, Result, ok, ◌>>=◌, ◌>>◌,
}
use nanoinfer.Prelude.Loops.{for_range}
use nanoinfer.Floats.{FloatOps}
use nanoinfer.Tensor.{Tensor, cpu, make_tensor, ndim, size, at2, set_at2}
use nanoinfer.Ops.Heads.{require}
use nanoinfer.Ops.Attention.{flat, set_flat}
use nanoinfer.Ops.Embedding.{in_vocab}
use nanoinfer.Ops.Linear.{bias_fits, bias_at, by_channel}
use nanoinfer.Quant.Rounding.{q8_max, round_clamp, abs_max, dot_qf32}

-- `width` is the field `in`.
pub record QTensor (F : Type 0) : Type 0 where
  pub q : List ℤ
  pub scale : List F
  pub out : ℕ
  pub width : ℕ

-- The sum of two `int32_t` and the product of two codes, where they fit.
abbrev pub add_ℤ : ℤ → ℤ → ℤ
add_ℤ (pos a) (pos b) = pos (a + b)
add_ℤ (pos a) (negsuc b) = if ltb b a then pos (a - b - 1) else negsuc (b - a)
add_ℤ (negsuc a) (pos b) = if ltb a b then pos (b - a - 1) else negsuc (a - b)
add_ℤ (negsuc a) (negsuc b) = negsuc (a + b + 1)

-- -n
abbrev pub minus : ℕ → ℤ
minus n = if n == 0 then pos 0 else negsuc (n - 1)

abbrev pub mul_ℤ : ℤ → ℤ → ℤ
mul_ℤ (pos a) (pos b) = pos (a * b)
mul_ℤ (pos a) (negsuc b) = minus (a * (b + 1))
mul_ℤ (negsuc a) (pos b) = minus ((a + 1) * b)
mul_ℤ (negsuc a) (negsuc b) = pos ((a + 1) * (b + 1))

-- `simd::dot_qq`, where the sum fits an `int32_t`.
unfoldable pub dot_qq : (ℕ → ℤ) → (ℕ → ℤ) → ℕ → ℤ
dot_qq a b n = for_range n 0 (λ i total. add_ℤ total (mul_ℤ (a i) (b i))) (pos 0)

-- `w.q[i]`
abbrev pub code_at : List ℤ → ℕ → ℤ
code_at q i = get_or q i (pos 0)

module _ (fp : FloatOps) where
  open fp use {Float, Double, zero_f, of_ℤ, of_ℤ_d, to_ℤ, div_f, mul_f, add_d, mul_d, widen, narrow}

  unfoldable pub check_qtensor : QTensor Float → Result (Unit {0})
  check_qtensor w =
      require (length w.q == w.out * w.width) (require (length w.scale == w.out) (ok tt))

  -- The scale of the row that `x` reads.
  abbrev pub q8_scale : (ℕ → Float) → ℕ → Float
  q8_scale x width = div_f (abs_max fp x 0 width) (q8_max fp)

  -- A row of codes at `base`.
  unfoldable pub q8_row : ℕ → (ℕ → Float) → Float → ℕ → List ℤ → List ℤ
  q8_row base x scale width q =
      for_range width 0 (λ j q. set q (base + j) (to_ℤ (round_clamp fp (x j) scale (q8_max fp)))) q

  unfoldable pub quantize_q8 : Tensor Float → Result (QTensor Float)
  unfolding ndim q8_row
  quantize_q8 w = require (ndim w == 2) (
      let out = size w 0 in
      let width = size w 1 in
      ok (
        for_range out 0
          (λ o qt.
            let scale = q8_scale (at2 zero_f w o) width in
            record qt {
              q = q8_row (o * width) (at2 zero_f w o) scale width qt.q;
              scale = set qt.scale o scale;
            })
          (record {
            q = replicate (out * width) (pos 0);
            scale = replicate out zero_f;
            out = out;
            width = width;
          })))

  -- `w.scale[o]`
  abbrev pub scale_at : List Float → ℕ → Float
  scale_at scale o = get_or scale o zero_f

  unfoldable pub dequantize_q8 : QTensor Float → Result (Tensor Float)
  unfolding check_qtensor
  dequantize_q8 w =
      check_qtensor w
      >> ok (
          for_range w.out 0
            (λ o out.
              for_range w.width 0
                (λ j out.
                  set_at2 out o j
                    (mul_f (of_ℤ (code_at w.q (o * w.width + j))) (scale_at w.scale o)))
                out)
            (make_tensor zero_f (w.out ∷ w.width ∷ []) cpu))

  unfoldable pub embed_rows_q8 : QTensor Float → List ℕ → ℕ → Tensor Float → Result (Tensor Float)
  embed_rows_q8 table [] r out = ok out
  embed_rows_q8 table (id ∷ ids) r out =
      let hidden = table.width in
      let rest = embed_rows_q8 table ids (r + 1) (
        for_range hidden 0
          (λ c o.
            set_flat fp o (r * hidden + c)
              (mul_f (of_ℤ (code_at table.q (id * hidden + c))) (scale_at table.scale id)))
          out) in
      require (in_vocab table.out id) rest

  unfoldable pub embedding_q8 : QTensor Float → List ℕ → Result (Tensor Float)
  unfolding check_qtensor embed_rows_q8
  embedding_q8 table ids =
      check_qtensor table
      >> embed_rows_q8 table ids 0 (make_tensor zero_f (length ids ∷ table.width ∷ []) cpu)

  -- The checks that the products share, after that of the weight.
  abbrev pub product_fits : Tensor Float → ℕ → ℕ → Option (Tensor Float) → Result (Unit {0})
  product_fits x width out bias =
      require (ndim x == 2) (require (size x 1 == width) (require (bias_fits fp bias out) (ok tt)))

  unfoldable pub linear_q8 :
      Tensor Float → QTensor Float → Option (Tensor Float) → Result (Tensor Float)
  unfolding check_qtensor ndim
  linear_q8 x w bias =
      check_qtensor w
      >> product_fits x w.width w.out bias
      >> ok (
          by_channel fp (size x 0) w.out (λ o i. narrow (
            add_d
              (mul_d
                (dot_qf32 fp (λ t. flat fp x (i * w.width + t)) (λ t. code_at w.q (o * w.width + t))
                  w.width)
                (widen (scale_at w.scale o)))
              (bias_at fp bias o))))

  -- The rows of `x` as codes, and their scales.
  unfoldable pub quantize_rows : Tensor Float → ℕ → ℕ → List ℤ × List Float
  unfolding q8_row
  quantize_rows x m width =
      for_range {S = List ℤ × List Float} m 0
        (λ i st.
          let row : ℕ → Float = λ j. flat fp x (i * width + j) in
          let scale = q8_scale row width in
          (q8_row (i * width) row scale width (st.0), set (st.1) i scale))
        (replicate (m * width) (pos 0), replicate m zero_f)

  unfoldable pub linear_w8a8 :
      Tensor Float → QTensor Float → Option (Tensor Float) → Result (Tensor Float)
  unfolding check_qtensor quantize_rows dot_qq ndim
  linear_w8a8 x w bias =
      check_qtensor w
      >> product_fits x w.width w.out bias
      >> (let (xq, a_scale) = quantize_rows x (size x 0) w.width in
          ok (
            by_channel fp (size x 0) w.out (λ o i. narrow (
              add_d
                (mul_d
                  (mul_d
                    (of_ℤ_d (
                      dot_qq (λ t. code_at xq (i * w.width + t))
                        (λ t. code_at w.q (o * w.width + t)) w.width))
                    (widen (scale_at a_scale i)))
                  (widen (scale_at w.scale o)))
                (bias_at fp bias o)))))
