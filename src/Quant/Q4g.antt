-- ===== src/Quant/Q4g.antt =====
-- cpp/src/quant.hpp and quant.cpp: four-bit weights with one scale for each group of columns.
pub mod Laws
pub mod OneGroup
use nanoinfer.Prelude.{
  ℕ, ℤ, ◌+◌, ◌-◌, ◌*◌, ◌/◌, min, Bool, not, ◌&&◌, List, [], ◌∷◌, Option, length, get_or, set,
  replicate, leb, ltb, ◌==◌, if◌then◌else◌, is_negative, Result, ok, ◌>>=◌, ◌>>◌,
}
use nanoinfer.Prelude.Loops.{for_range}
use nanoinfer.Floats.{FloatOps}
use nanoinfer.Tensor.{Tensor, cpu, make_tensor, ndim, size, at2, set_at2}
use nanoinfer.Ops.Heads.{require}
use nanoinfer.Ops.Attention.{flat}
use nanoinfer.Ops.Linear.{bias_at, by_channel}
use nanoinfer.Quant.Nibbles.{q4_row_bytes, pack_nibble, q4_code, row_at}
use nanoinfer.Quant.Rounding.{n_blocks, q4_max, abs_max, dot_qf32}
use nanoinfer.Quant.Q8.{code_at, scale_at, product_fits}
use nanoinfer.Quant.Q4.{q4_of, dot_q4, scratch, unpack_q4, unpack_min_rows}

-- `width` is the field `in`.
pub record Q4gTensor (F : Type 0) : Type 0 where
  pub q : List ℕ
  pub scale : List F
  pub out : ℕ
  pub width : ℕ
  pub group : ℕ

-- `std::min(j0 + group, in) - j0`
abbrev pub block_len : ℕ → ℕ → ℕ → ℕ
block_len width group b = min (b * group + group) width - b * group

-- `group > 0`
abbrev pub group_ok : ℕ → Bool
group_ok group = not (is_negative group) && ltb 0 group

module _ (fp : FloatOps) where
  open fp use {
    Float, Double, zero_f, zero_d, of_ℤ, of_ℤ_d, div_f, mul_f, add_d, mul_d, widen, narrow,
  }

  unfoldable pub check_q4gtensor : Q4gTensor Float → Result (Unit {0})
  check_q4gtensor w = require (group_ok w.group) (
      require (length w.q == w.out * q4_row_bytes w.width)
        (require (length w.scale == w.out * n_blocks w.width w.group) (ok tt)))

  -- The scale of a block of the row that `x` reads.
  abbrev pub block_scale : (ℕ → Float) → ℕ → ℕ → ℕ → Float
  block_scale x width group b =
      div_f (abs_max fp x (b * group) (block_len width group b)) (q4_max fp)

  unfoldable pub quantize_q4g : Tensor Float → ℕ → Result (Q4gTensor Float)
  unfolding ndim
  quantize_q4g w group = require (ndim w == 2) (
      require (group_ok group) (
        let out = size w 0 in
        let width = size w 1 in
        let row_bytes = q4_row_bytes width in
        let blocks = n_blocks width group in
        ok (
          for_range out 0
            (λ o qt.
              for_range blocks 0
                (λ b qt.
                  let scale = block_scale (at2 zero_f w o) width group b in
                  record qt {
                    q =
                        for_range (block_len width group b) (b * group)
                          (λ j q.
                            pack_nibble (o * row_bytes) q j (q4_of fp (at2 zero_f w o j) scale))
                          qt.q;
                    scale = set qt.scale (o * blocks + b) scale;
                  })
                qt)
            (record {
              q = replicate (out * row_bytes) 0;
              scale = replicate (out * blocks) zero_f;
              out = out;
              width = width;
              group = group;
            }))))

  unfoldable pub dequantize_q4g : Q4gTensor Float → Result (Tensor Float)
  unfolding check_q4gtensor
  dequantize_q4g w =
      check_q4gtensor w
      >> ok (
          for_range w.out 0
            (λ o out.
              for_range w.width 0
                (λ j out. set_at2 out o j (
                  mul_f (of_ℤ (q4_code (row_at w.q (o * q4_row_bytes w.width)) j))
                    (scale_at fp w.scale (o * n_blocks w.width w.group + j / w.group))))
                out)
            (make_tensor zero_f (w.out ∷ w.width ∷ []) cpu))

  -- The sum over the blocks of a row, each with its scale. `block(j0, n)` is the partial sum of a block.
  unfoldable pub sum_blocks : ℕ → ℕ → (ℕ → Float) → (ℕ → ℕ → Double) → Double
  sum_blocks width group scale block =
      for_range (n_blocks width group) 0
        (λ b acc. add_d acc (mul_d (block (b * group) (block_len width group b)) (widen (scale b))))
        zero_d

  unfoldable pub linear_q4g :
      Tensor Float → Q4gTensor Float → Option (Tensor Float) → Result (Tensor Float)
  unfolding check_q4gtensor sum_blocks ndim
  linear_q4g x w bias =
      check_q4gtensor w
      >> product_fits fp x w.width w.out bias
      >> ok (
          by_channel fp (size x 0) w.out (λ o i.
            let row = row_at w.q (o * q4_row_bytes w.width) in
            let xr : ℕ → Float = λ t. flat fp x (i * w.width + t) in
            let scale : ℕ → Float = λ b. scale_at fp w.scale (o * n_blocks w.width w.group + b) in
            narrow (
              add_d
                (sum_blocks w.width w.group scale (λ j0 n.
                  if leb unpack_min_rows (size x 0)
                  then dot_qf32 fp (λ t. xr (j0 + t)) (λ t. code_at (scratch row w.width) (j0 + t))
                      n
                  else dot_q4 fp xr row j0 n))
                (bias_at fp bias o))))
