-- ===== src/Quant/Tests.antt =====
-- Small quantized weights, and the witnesses of the theorems on them.
use nanoinfer.Prelude.{ℕ, pos, ◌+◌, ◌*◌, ◌<◌, ◌≡◌, refl, [], ◌∷◌, none, arith, ok, ◌>>=◌, replicate}
use nanoinfer.Tensor.{Tensor, at2}
use nanoinfer.Tensor.Access.{Is2d}
use nanoinfer.Tensor.Tests.{grid}
use nanoinfer.Ops.Attention.{flat}
use nanoinfer.Ops.Embedding.{embedding}
use nanoinfer.Ops.Linear.{bias_at}
use nanoinfer.Ops.Tests.{numbers}
use nanoinfer.Quant.Nibbles.{q4_row_bytes, row_at}
use nanoinfer.Quant.Rounding.{n_blocks}
use nanoinfer.Quant.Q8.{QTensor, scale_at, dequantize_q8, embedding_q8}
use nanoinfer.Quant.Q8.Laws.{embedding_q8-eq-embedding}
use nanoinfer.Quant.Q4.{
  Q4Tensor, check_q4tensor, quantize_q4, dequantize_q4, linear_q4, dot_q4, q4_of, q4_scale,
}
use nanoinfer.Quant.Q4.Laws.{linear_q4-at2}
use nanoinfer.Quant.Q4.Codes.{IsComparison}
use nanoinfer.Quant.Q4.RoundTrip.{dequantize-quantize_q4}
use nanoinfer.Quant.Q4g.{Q4gTensor, check_q4gtensor, quantize_q4g, linear_q4g, sum_blocks}
use nanoinfer.Quant.Q4g.Laws.{linear_q4g-at2}
use nanoinfer.Quant.Q4g.OneGroup.{as_grouped, quantize_q4g-eq-quantize_q4}

-- Eight rows of three columns, enough for the codes to be unpacked.
abbrev eight_rows : Tensor ℕ
eight_rows = grid 8 3 (replicate 24 2)

eight_rows-Is2d : Is2d 8 3 eight_rows
unfolding replicate
eight_rows-Is2d = record { shape = refl; strides = refl; numel = refl; stored = refl }

-- The codes 3, 1 and 7 with a scale of 2.
abbrev one_row : Q4Tensor ℕ
one_row = record { q = 155 ∷ 15 ∷ []; scale = 2 ∷ []; out = 1; width = 3 }

one_row_sound : check_q4tensor numbers one_row ≡ ok tt
unfolding check_q4tensor q4_row_bytes
one_row_sound = refl

linear_q4-at2_example :
    (y : Tensor ℕ) × (linear_q4 numbers eight_rows one_row none ≡ ok y)
    × Is2d 8 1 y
    × ((i o : ℕ)
        → i < 8
        → o < 1
        → at2 0 y i o
          ≡ dot_q4 numbers
                (λ t. flat numbers eight_rows (i * 3 + t))
                (row_at (155 ∷ 15 ∷ []) (o * q4_row_bytes 3))
                0
                3
              * scale_at numbers (2 ∷ []) o
            + bias_at numbers none o)
linear_q4-at2_example =
    linear_q4-at2 numbers 8 eight_rows one_row none eight_rows-Is2d one_row_sound refl

-- The same codes in groups of two columns.
abbrev two_groups : Q4gTensor ℕ
two_groups = record { q = 155 ∷ 15 ∷ []; scale = 2 ∷ 5 ∷ []; out = 1; width = 3; group = 2 }

two_groups_sound : check_q4gtensor numbers two_groups ≡ ok tt
unfolding check_q4gtensor q4_row_bytes n_blocks
two_groups_sound = refl

linear_q4g-at2_example :
    (y : Tensor ℕ) × (linear_q4g numbers eight_rows two_groups none ≡ ok y)
    × Is2d 8 1 y
    × ((i o : ℕ)
        → i < 8
        → o < 1
        → at2 0 y i o
          ≡ sum_blocks numbers 3 2
              (λ b. scale_at numbers (2 ∷ 5 ∷ []) (o * n_blocks 3 2 + b))
              (dot_q4 numbers
                (λ t. flat numbers eight_rows (i * 3 + t))
                (row_at (155 ∷ 15 ∷ []) (o * q4_row_bytes 3)))
            + bias_at numbers none o)
linear_q4g-at2_example =
    linear_q4g-at2 numbers 8 eight_rows two_groups none eight_rows-Is2d two_groups_sound refl

-- A matrix with an odd number of columns.
abbrev small : Tensor ℕ
small = grid 2 3 (7 ∷ 14 ∷ 21 ∷ 0 ∷ 0 ∷ 0 ∷ [])

small-Is2d : Is2d 2 3 small
small-Is2d = record { shape = refl; strides = refl; numel = refl; stored = refl }

numbers-IsComparison : IsComparison numbers
numbers-IsComparison = record {
  irreflexive = λ x. ground arith;
  ordered = refl;
  zero_low = refl;
  zero_high = refl;
  zero_number = refl;
  cast = λ r low high number. ground arith;
}

dequantize-quantize_q4_example :
    (y : Tensor ℕ) × ((quantize_q4 numbers small >>= dequantize_q4 numbers) ≡ ok y)
    × Is2d 2 3 y
    × ((o j : ℕ)
        → o < 2
        → j < 3
        → at2 0 y o j
          ≡ numbers.mul_f
              (numbers.of_ℤ (q4_of numbers (at2 0 small o j) (q4_scale numbers (at2 0 small o) 3)))
              (q4_scale numbers (at2 0 small o) 3))
dequantize-quantize_q4_example =
    dequantize-quantize_q4 numbers 2 3 small numbers-IsComparison small-Is2d

quantize_q4g-eq-quantize_q4_example :
    quantize_q4g numbers small 3 ≡ (quantize_q4 numbers small >>= λ t. ok (as_grouped numbers t))
quantize_q4g-eq-quantize_q4_example =
    quantize_q4g-eq-quantize_q4 numbers 2 3 small small-Is2d (omega arith) (omega arith)

-- Two rows of two codes.
abbrev table : QTensor ℕ
table = record { q = pos 1 ∷ pos 2 ∷ pos 3 ∷ pos 4 ∷ []; scale = 10 ∷ 100 ∷ []; out = 2; width = 2 }

embedding_q8-eq-embedding_example :
    embedding_q8 numbers table (1 ∷ 0 ∷ [])
    ≡ (dequantize_q8 numbers table >>= λ y. embedding 0 y (1 ∷ 0 ∷ []))
embedding_q8-eq-embedding_example = embedding_q8-eq-embedding numbers table (1 ∷ 0 ∷ [])
