-- ===== src/Quant/Rounding.antt =====
-- cpp/src/quant.cpp: codes as floats, the greatest entry of a row, and the products of codes.
use nanoinfer.Prelude.{ℕ, ℤ, ◌+◌, ◌-◌, ◌/◌, ◌||◌, if◌then◌else◌}
use nanoinfer.Prelude.Loops.{for_range}
use nanoinfer.Floats.{FloatOps}

-- `(in + group - 1) / group`
unfoldable pub n_blocks : ℕ → ℕ → ℕ
n_blocks width group = (width + group - 1) / group

module _ (fp : FloatOps) where
  open fp use {
    Float, Double, zero_f, zero_d, of_ℕ, of_ℤ_d, neg_f, abs_f, round_f, is_nan, div_f, gt_f, eq_f,
    add_d, mul_d, widen,
  }

  -- `kQ8Max` and `kQ4Max`
  abbrev pub q8_max : Float
  q8_max = of_ℕ 127

  abbrev pub q4_max : Float
  q4_max = of_ℕ 7

  unfoldable pub round_clamp : Float → Float → Float → Float
  round_clamp w scale qmax =
      if gt_f zero_f scale || eq_f scale zero_f
      then zero_f
      else let r = round_f (div_f w scale) in
        let top = if gt_f r qmax then qmax else r in
        let bottom = if gt_f (neg_f qmax) top then neg_f qmax else top in
        if is_nan bottom then zero_f else bottom

  -- `std::max(a, b)`
  abbrev pub max_f : Float → Float → Float
  max_f a b = if gt_f b a then b else a

  -- `absmax` of the entries `x(from)`, ..., `x(from + n - 1)`.
  unfoldable pub abs_max : (ℕ → Float) → ℕ → ℕ → Float
  abs_max x from n = for_range n from (λ j m. max_f m (abs_f (x j))) zero_f

  -- `simd::dot_qf32`
  unfoldable pub dot_qf32 : (ℕ → Float) → (ℕ → ℤ) → ℕ → Double
  dot_qf32 x q n =
      for_range n 0 (λ i total. add_d total (mul_d (widen (x i)) (of_ℤ_d (q i)))) zero_d
