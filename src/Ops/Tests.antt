-- ===== src/Ops/Tests.antt =====
-- An instance of the arithmetic on the natural numbers, and the witnesses of the theorems on operations.
use nanoinfer.Prelude.{
  ℤ, pos, negsuc, false, ℕ, zero, suc, ◌+◌, ◌-◌, ◌*◌, ◌/◌, ◌<◌, ◌≡◌, refl, true, arith, ltb, ◌==◌,
  ok, max,
}
use nanoinfer.Floats.{FloatOps}
use nanoinfer.Tensor.{Tensor, at2, at3}
use nanoinfer.Tensor.Access.{Is2d, Is3d}
use nanoinfer.Tensor.Tests.{rows, rows-Is2d, one_head, one_head-Is3d, two_heads, two_heads-Is3d}
use nanoinfer.Ops.Heads.{split_heads, merge_heads, repeat_kv}
use nanoinfer.Ops.Heads.Laws.{merge-split_heads, repeat_kv-at3}
use nanoinfer.Ops.Attention.{attention, attend_heads}
use nanoinfer.Ops.Attention.Agreement.{attention-eq}
use nanoinfer.Ops.Attention.Visible.{IsSeen, attend_heads-visible}

abbrev magnitude : ℤ → ℕ
magnitude (pos n) = n
magnitude (negsuc n) = n + 1

abbrev pub numbers : FloatOps
numbers = record {
  Float = ℕ;
  Double = ℕ;
  zero_f = 0;
  one_f = 1;
  neg_inf = 0;
  zero_d = 0;
  one_d = 1;
  two_pi = 6;
  of_ℕ = λ n. n;
  of_ℤ = λ z. magnitude z;
  of_ℕ_d = λ n. n;
  of_ℤ_d = λ z. magnitude z;
  to_ℤ = λ n. pos n;
  of_bits = λ n. n;
  to_bits = λ n. n;
  widen = λ n. n;
  narrow = λ n. n;
  add_f = λ a b. a + b;
  sub_f = λ a b. a - b;
  mul_f = λ a b. a * b;
  div_f = λ a b. a / b;
  add_d = λ a b. a + b;
  mul_d = λ a b. a * b;
  sub_d = λ a b. a - b;
  div_d = λ a b. a / b;
  gt_f = λ a b. ltb b a;
  gt_d = λ a b. ltb b a;
  max_f = λ a b. max a b;
  eq_f = λ a b. a == b;
  is_nan = λ a. false;
  round_f = λ a. a;
  abs_f = λ a. a;
  neg_f = λ a. 0;
  exp_f = λ a. a + 1;
  exp_d = λ a. a + 1;
  sqrt_f = λ a. a;
  pow_d = λ a b. a + b;
  cos_d = λ a. a;
  sin_d = λ a. a;
}

merge-split_heads_example :
    (y z : Tensor ℕ) × (split_heads 0 rows 2 1 ≡ ok y)
    × (merge_heads 0 y ≡ ok z)
    × Is2d 2 (2 * 1) z
    × ((s c : ℕ) → s < 2 → c < 2 * 1 → at2 0 z s c ≡ at2 0 rows s c)
merge-split_heads_example = merge-split_heads 0 rows 2 2 1 rows-Is2d

repeat_kv-at3_example :
    (y : Tensor ℕ) × (repeat_kv 0 one_head 2 ≡ ok y)
    × Is3d (1 * 2) 2 1 y
    × ((j r s d : ℕ)
        → j < 1
        → r < 2
        → s < 2
        → d < 1
        → at3 0 y (j * 2 + r) s d ≡ at3 0 one_head j s d)
repeat_kv-at3_example = repeat_kv-at3 0 one_head 1 2 1 2 one_head-Is3d (omega arith) (omega arith)

attention-eq_example :
    attention numbers two_heads two_heads two_heads true 0
    ≡ ok (attend_heads numbers two_heads (at3 0 two_heads) (at3 0 two_heads) 2 true 0)
attention-eq_example =
    attention-eq numbers 2 2 2 1 two_heads two_heads two_heads true 0 two_heads-Is3d two_heads-Is3d
      two_heads-Is3d refl

-- Keys and values that agree at the first position only.
abbrev early : ℕ → ℕ → ℕ → ℕ
early h zero x = 5
early h (suc j) x = 6

abbrev late : ℕ → ℕ → ℕ → ℕ
late h zero x = 5
late h (suc j) x = 9

first_eq : (j x : ℕ) → IsSeen true 0 2 0 j → early 0 j x ≡ late 0 j x
first_eq zero x seen = refl
first_eq (suc j) x seen = absurd (omega arith)

attend_heads-visible_example :
    at3 0 (attend_heads numbers one_head early early 2 true 0) 0 0 0
    ≡ at3 0 (attend_heads numbers one_head late late 2 true 0) 0 0 0
attend_heads-visible_example =
    attend_heads-visible numbers one_head early late early late 2 true 0 0 0 0 (omega arith)
      (omega arith) (omega arith) (omega arith) (λ j x seen _. first_eq j x seen)
      (λ j seen. first_eq j 0 seen)
