-- ===== src/Tensor/Wrap.antt =====
-- cpp/src/tensor.cpp: the products of the constructor as int64_t computes them. An overflow, which C++ does
-- not define, wraps.
use nanoinfer.Prelude.{
  ℕ, zero, suc, ◌*◌, ◌%◌, ◌^◌, ◌<◌, ◌≤◌, ◌≡◌, refl, ap, ◌∙◌, List, [], ◌∷◌, arith,
}
use nanoinfer.Tensor.{numel_from, strides_from_right}

-- `for (d : shape_) numel_ *= d`
unfoldable pub int64_numel : ℕ → List ℕ → ℕ
int64_numel n [] = n
int64_numel n (d ∷ ds) = int64_numel (n * d % 2 ^ 64) ds

-- The loop from the last axis to the first.
unfoldable pub int64_strides : List ℕ → List ℕ × ℕ
int64_strides [] = ([], 1)
int64_strides (d ∷ ds) = let (strides, acc) = int64_strides ds in (acc ∷ strides, acc * d % 2 ^ 64)

-- The product of the dimensions, those of 0 left out.
unfoldable pub extent : List ℕ → ℕ
extent [] = 1
extent (zero ∷ ds) = extent ds
extent (suc d ∷ ds) = suc d * extent ds

extent_pos : (ds : List ℕ) → 0 < extent ds
unfolding extent
extent_pos [] = omega arith
extent_pos (zero ∷ ds) = extent_pos ds
extent_pos (suc d ∷ ds) = grind (arith, extent_pos ds)

le_mul_pos : (m k : ℕ) → 0 < k → m ≤ m * k
le_mul_pos m k pos = grind arith

extent-tail : (d : ℕ) (ds : List ℕ) → extent ds ≤ extent (d ∷ ds)
unfolding extent
extent-tail zero ds = omega arith
extent-tail (suc d) ds = grind arith

extent-head : (n d : ℕ) (ds : List ℕ) → n * d * extent ds ≤ n * extent (d ∷ ds)
unfolding extent
extent-head n zero ds = omega arith
extent-head n (suc d) ds = grind arith

pub int64_numel-eq :
    (n : ℕ) (ds : List ℕ) → n * extent ds < 2 ^ 63 → int64_numel n ds ≡ numel_from n ds
unfolding int64_numel numel_from
int64_numel-eq n [] h = refl
int64_numel-eq n (d ∷ ds) h =
    let below : n * d * extent ds < 2 ^ 63 = omega (arith, h, extent-head n d ds) in
    let small : n * d % 2 ^ 64 ≡ n * d =
      omega (arith, le_mul_pos (n * d) (extent ds) (extent_pos ds)) in
    ap (λ k. int64_numel k ds) small ∙ int64_numel-eq (n * d) ds below

acc-le : (ds : List ℕ) → (strides_from_right ds).1 ≤ extent ds
unfolding strides_from_right extent
acc-le [] = omega arith
acc-le (zero ∷ ds) = omega arith
acc-le (suc d ∷ ds) = grind (arith, acc-le ds)

pub int64_strides-eq : (ds : List ℕ) → extent ds < 2 ^ 63 → int64_strides ds ≡ strides_from_right ds
unfolding int64_strides strides_from_right
int64_strides-eq [] h = refl
int64_strides-eq (d ∷ ds) h =
    let rest = int64_strides-eq ds (omega (arith, extent-tail d ds)) in
    let small : (strides_from_right ds).1 * d % 2 ^ 64 ≡ (strides_from_right ds).1 * d =
      omega (arith, acc-le (d ∷ ds)) in
    rw rest (ap (λ k. ((strides_from_right ds).1 ∷ (strides_from_right ds).0, k)) small)
