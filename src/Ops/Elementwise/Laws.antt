-- ===== src/Ops/Elementwise/Laws.antt =====
-- cpp/src/ops.cpp: what silu, mul and add return.
use nanoinfer.Prelude.{
  ℕ, ◌<◌, ◌≡◌, ◌≢◌, refl, sym, ap, ap₂, ◌∙◌, inl, inr, true, false, List, [], ◌∷◌, arith, length,
  set, length-set, get_or-set_self, get_or-set_ne, length-replicate, if◌then◌else◌, Bool-cases,
  Result, ok, throw, invalid_argument,
}
use nanoinfer.Prelude.Loops.{for_range-keep, for_range-hit}
use nanoinfer.Floats.{FloatOps}
use nanoinfer.Tensor.{Tensor, cpu, make_tensor, numel_from}
use nanoinfer.Ops.Elementwise.{same_shape, fill, value, silu_of, silu, mul, add}

same_shape-eq : (xs ys : List ℕ) → same_shape xs ys ≡ true → xs ≡ ys
unfolding same_shape
same_shape-eq [] [] h = refl
same_shape-eq [] (y ∷ ys) h = cc
same_shape-eq (x ∷ xs) [] h = cc
same_shape-eq (x ∷ xs) (y ∷ ys) h =
    ap₂ (λ d ds. d ∷ ds) (ground arith) (same_shape-eq xs ys (ground arith))

same_shape_refl : (xs : List ℕ) → same_shape xs xs ≡ true
unfolding same_shape
same_shape_refl [] = refl
same_shape_refl (x ∷ xs) = ground (arith, same_shape_refl xs)

same_shape-ne : (xs ys : List ℕ) → same_shape xs ys ≡ false → xs ≢ ys
same_shape-ne xs ys h e =
    let t : same_shape xs ys ≡ true = ap (same_shape xs) (sym e) ∙ same_shape_refl xs in cc

module _ (fp : FloatOps) where
  open fp use {Float, zero_f, add_f, mul_f}

  -- `y` has the shape and the entries `f`.
  abbrev pub IsFilled : List ℕ → (ℕ → Float) → Tensor Float → Type 0
  IsFilled shape f y = (y.shape ≡ shape) × ((i : ℕ) → i < numel_from 1 shape → value fp y i ≡ f i)

  record IsSized (shape : List ℕ) (y : Tensor Float) : Type 0 where
    shaped : y.shape ≡ shape
    stored : length y.values ≡ numel_from 1 shape

  fill-IsFilled :
      (shape : List ℕ) (f : ℕ → Float)
      → IsFilled shape f (fill fp (numel_from 1 shape) f (make_tensor zero_f shape cpu))
  unfolding fill make_tensor
  fill-IsFilled shape f = (
    shaped_of (for_range-keep (IsSized shape) _ put n 0 _ blank),
    λ i h.
        for_range-hit (IsSized shape) _ put (λ (o : Tensor Float). value fp o i) i (f i) n 0 _
          (omega arith) (omega arith)
          (λ o w. get_or-set_self o.values i (f i) zero_f (omega (arith, w.stored)))
          (λ k o lo hi ne w. get_or-set_ne o.values k i (f k) zero_f ne) blank,
  )
    where
      n : ℕ
      n = numel_from 1 shape

      put :
          (i : ℕ) (o : Tensor Float)
          → IsSized shape o
          → IsSized shape (record o { values = set o.values i (f i) })
      put i o w = record { shaped = w.shaped; stored = length-set o.values i (f i) ∙ w.stored }

      blank : IsSized shape (make_tensor zero_f shape cpu)
      blank = record { shaped = refl; stored = length-replicate _ zero_f }

      shaped_of : {o : Tensor Float} → IsSized shape o → o.shape ≡ shape
      shaped_of w = w.shaped

  -- On either outcome of an operation on two tensors that works entry by entry by `op`.
  abbrev pub Zipped :
      (Float → Float → Float) → Tensor Float → Tensor Float → Result (Tensor Float) → Type 0
  Zipped op a b (ok y) =
      (a.shape ≡ b.shape) × IsFilled a.shape (λ i. op (value fp a i) (value fp b i)) y
  Zipped op a b (throw e) = (e ≡ invalid_argument) × (a.shape ≢ b.shape)

  zipped_lem :
      (op : Float → Float → Float) (a b : Tensor Float)
      → a.numel ≡ numel_from 1 a.shape
      → Zipped op a b (
          if same_shape a.shape b.shape
          then ok (
              fill fp a.numel
                (λ i. op (value fp a i) (value fp b i))
                (make_tensor zero_f a.shape cpu))
          else throw invalid_argument)
  zipped_lem op a b e = elim (Bool-cases (same_shape a.shape b.shape)) [
    | inl same ↦
        simp (same, e)
          (
            same_shape-eq a.shape b.shape same,
            fill-IsFilled a.shape (λ i. op (value fp a i) (value fp b i)),
          )
    | inr other ↦ simp other (refl, same_shape-ne a.shape b.shape other)
  ]

  -- `mul` and `add` of two tensors have their shape and the products and sums of their entries; they throw
  -- invalid_argument exactly when the shapes differ.
  pub mul-add-Zipped :
      (a b : Tensor Float)
      → a.numel ≡ numel_from 1 a.shape
      → Zipped mul_f a b (mul fp a b) × Zipped add_f a b (add fp a b)
  unfolding mul add
  mul-add-Zipped a b e = (zipped_lem mul_f a b e, zipped_lem add_f a b e)

  -- `silu` keeps the shape and applies v / (1 + exp(-v)) to every entry.
  pub silu-IsFilled :
      (x : Tensor Float)
      → x.numel ≡ numel_from 1 x.shape
      → IsFilled x.shape (λ i. silu_of fp (value fp x i)) (silu fp x)
  unfolding silu
  silu-IsFilled x e = simp e (fill-IsFilled x.shape (λ i. silu_of fp (value fp x i)))
