-- ===== src/Ops/Elementwise.antt =====
-- cpp/src/ops.cpp: silu, mul and add, which work entry by entry.
pub mod Laws
use nanoinfer.Prelude.{ℕ, Bool, true, false, ◌&&◌, List, [], ◌∷◌, get_or, set, ◌==◌, Result, ok}
use nanoinfer.Prelude.Loops.{for_range}
use nanoinfer.Floats.{FloatOps}
use nanoinfer.Tensor.{Tensor, cpu, make_tensor}
use nanoinfer.Ops.Heads.{require}

-- `a.shape() == b.shape()`
unfoldable pub same_shape : List ℕ → List ℕ → Bool
same_shape [] [] = true
same_shape (d ∷ ds) (e ∷ es) = d == e && same_shape ds es
same_shape _ _ = false

module _ (fp : FloatOps) where
  open fp use {Float, zero_f, one_f, add_f, mul_f, div_f, neg_f, exp_f}

  -- `for (i = 0; i < n; ++i) out[i] = f(i)`
  unfoldable pub fill : ℕ → (ℕ → Float) → Tensor Float → Tensor Float
  fill n f out = for_range n 0 (λ i o. record o { values = set o.values i (f i) }) out

  abbrev pub value : Tensor Float → ℕ → Float
  value t i = get_or t.values i zero_f

  -- `v / (1.0f + std::exp(-v))`
  abbrev pub silu_of : Float → Float
  silu_of v = div_f v (add_f one_f (exp_f (neg_f v)))

  unfoldable pub silu : Tensor Float → Tensor Float
  unfolding fill
  silu x = fill x.numel (λ i. silu_of (value x i)) (make_tensor zero_f x.shape cpu)

  unfoldable pub mul : Tensor Float → Tensor Float → Result (Tensor Float)
  unfolding fill same_shape
  mul a b =
      require (same_shape a.shape b.shape)
        (ok (fill a.numel (λ i. mul_f (value a i) (value b i)) (make_tensor zero_f a.shape cpu)))

  unfoldable pub add : Tensor Float → Tensor Float → Result (Tensor Float)
  unfolding fill same_shape
  add a b =
      require (same_shape a.shape b.shape)
        (ok (fill a.numel (λ i. add_f (value a i) (value b i)) (make_tensor zero_f a.shape cpu)))
