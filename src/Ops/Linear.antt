-- ===== src/Ops/Linear.antt =====
-- cpp/src/ops.cpp: matmul and linear.
pub mod Laws
use nanoinfer.Prelude.{
  ℕ, ◌+◌, ◌*◌, Bool, true, ◌&&◌, List, [], ◌∷◌, Option, none, some, ◌==◌, Result, ok,
}
use nanoinfer.Prelude.Loops.{for_range, for3}
use nanoinfer.Floats.{FloatOps}
use nanoinfer.Tensor.{Tensor, cpu, make_tensor, ndim, size, at2, set_at2}
use nanoinfer.Ops.Heads.{require}
use nanoinfer.Ops.Attention.{flat, set_flat, dot_f32}

module _ (fp : FloatOps) where
  open fp use {Float, Double, zero_f, zero_d, add_f, mul_f, add_d, widen, narrow}

  unfoldable pub matmul : Tensor Float → Tensor Float → Result (Tensor Float)
  unfolding ndim
  matmul a b = require (ndim a == 2 && ndim b == 2) (
      require (size a 1 == size b 0) (
        ok (
          for3 (size a 0) (size a 1) (size b 1)
            (λ i p j out.
              set_at2 out i j
                (add_f (at2 zero_f out i j) (mul_f (at2 zero_f a i p) (at2 zero_f b p j))))
            (make_tensor zero_f (size a 0 ∷ size b 1 ∷ []) cpu))))

  -- `bias->numel() == out`, where there is a bias.
  abbrev pub bias_fits : Option (Tensor Float) → ℕ → Bool
  bias_fits none out = true
  bias_fits (some b) out = b.numel == out

  -- `bp ? double(bp[o]) : 0.0`
  abbrev pub bias_at : Option (Tensor Float) → ℕ → Double
  bias_at none o = zero_d
  bias_at (some b) o = widen (flat fp b o)

  -- The loop over output channels with the rows inside, which `linear` and the quantized products share:
  -- `yp[i * out + o] = cell(o, i)`.
  unfoldable pub by_channel : ℕ → ℕ → (ℕ → ℕ → Float) → Tensor Float
  by_channel m out cell =
      for_range out 0 (λ o y. for_range m 0 (λ i y. set_flat fp y (i * out + o) (cell o i)) y)
        (make_tensor zero_f (m ∷ out ∷ []) cpu)

  unfoldable pub linear :
      Tensor Float → Tensor Float → Option (Tensor Float) → Result (Tensor Float)
  unfolding by_channel ndim
  linear x weight bias = require (ndim x == 2 && ndim weight == 2) (
      require (size x 1 == size weight 1) (
        let width = size x 1 in
        let out = size weight 0 in
        require (bias_fits bias out) (
          ok (
            by_channel (size x 0) out (λ o i. narrow (
              add_d
                (dot_f32 fp (λ t. flat fp x (i * width + t)) (λ t. flat fp weight (o * width + t))
                  width)
                (bias_at bias o)))))))
