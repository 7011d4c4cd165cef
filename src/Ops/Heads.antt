-- ===== src/Ops/Heads.antt =====
-- cpp/src/ops.cpp: split_heads, merge_heads and repeat_kv, which move entries between layouts.
pub mod Laws
use nanoinfer.Prelude.{
  ℕ, suc, ◌+◌, ◌*◌, Bool, not, ◌&&◌, List, [], ◌∷◌, leb, ltb, ◌==◌, if◌then◌else◌, Result, ok,
  throw, invalid_argument, is_negative,
}
use nanoinfer.Prelude.Loops.{for_range, for3}
use nanoinfer.Tensor.{Tensor, cpu, make_tensor, ndim, size, at2, at3, set_at2, set_at3}

-- `require`
abbrev pub require {ℓ} : {A : Type ℓ} → Bool → Result A → Result A
require test rest = if test then rest else throw invalid_argument

module _ {F : Type 0} (nought : F) where
  unfoldable pub split_heads : Tensor F → ℕ → ℕ → Result (Tensor F)
  unfolding ndim
  split_heads x n_heads head_dim = require (ndim x == 2) (
      require (size x 1 == n_heads * head_dim) (
        ok (
          for3 (size x 0) n_heads head_dim
            (λ s h d out. set_at3 out h s d (at2 nought x s (h * head_dim + d)))
            (make_tensor nought (n_heads ∷ size x 0 ∷ head_dim ∷ []) cpu))))

  unfoldable pub merge_heads : Tensor F → Result (Tensor F)
  unfolding ndim
  merge_heads x = require (ndim x == 3) (
      ok (
        for3 (size x 0) (size x 1) (size x 2)
          (λ h s d out. set_at2 out s (h * size x 2 + d) (at3 nought x h s d))
          (make_tensor nought (size x 1 ∷ (size x 0 * size x 2) ∷ []) cpu)))

  unfoldable pub repeat_kv : Tensor F → ℕ → Result (Tensor F)
  unfolding ndim
  repeat_kv x n_rep = require (ndim x == 3) (
      require (not (is_negative n_rep) && leb 1 n_rep) (
        ok (
          for_range (size x 0) 0
            (λ j out.
              for3 n_rep (size x 1) (size x 2)
                (λ r s d out. set_at3 out (j * n_rep + r) s d (at3 nought x j s d)) out)
            (make_tensor nought ((size x 0 * n_rep) ∷ size x 1 ∷ size x 2 ∷ []) cpu))))
