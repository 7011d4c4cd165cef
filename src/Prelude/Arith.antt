-- ===== src/Prelude/Arith.antt =====
-- Division, and row-major offsets.
use Prim.Native.Nat.{ℕ, ◌+◌, ◌-◌, ◌*◌, ◌/◌, ◌%◌, ◌≤◌, ◌<◌}
use mathlib.Core.Path.{◌≡◌, ap, ◌∙◌, sym}
use native.Mathlib.Omega.{arith}
use native.Mathlib.Nat.{div-add-mod, div-add-mod', mod-lt, div-eq_of_lt, mul-add-div_right}

-- ceil(n / d) is the least number of blocks of `d` that cover `n`.
pub ceil_covers : (d n : ℕ) → 0 < d → n ≤ (n + d - 1) / d * d
ceil_covers d n pos = grind (arith, div-add-mod, mod-lt)

pub ceil-le : (d n k : ℕ) → 0 < d → n ≤ k * d → (n + d - 1) / d ≤ k
ceil-le d n k pos h = grind (arith, div-add-mod, mod-lt)

pub div-lt_of_lt_mul : (d n k : ℕ) → n < k * d → n / d < k
div-lt_of_lt_mul d n k h = grind (arith, div-add-mod)

pub row_bound : (D R r c : ℕ) → r < R → c < D → r * D + c < R * D
row_bound D R r c h k = grind arith

pub div_row : (D r c : ℕ) → c < D → (r * D + c) / D ≡ r
div_row D r c h =
    mul-add-div_right (omega arith) r c ∙ omega (arith, div-eq_of_lt {n = c} {m = D} h)

pub mod_row : (D r c : ℕ) → c < D → (r * D + c) % D ≡ c
mod_row D r c h =
    omega (arith, div_row D r c h, div-add-mod' (r * D + c) D, ap (λ t. t * D) (div_row D r c h))

-- Two entries of a row-major table at one offset are the same entry.
pub row_inj : (D r c r' c' : ℕ) → c < D → c' < D → r * D + c ≡ r' * D + c' → (r ≡ r') × (c ≡ c')
row_inj D r c r' c' h h' e = (
  sym (div_row D r c h) ∙ ap (λ n. n / D) e ∙ div_row D r' c' h',
  sym (mod_row D r c h) ∙ ap (λ n. n % D) e ∙ mod_row D r' c' h',
)

pub row_end : (D R r : ℕ) → r < R → r * D + D ≤ R * D
row_end D R r h = grind arith

pub half_lt : (width j : ℕ) → j < width → j / 2 < (width + 1) / 2
half_lt width j h = omega arith

pub div_mono : (d m n : ℕ) → 0 < d → m ≤ n → m / d ≤ n / d
div_mono d m n pos h = grind (arith, div-add-mod, mod-lt)
