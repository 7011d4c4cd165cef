-- ===== src/Prelude/Tabulate.antt =====
-- Lists given by their entries.
use Prim.Native.Nat.{ℕ, zero, suc, ◌+◌, ◌<◌}
use mathlib.Core.Path.{◌≡◌, refl, ap, ap₂, ◌∙◌}
use mathlib.Core.List.{List, [], ◌∷◌}
use native.Mathlib.Omega.{arith}
use nanoinfer.Prelude.Lists.{length, get_or}

module _ {ℓ} {A : Type ℓ} where
  unfoldable pub tabulate_from : ℕ → ℕ → (ℕ → A) → List A
  tabulate_from i zero f = []
  tabulate_from i (suc n) f = f i ∷ tabulate_from (i + 1) n f

  -- `f(0), ..., f(n - 1)`
  abbrev pub tabulate : ℕ → (ℕ → A) → List A
  tabulate n f = tabulate_from 0 n f

  length-tabulate_from : (i n : ℕ) (f : ℕ → A) → length (tabulate_from i n f) ≡ n
  unfolding tabulate_from
  length-tabulate_from i zero f = refl
  length-tabulate_from i (suc n) f = ap suc (length-tabulate_from (i + 1) n f)

  pub length-tabulate : (n : ℕ) (f : ℕ → A) → length (tabulate n f) ≡ n
  length-tabulate n f = length-tabulate_from 0 n f

  get_or-tabulate_from :
      (i n k : ℕ) (f : ℕ → A) (d : A) → k < n → get_or (tabulate_from i n f) k d ≡ f (i + k)
  unfolding tabulate_from
  get_or-tabulate_from i zero k f d h = absurd (omega arith)
  get_or-tabulate_from i (suc n) zero f d h = ap f (omega arith)
  get_or-tabulate_from i (suc n) (suc k) f d h =
      get_or-tabulate_from (i + 1) n k f d (omega arith) ∙ ap f (omega arith)

  pub get_or-tabulate : (n k : ℕ) (f : ℕ → A) (d : A) → k < n → get_or (tabulate n f) k d ≡ f k
  get_or-tabulate n k f d h = get_or-tabulate_from 0 n k f d h ∙ ap f (omega arith)

  -- Lists of one length with the same entries are equal.
  pub list_ext :
      (xs ys : List A) (d : A)
      → length xs ≡ length ys
      → ((i : ℕ) → i < length xs → get_or xs i d ≡ get_or ys i d)
      → xs ≡ ys
  list_ext [] [] d e same = refl
  list_ext [] (y ∷ ys) d e same = absurd (omega (arith, e))
  list_ext (x ∷ xs) [] d e same = absurd (omega (arith, e))
  list_ext (x ∷ xs) (y ∷ ys) d e same =
      ap₂ (λ a rest. a ∷ rest) (same 0 (omega arith))
        (list_ext xs ys d (omega (arith, e)) (λ i h. same (suc i) (omega arith)))

  -- A list of `n` entries that are those of `f`.
  pub eq_tabulate :
      (xs : List A) (n : ℕ) (f : ℕ → A) (d : A)
      → length xs ≡ n
      → ((i : ℕ) → i < n → get_or xs i d ≡ f i)
      → xs ≡ tabulate n f
  eq_tabulate xs n f d e same =
      list_ext xs (tabulate n f) d (omega (arith, e, length-tabulate n f)) λ i h.
        let small : i < n = omega (arith, e) in rw (get_or-tabulate n i f d small) (same i small)

  tabulate_from-cong :
      (i n : ℕ) (f g : ℕ → A)
      → ((k : ℕ) → k < i + n → f k ≡ g k)
      → tabulate_from i n f ≡ tabulate_from i n g
  unfolding tabulate_from
  tabulate_from-cong i zero f g same = refl
  tabulate_from-cong i (suc n) f g same =
      ap₂ (λ a rest. a ∷ rest) (same i (omega arith))
        (tabulate_from-cong (i + 1) n f g (λ k h. same k (omega arith)))

  pub tabulate-cong :
      (n : ℕ) (f g : ℕ → A) → ((k : ℕ) → k < n → f k ≡ g k) → tabulate n f ≡ tabulate n g
  tabulate-cong n f g same = tabulate_from-cong 0 n f g (λ k h. same k (omega arith))
