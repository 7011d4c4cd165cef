-- ===== src/Prelude/Methods.antt =====
-- Chains of calls that change a state and may throw, for `do` blocks, and loops of them.
use Prim.Native.Nat.{ℕ, zero, suc, ◌+◌}
use mathlib.Core.Bool.{Bool}
use nanoinfer.Prelude.Results.{Error, Result, ok, throw, Method, Yields, throws}
use nanoinfer.Prelude.Results as Results

abbrev pub pure : {A S : Type 0} → A → Method S A
pure a s = (ok a, s)

-- A call that does not touch the state.
abbrev pub run : {A S : Type 0} → Result A → Method S A
run r s = (r, s)

abbrev pub gets : {A S : Type 0} → (S → A) → Method S A
gets f s = (ok (f s), s)

abbrev pub modify : {S : Type 0} → (S → S) → Method S (Unit {0})
modify f s = (ok tt, f s)

infixl 5 ◌>>=◌ ◌>>◌
abbrev pub ◌>>=◌ : {A B S : Type 0} → Method S A → (A → Method S B) → Method S B
◌>>=◌ m f s = let (r, t) = m s in elim r [ ok a ↦ f a t | throw e ↦ (throw e, t) ]

abbrev pub ◌>>◌ : {B S : Type 0} → Method S (Unit {0}) → Method S B → Method S B
m >> k = m >>= λ _. k

abbrev pub raise_if : {S : Type 0} → Bool → Error → Method S (Unit {0})
raise_if b e = run (Results.raise_if b e)

-- `for (i = lo; i < lo + n; ++i) x = body(i, x)`
unfoldable pub for_method : {A S : Type 0} → ℕ → ℕ → (ℕ → A → Method S A) → A → Method S A
for_method zero lo body x = pure x
for_method (suc n) lo body x = let rest = for_method n (lo + 1) body in body lo x >>= rest

-- The same for calls without a state.
unfoldable pub for_result : {A : Type 0} → ℕ → ℕ → (ℕ → A → Result A) → A → Result A
for_result zero lo body x = ok x
for_result (suc n) lo body x =
    let rest = for_result n (lo + 1) body in Results.◌>>=◌ (body lo x) rest

-- What holds of the value of the second call, however the first one ends.
pub Yields-after :
    {A B S : Type 0} {P : B → Type 0} (m : Method S A) (f : A → Method S B) (s : S)
    → ((a : A) (t : S) → Yields P ((f a t).0))
    → Yields P (((m >>= f) s).0)
Yields-after {A} {B} {S} {P} m f s h = go (m s)
  where
    go :
        (r : Result A × S)
        → Yields P (
            (let (x, t) = r in
              elim x as (λ y. Result B × S) [ ok a ↦ f a t | throw e ↦ (throw e, t) ]).0)
    go (ok a, t) = h a t
    go (throw e, t) = throws
