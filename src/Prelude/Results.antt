-- ===== src/Prelude/Results.antt =====
-- Exceptions, methods that may throw after they have changed their object, and `int64_t` arguments.
use Prim.Native.Nat.{ℕ, ◌^◌}
use mathlib.Core.Path.{◌≡◌, refl}
use mathlib.Core.Bool.{Bool, true, false}
use mathlib.Core.Logic.{◌⊎◌, inl, inr}
use nanoinfer.Prelude.Tests.{leb}

-- An `int64_t` is its bit pattern read as a number: a negative one is 2^63 or more.
abbrev pub is_negative : ℕ → Bool
is_negative n = leb (2 ^ 63) n

-- An `int`: `negsuc n` is -(n + 1).
pub data ℤ : Type 0 where
  pos negsuc : ℕ → ℤ

-- The class of the C++ exception; its message is not modelled.
pub data Error : Type 0 where
  invalid_argument out_of_range runtime_error : Error

pub data Result {ℓ} (A : Type ℓ) : Type ℓ where
  ok : A → Result A
  throw : Error → Result A

-- A method on an object in state `S`: what it throws leaves the changes made before.
abbrev pub Method : Type 0 → Type 0 → Type 0
Method S A = S → Result A × S

-- `;` between two statements: an exception skips the second.
abbrev pub continue : {A B S : Type 0} → Result A × S → (A → S → Result B × S) → Result B × S
continue (ok a, s) f = f a s
continue (throw e, s) f = (throw e, s)

-- A method of a part of the object.
abbrev pub lift : {A S T : Type 0} → (S → T) → Result A × S → Result A × T
lift f (ok a, s) = (ok a, f s)
lift f (throw e, s) = (throw e, f s)

-- A step that may throw, after another.
abbrev pub and_then {ℓ κ} : {A : Type ℓ} {B : Type κ} → Result A → (A → Result B) → Result B
and_then (ok a) f = f a
and_then (throw e) f = throw e

abbrev pub raise_if : Bool → Error → Result (Unit {0})
raise_if true e = throw e
raise_if false e = ok tt

-- The operators of `do` blocks.
infixl 5 ◌>>◌ ◌>>=◌
abbrev pub ◌>>◌ {ℓ} : {B : Type ℓ} → Result (Unit {0}) → Result B → Result B
call >> next = and_then call λ done. next

abbrev pub ◌>>=◌ {κ ℓ} : {A : Type κ} {B : Type ℓ} → Result A → (A → Result B) → Result B
call >>= next = and_then call next

-- What holds of the value, if there is one.
pub data Yields {A : Type 0} (P : A → Type 0) : Result A → Type 0 where
  yields : {a : A} → P a → Yields P (ok a)
  throws : {e : Error} → Yields P (throw e)

pub Yields-bind :
    {A B : Type 0} {P : A → Type 0} {Q : B → Type 0} {m : Result A} {f : A → Result B}
    → Yields P m
    → ((a : A) → P a → Yields Q (f a))
    → Yields Q (m >>= f)
Yields-bind {m = ok a} (yields p) h = h a p
Yields-bind {m = throw e} throws h = throws

pub Yields-map :
    {A : Type 0} {P Q : A → Type 0} {r : Result A} → ((a : A) → P a → Q a) → Yields P r → Yields Q r
Yields-map h (yields p) = yields (h _ p)
Yields-map h throws = throws

pub Yields-ok : {A : Type 0} {P : A → Type 0} {a : A} → Yields P (ok a) → P a
Yields-ok (yields p) = p

pub checked_or_thrown : (r : Result (Unit {0})) → (r ≡ ok tt) ⊎ ((e : Error) × (r ≡ throw e))
checked_or_thrown (ok a) = inl refl
checked_or_thrown (throw e) = inr (e, refl)

pub Yields-anything : {A : Type 0} (r : Result A) → Yields (λ _. Unit {0}) r
Yields-anything (ok a) = yields tt
Yields-anything (throw e) = throws
