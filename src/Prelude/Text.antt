-- ===== src/Prelude/Text.antt =====
-- Text as the list of its bytes, and what the program does with `std::string`.
use Prim.Native.Nat.{ℕ, zero, suc, ◌+◌, ◌-◌, ◌/◌, ◌%◌}
use Prim.Native.Char.{code}
use Prim.Native.String.{String}
use mathlib.Core.Bool.{Bool, true, false, ◌&&◌}
use mathlib.Core.Option.{Option, none, some}
use mathlib.Core.List.{List, [], ◌∷◌}
use nanoinfer.Prelude.Tests.{◌==◌, ltb, if◌then◌else◌}
use nanoinfer.Prelude.Lists.{length, drop}

abbrev pub Text : Type 0
Text = List ℕ

-- A literal. `String` has its own `[]` and `∷`.
abbrev pub codes : String → Text
codes String.[] = []
codes (String.◌∷◌ c s) = code c ∷ codes s

-- `a == b`
unfoldable pub same_text : Text → Text → Bool
same_text [] [] = true
same_text [] (b ∷ t) = false
same_text (a ∷ s) [] = false
same_text (a ∷ s) (b ∷ t) = a == b && same_text s t

-- `s.rfind(prefix, 0) == 0`
unfoldable pub has_prefix : Text → Text → Bool
has_prefix [] s = true
has_prefix (a ∷ p) [] = false
has_prefix (a ∷ p) (b ∷ s) = a == b && has_prefix p s

-- `s.size() > suffix.size() && s.compare(s.size() - suffix.size(), suffix.size(), suffix) == 0`
unfoldable pub has_suffix : Text → Text → Bool
unfolding same_text
has_suffix suffix s =
    ltb (length suffix) (length s) && same_text (drop (length s - length suffix) s) suffix

unfoldable pub digits : ℕ → ℕ → Text → Text
digits zero n acc = acc
digits (suc fuel) n acc =
    let rest = digits fuel (n / 10) ((48 + n % 10) ∷ acc) in
    if ltb n 10 then (48 + n % 10) ∷ acc else rest

-- `std::to_string` of an integer that is not negative; 2^64 has 20 digits.
unfoldable pub to_string : ℕ → Text
unfolding digits
to_string n = digits 20 n []

-- A map with text for keys. `emplace` keeps the entry that is there.
module _ {ℓ} {V : Type ℓ} where
  unfoldable pub find : Text → List (Text × V) → Option V
  unfolding same_text
  find k [] = none
  find k ((j, v) ∷ m) = if same_text j k then some v else find k m

  unfoldable pub erase : Text → List (Text × V) → List (Text × V)
  unfolding same_text
  erase k [] = []
  erase k ((j, v) ∷ m) = if same_text j k then m else (j, v) ∷ erase k m

  unfoldable pub emplace : Text → V → List (Text × V) → List (Text × V)
  unfolding same_text
  emplace k v [] = (k, v) ∷ []
  emplace k v ((j, w) ∷ m) = if same_text j k then (j, w) ∷ m else (j, w) ∷ emplace k v m

  -- `it->second = f(it->second)` where the key is there.
  unfoldable pub update_at : Text → (V → V) → List (Text × V) → List (Text × V)
  unfolding same_text
  update_at k f [] = []
  update_at k f ((j, v) ∷ m) = if same_text j k then (j, f v) ∷ m else (j, v) ∷ update_at k f m
