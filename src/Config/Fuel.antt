-- ===== src/Config/Fuel.antt =====
-- cpp/src/config.cpp: the loop of load_config ends.
use nanoinfer.Prelude.{
  ℕ, zero, suc, ◌+◌, ◌*◌, ◌-◌, ◌<◌, ◌≤◌, ◌≡◌, refl, inl, inr, Bool, Bool-cases, false, not, ◌||◌,
  [], ◌∷◌, Option, none, some, length, arith, Result, ok, throw, ◌==◌, Yields, yields, throws,
  Yields-bind, Yields-anything,
}
use nanoinfer.Prelude.Text.{Text, codes, same_text}
use nanoinfer.Floats.{FloatOps}
use nanoinfer.Config.{Config}
use nanoinfer.Config.Stream.{
  Stream, is_space, skip_spaces, span_word, at_end, read_word, is_digit, span_digits, split_sign,
  starts_digit, read_int,
}
use nanoinfer.Config.Load.{
  act_fn_of, rope_scaling_of, Field, read_word_value, read_field, read_fields, after_round,
}

skip_spaces-le : (s : Text) → length (skip_spaces s) ≤ length s
unfolding skip_spaces
skip_spaces-le [] = omega arith
skip_spaces-le (c ∷ s) = elim (Bool-cases (is_space c)) [
  | inl space ↦ rw space (omega (arith, skip_spaces-le s))
  | inr other ↦ rw other (omega arith)
]

-- The front of a text without spaces is none.
abbrev front_space : Text → Bool
front_space [] = false
front_space (c ∷ s) = is_space c

front-skip_spaces : (s : Text) → front_space (skip_spaces s) ≡ false
unfolding skip_spaces
front-skip_spaces [] = refl
front-skip_spaces (c ∷ s) = elim (Bool-cases (is_space c)) [
  | inl space ↦ rw space (front-skip_spaces s)
  | inr other ↦ rw other other
]

span_word-le : (s : Text) → length ((span_word s).1) ≤ length s
unfolding span_word
span_word-le [] = omega arith
span_word-le (c ∷ s) = elim (Bool-cases (is_space c)) [
  | inl space ↦ rw space (omega arith)
  | inr other ↦ rw other (omega (arith, span_word-le s))
]

span_word-lt :
    (s : Text) → front_space s ≡ false → at_end s ≡ false → length ((span_word s).1) < length s
unfolding span_word
span_word-lt [] h e = cc e
span_word-lt (c ∷ s) h e = rw h (omega (arith, span_word-le s))

-- A word that is read is not empty.
read_word-lt :
    (f : Stream) → (read_word f).1.failed ≡ false → length ((read_word f).1.rest) < length f.rest
unfolding read_word
read_word-lt f h = elim (Bool-cases (not f.good || at_end (skip_spaces f.rest))) [
  | inl bad ↦ cc h
  | inr good ↦ rw good (
      omega (
        arith,
        skip_spaces-le f.rest,
        span_word-lt (skip_spaces f.rest) (front-skip_spaces f.rest) (ground arith),
      ))
]

read_word-le : (f : Stream) → length ((read_word f).1.rest) ≤ length f.rest
unfolding read_word
read_word-le f = elim (Bool-cases (not f.good || at_end (skip_spaces f.rest))) [
  | inl bad ↦ rw bad (skip_spaces-le f.rest)
  | inr good ↦ rw good (omega (arith, skip_spaces-le f.rest, span_word-le (skip_spaces f.rest)))
]

span_digits-le : (acc : ℕ) (s : Text) → length ((span_digits acc s).1) ≤ length s
unfolding span_digits
span_digits-le acc [] = omega arith
span_digits-le acc (c ∷ s) = elim (Bool-cases (is_digit c)) [
  | inl digit ↦ rw digit (omega (arith, span_digits-le (acc * 10 + (c - 48)) s))
  | inr other ↦ rw other (omega arith)
]

split_sign-le : (s : Text) → length ((split_sign s).1) ≤ length s
split_sign-le [] = omega arith
split_sign-le (c ∷ s) = elim (Bool-cases (c == 45)) [
  | inl minus ↦ rw minus (omega arith)
  | inr more ↦ elim (Bool-cases (c == 43)) [
    | inl plus ↦ rw (more, plus) (omega arith)
    | inr digit ↦ rw (more, digit) (omega arith)
  ]
]

pub read_int-le : (old : ℕ) (f : Stream) → length ((read_int old f).1.rest) ≤ length f.rest
unfolding read_int
read_int-le old f = elim (Bool-cases (not f.good || at_end (skip_spaces f.rest))) [
  | inl bad ↦ rw bad (skip_spaces-le f.rest)
  | inr good ↦ elim (Bool-cases (starts_digit ((split_sign (skip_spaces f.rest)).1))) [
    | inl digit ↦
        rw (good, digit)
          (omega (
            arith,
            skip_spaces-le f.rest,
            split_sign-le (skip_spaces f.rest),
            span_digits-le 0 ((split_sign (skip_spaces f.rest)).1),
          ))
    | inr other ↦
        rw (good, other) (omega (arith, skip_spaces-le f.rest, split_sign-le (skip_spaces f.rest)))
  ]
]

module _ (fp : FloatOps) (read_float : fp.Float → Stream → fp.Float × Stream)
    (no_growth : (old : fp.Float) (f : Stream)
      → length ((read_float old f).1.rest) ≤ length f.rest) where
  open fp use {Float}

  -- The stream after a round.
  abbrev Shorter : Stream → Config Float × Stream → Type 0
  Shorter f cf = length (cf.1.rest) ≤ length f.rest

  read_word_value-le :
      (key : Text) (c : Config Float) (f : Stream)
      → Yields (Shorter f) (read_word_value fp read_float key c f)
  unfolding read_word_value
  read_word_value-le key c f = elim (Bool-cases (same_text key (codes "act_fn"))) [
    | inl act ↦
        rw act (
          Yields-bind (Yields-anything (act_fn_of ((read_word f).0)))
            λ a _. yields (read_word-le f))
    | inr other ↦ elim (Bool-cases (same_text key (codes "rope_scaling"))) [
      | inl rope ↦
          rw (other, rope)
            (Yields-bind (Yields-anything (rope_scaling_of ((read_word f).0)))
              λ a _. yields (read_word-le f))
      | inr unknown ↦ rw (other, unknown) (yields (read_word-le f))
    ]
  ]

  read_field-le :
      (i : Option (Field Float ℕ)) (x : Option (Field Float Float)) (key : Text) (c : Config Float)
      (f : Stream)
      → Yields (Shorter f) (read_field fp read_float i x key c f)
  unfolding read_field
  read_field-le (some (get, put)) x key c f = yields (read_int-le (get c) f)
  read_field-le none (some (get, put)) key c f = yields (no_growth (get c) f)
  read_field-le none none key c f = read_word_value-le key c f

  -- A loop that leaves one result whether it is given `fuel` rounds or `more`.
  abbrev IsEnded : ℕ → ℕ → Config Float → Stream → Type 0
  IsEnded fuel more c f =
      (r : Result (Config Float)) × (read_fields fp read_float fuel c f ≡ some r)
      × (read_fields fp read_float more c f ≡ some r)

  -- With a round for each byte that is left and one more, the loop of load_config ends with a configuration
  -- or an exception, and further rounds change nothing, if reading a float adds no bytes to the stream.
  pub read_fields_enough :
      (fuel more : ℕ) (c : Config Float) (f : Stream)
      → length f.rest < fuel
      → fuel ≤ more
      → (r : Result (Config Float)) × (read_fields fp read_float fuel c f ≡ some r)
        × (read_fields fp read_float more c f ≡ some r)
  unfolding read_fields
  read_fields_enough zero more c f h le = absurd (omega arith)
  read_fields_enough (suc fuel) zero c f h le = absurd (omega arith)
  read_fields_enough (suc fuel) (suc more) c f h le = elim (Bool-cases ((read_word f).1.failed)) [
    | inl ended ↦ (ok c, simp ended refl, simp ended refl)
    | inr again ↦ simp again (
        ends_after _ (read_field-le _ _ ((read_word f).0) c ((read_word f).1)) (λ d g lt.
          read_fields_enough fuel more d g (omega (arith, read_word-lt f again)) (omega arith)))
  ]
    where
      ends_after :
          (m : Result (Config Float × Stream))
          → Yields (Shorter ((read_word f).1)) m
          → ((d : Config Float) (g : Stream)
              → length g.rest ≤ length ((read_word f).1.rest)
              → IsEnded fuel more d g)
          → (r : Result (Config Float)) × (after_round fp read_float m
                (λ c f. read_fields fp read_float fuel c f)
              ≡ some r)
            × (after_round fp read_float m (λ c f. read_fields fp read_float more c f) ≡ some r)
      ends_after (ok (d, g)) (yields le) ih = ih d g le
      ends_after (throw e) throws ih = (throw e, refl, refl)
