-- ===== src/Config/Stream.antt =====
-- The formatted input of `std::ifstream` that config.cpp uses: `f >> word` and `f >> integer`.
use nanoinfer.Prelude.{
  ℕ, ◌+◌, ◌*◌, ◌-◌, ◌^◌, Bool, true, false, not, ◌&&◌, ◌||◌, [], ◌∷◌, leb, ltb, ◌==◌, if◌then◌else◌,
}
use nanoinfer.Prelude.Text.{Text}

-- The bytes that are left, and whether neither `eofbit` nor `failbit` is set.
pub record Stream : Type 0 where
  pub rest : Text
  pub good : Bool
  -- `!f`: `failbit` is set.
  pub failed : Bool

-- `isspace` in the C locale.
abbrev pub is_space : ℕ → Bool
is_space c = c == 32 || (leb 9 c && leb c 13)

unfoldable pub skip_spaces : Text → Text
skip_spaces [] = []
skip_spaces (c ∷ s) = let rest = skip_spaces s in if is_space c then rest else c ∷ s

-- The word at the front, and what follows it.
unfoldable pub span_word : Text → Text × Text
span_word [] = ([], [])
span_word (c ∷ s) =
    let (word, rest) = span_word s in if is_space c then ([], c ∷ s) else (c ∷ word, rest)

abbrev pub at_end : Text → Bool
at_end [] = true
at_end (c ∷ s) = false

-- A stream at its end refuses input.
abbrev pub refuse : Text → Stream
refuse rest = record { rest = rest; good = false; failed = true }

-- The stream after input that stopped before `rest`.
abbrev pub stopped : Text → Stream
stopped rest = record { rest = rest; good = not (at_end rest); failed = false }

-- `f >> word` for a word that is empty before.
unfoldable pub read_word : Stream → Text × Stream
unfolding skip_spaces span_word
read_word f =
    let s = skip_spaces f.rest in
    if not f.good || at_end s
    then ([], refuse s)
    else let (word, rest) = span_word s in (word, stopped rest)

abbrev pub is_digit : ℕ → Bool
is_digit c = leb 48 c && leb c 57

-- The value of the digits at the front, after `acc`, and what follows them.
unfoldable pub span_digits : ℕ → Text → ℕ × Text
span_digits acc [] = (acc, [])
span_digits acc (c ∷ s) =
    let found = span_digits (acc * 10 + (c - 48)) s in if is_digit c then found else (acc, c ∷ s)

abbrev pub starts_digit : Text → Bool
starts_digit [] = false
starts_digit (c ∷ s) = is_digit c

-- The sign at the front, and what follows it.
abbrev pub split_sign : Text → Bool × Text
split_sign [] = (false, [])
split_sign (c ∷ s) = if c == 45 then (true, s) else if c == 43 then (false, s) else (false, c ∷ s)

-- `strtoll` on digits: out of range, the nearest bound.
abbrev pub int64_of : Bool → ℕ → ℕ × Bool
int64_of true n =
    if ltb (2 ^ 63) n then (2 ^ 63, false) else (if n == 0 then 0 else 2 ^ 64 - n, true)
int64_of false n = if leb (2 ^ 63) n then (2 ^ 63 - 1, false) else (n, true)

-- `f >> x` for an `int64_t` that holds `old`: a stream at its end leaves it, text that is no number makes it 0.
unfoldable pub read_int : ℕ → Stream → ℕ × Stream
unfolding skip_spaces span_digits
read_int old f =
    let s = skip_spaces f.rest in
    if not f.good || at_end s
    then (old, refuse s)
    else let (negative, number) = split_sign s in
      if starts_digit number
      then (let (n, rest) = span_digits 0 number in
          let (x, in_range) = int64_of negative n in
          (x, record { rest = rest; good = in_range && not (at_end rest); failed = not in_range }))
      else (0, refuse number)
