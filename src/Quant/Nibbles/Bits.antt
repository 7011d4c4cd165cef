-- ===== src/Quant/Nibbles/Bits.antt =====
-- cpp/src/quant.cpp: the bits of two codes in a byte.
use Prim.Native.Nat.{bit_or}
use nanoinfer.Prelude.{
  ℕ, zero, suc, ◌+◌, ◌-◌, ◌*◌, ◌%◌, ◌≤◌, ◌<◌, ◌≡◌, refl, ap, ◌∙◌, Bool, true, false, ◌&&◌, arith,
  ℕ_discrete, ltb, ◌==◌,
}
use nanoinfer.Prelude.{ℤ, pos, negsuc}
use nanoinfer.Quant.Nibbles.{shifted, unshifted}

-- A test that holds at every number below `n`.
abbrev all_below : ℕ → (ℕ → Bool) → Bool
all_below zero p = true
all_below (suc n) p = p n && all_below n p

and_left : (a b : Bool) → (a && b) ≡ true → a ≡ true
and_left a b h = ground arith

and_right : (a b : Bool) → (a && b) ≡ true → b ≡ true
and_right a b h = ground arith

all_below-true : (n : ℕ) (p : ℕ → Bool) → all_below n p ≡ true → (i : ℕ) → i < n → p i ≡ true
all_below-true zero p h i lo = absurd (omega arith)
all_below-true (suc n) p h i lo = elim (ℕ_discrete i n) [
  | yes e ↦ ap p e ∙ and_left (p n) (all_below n p) h
  | no ne ↦ all_below-true n p (and_right (p n) (all_below n p) h) i (omega arith)
]

-- Two nibbles ORed together are added.
disjoint : ℕ → ℕ → Bool
disjoint low high = bit_or low (high * 16) == low + high * 16

pub bit_or_nibbles :
    (low high : ℕ) → low < 16 → high < 16 → bit_or low (high * 16) ≡ low + high * 16
unfolding disjoint
bit_or_nibbles low high a b =
    let h : disjoint low high ≡ true =
      all_below-true 16 (disjoint low)
        (all_below-true 16 (λ l. all_below 16 (disjoint l)) refl low a) high b in
    ground arith

pub bit_or_zero : (x : ℕ) → x < 16 → bit_or 0 x ≡ x
bit_or_zero x h =
    let e : (bit_or 0 x == x) ≡ true = all_below-true 16 (λ y. bit_or 0 y == y) refl x h in
    ground arith

-- A code that four bits hold.
abbrev pub IsCode : ℤ → Type 0
IsCode (pos n) = n ≤ 7
IsCode (negsuc n) = n ≤ 6

pub shifted-lt : (c : ℤ) → IsCode c → shifted c < 16
unfolding shifted
shifted-lt (pos n) h = omega arith
shifted-lt (negsuc n) h = omega arith

unshifted_high : (m : ℕ) → 8 ≤ m → unshifted m ≡ pos (m - 8)
unfolding unshifted
unshifted_high m h = let e : ltb m 8 ≡ false = ground arith in rw e refl

unshifted_low : (m : ℕ) → m < 8 → unshifted m ≡ negsuc (7 - m)
unfolding unshifted
unshifted_low m h = let e : ltb m 8 ≡ true = ground arith in rw e refl

pub unshifted-shifted : (c : ℤ) → IsCode c → unshifted (shifted c) ≡ c
unfolding shifted
unshifted-shifted (pos n) h = unshifted_high ((n + 8) % 256) (omega arith) ∙ ap pos (omega arith)
unshifted-shifted (negsuc n) h =
    unshifted_low ((263 - n % 256) % 256) (omega arith) ∙ ap negsuc (omega arith)
