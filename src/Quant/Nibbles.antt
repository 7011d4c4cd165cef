-- ===== src/Quant/Nibbles.antt =====
-- cpp/src/quant.cpp: four-bit codes packed two to a byte. A byte is a number below 256.
pub mod Bits
pub mod Packing
mod Tests
use Prim.Native.Nat.{bit_or}
use nanoinfer.Prelude.{
  ℕ, ℤ, pos, negsuc, ◌+◌, ◌-◌, ◌*◌, ◌/◌, ◌%◌, List, length, get_or, set, ltb, ◌==◌, if◌then◌else◌,
}
use nanoinfer.Prelude.Loops.{for_range}

-- `(in + 1) / 2`
unfoldable pub q4_row_bytes : ℕ → ℕ
q4_row_bytes width = (width + 1) / 2

-- `static_cast<uint8_t>(code + 8)`
unfoldable pub shifted : ℤ → ℕ
shifted (pos n) = (n + 8) % 256
shifted (negsuc n) = (263 - n % 256) % 256

-- `int(nib) - 8`
unfoldable pub unshifted : ℕ → ℤ
unshifted nib = if ltb nib 8 then negsuc (7 - nib) else pos (nib - 8)

-- `row[i] |= x`
abbrev pub or_byte : List ℕ → ℕ → ℕ → List ℕ
or_byte row i x = set row i (bit_or (get_or row i 0) x)

-- `pack_nibble(row, j, code)` for the row at `base`.
unfoldable pub pack_nibble : ℕ → List ℕ → ℕ → ℤ → List ℕ
unfolding shifted
pack_nibble base row j code =
    let nib = shifted code in
    if j % 2 == 1
    then or_byte row (base + j / 2) (nib * 16 % 256)
    else or_byte row (base + j / 2) nib

-- A row that is only read is the function that reads from it.
unfoldable pub q4_code : (ℕ → ℕ) → ℕ → ℤ
unfolding unshifted
q4_code row j =
    let byte = row (j / 2) in let nib = if j % 2 == 1 then byte / 16 else byte % 16 in unshifted nib

-- The row of bytes at `base`.
abbrev pub row_at : List ℕ → ℕ → ℕ → ℕ
row_at q base m = get_or q (base + m) 0

-- The nibbles of all columns are ORed into the row at `base`.
unfoldable pub pack_row : ℕ → ℕ → (ℕ → ℤ) → List ℕ → List ℕ
unfolding pack_nibble
pack_row base width code q = for_range width 0 (λ j row. pack_nibble base row j (code j)) q
