-- ===== src/Quant/Nibbles/Tests.antt =====
-- A row of three codes, and the witnesses of the theorems on packing.
use nanoinfer.Prelude.{ℕ, ℤ, pos, negsuc, zero, suc, ◌≡◌, refl, List, [], ◌∷◌}
use nanoinfer.Prelude.Loops.{for_range}
use nanoinfer.Quant.Nibbles.{q4_row_bytes, shifted, pack_nibble, pack_row}

-- 3, -7 and 7.
abbrev code : ℕ → ℤ
code zero = pos 3
code (suc zero) = negsuc 6
code (suc (suc j)) = pos 7

-- The second row of a matrix with three columns.
abbrev buffer : List ℕ
buffer = 9 ∷ 9 ∷ 0 ∷ 0 ∷ []

-- The low nibble is 3 + 8, the high one -7 + 8.
bytes_of_row : pack_row 2 3 code buffer ≡ 9 ∷ 9 ∷ 27 ∷ 15 ∷ []
unfolding pack_row pack_nibble shifted q4_row_bytes for_range
bytes_of_row = refl
