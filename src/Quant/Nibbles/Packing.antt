-- ===== src/Quant/Nibbles/Packing.antt =====
-- cpp/src/quant.cpp: the codes of a packed row come back.
use Prim.Native.Nat.{bit_or}
use nanoinfer.Prelude.{
  ℕ, zero, suc, ◌+◌, ◌*◌, ◌/◌, ◌%◌, ◌≤◌, ◌<◌, ◌≡◌, ◌≢◌, refl, sym, ◌⊎◌, inl, inr, ap, ap₂,
  get_or-set_self, get_or-set_ne, dec_lt, subst, ◌∙◌, true, false, List, arith, length, get_or, set,
  ℕ_discrete, length-set, Bool-cases, ltb, ◌==◌, if◌then◌else◌,
}
use nanoinfer.Prelude.Loops.{for_range}
use nanoinfer.Prelude.{ℤ}
use nanoinfer.Quant.Nibbles.{
  row_at, q4_row_bytes, shifted, unshifted, pack_nibble, q4_code, pack_row,
}
use nanoinfer.Quant.Nibbles.Bits.{
  IsCode, bit_or_nibbles, bit_or_zero, shifted-lt, unshifted-shifted,
}

-- The nibble of column `j` after the first `i` columns are packed.
abbrev pub nibble_at : ℕ → (ℕ → ℤ) → ℕ → ℕ
nibble_at i code j = if ltb j i then shifted (code j) else 0

-- The bytes after the first `i` columns of the row at `base` are packed into `start`.
pub record IsPacked (base width i : ℕ) (code : ℕ → ℤ) (start q : List ℕ) : Type 0 where
  pub sized : length q ≡ length start
  pub bytes :
      (m : ℕ)
      → m < q4_row_bytes width
      → get_or q (base + m) 0 ≡ nibble_at i code (2 * m) + 16 * nibble_at i code (2 * m + 1)
  pub others :
      (k : ℕ) → (k < base) ⊎ (base + q4_row_bytes width ≤ k) → get_or q k 0 ≡ get_or start k 0

module _ (code : ℕ → ℤ) where
  nibble_at_below : (i j : ℕ) → j < i → nibble_at i code j ≡ shifted (code j)
  nibble_at_below i j h = let e : ltb j i ≡ true = ground arith in rw e refl

  nibble_at_above : (i j : ℕ) → i ≤ j → nibble_at i code j ≡ 0
  nibble_at_above i j h = let e : ltb j i ≡ false = ground arith in rw e refl

  nibble_at_other : (i j : ℕ) → j ≢ i → nibble_at (i + 1) code j ≡ nibble_at i code j
  nibble_at_other i j ne = elim (dec_lt j i) [
    | yes old ↦ nibble_at_below (i + 1) j (omega arith) ∙ sym (nibble_at_below i j old)
    | no later ↦ nibble_at_above (i + 1) j (omega arith) ∙ sym (nibble_at_above i j (omega arith))
  ]

  -- What a byte holds after the first `i` columns.
  abbrev byte_at : ℕ → ℕ → ℕ
  byte_at i m = nibble_at i code (2 * m) + 16 * nibble_at i code (2 * m + 1)

  odd_byte :
      (m x : ℕ)
      → IsCode (code (2 * m))
      → IsCode (code (2 * m + 1))
      → x ≡ byte_at (2 * m + 1) m
      → bit_or x (shifted (code (2 * m + 1)) * 16 % 256) ≡ byte_at (2 * m + 1 + 1) m
  odd_byte m x low high e =
      let lo : shifted (code (2 * m)) < 16 = shifted-lt (code (2 * m)) low in
      let hi : shifted (code (2 * m + 1)) < 16 = shifted-lt (code (2 * m + 1)) high in
      let old : x ≡ shifted (code (2 * m)) = omega (
        arith,
        e,
        nibble_at_below (2 * m + 1) (2 * m) (omega arith),
        nibble_at_above (2 * m + 1) (2 * m + 1) (omega arith),
      ) in
      let fits : shifted (code (2 * m + 1)) * 16 % 256 ≡ shifted (code (2 * m + 1)) * 16 =
        omega arith in
      let both : bit_or (shifted (code (2 * m))) (shifted (code (2 * m + 1)) * 16)
          ≡ shifted (code (2 * m)) + shifted (code (2 * m + 1)) * 16 =
        bit_or_nibbles (shifted (code (2 * m))) (shifted (code (2 * m + 1))) lo hi in
      ap₂ bit_or old fits
      ∙ omega (
        arith,
        both,
        nibble_at_below (2 * m + 1 + 1) (2 * m) (omega arith),
        nibble_at_below (2 * m + 1 + 1) (2 * m + 1) (omega arith),
      )

  even_byte :
      (m x : ℕ)
      → IsCode (code (2 * m))
      → x ≡ byte_at (2 * m) m
      → bit_or x (shifted (code (2 * m))) ≡ byte_at (2 * m + 1) m
  even_byte m x low e =
      let old : x ≡ 0 = omega (
        arith,
        e,
        nibble_at_above (2 * m) (2 * m) (omega arith),
        nibble_at_above (2 * m) (2 * m + 1) (omega arith),
      ) in
      ap (λ y. bit_or y (shifted (code (2 * m)))) old
      ∙ bit_or_zero (shifted (code (2 * m))) (shifted-lt (code (2 * m)) low)
      ∙ omega (
        arith,
        nibble_at_below (2 * m + 1) (2 * m) (omega arith),
        nibble_at_above (2 * m + 1) (2 * m + 1) (omega arith),
      )

  other_byte : (i m : ℕ) → i / 2 ≢ m → byte_at i m ≡ byte_at (i + 1) m
  other_byte i m ne =
      omega (
        arith,
        nibble_at_other i (2 * m) (omega arith),
        nibble_at_other i (2 * m + 1) (omega arith),
      )

  module _ (base width i : ℕ) (start row : List ℕ) (codes : (j : ℕ) → j < width → IsCode (code j))
      (h : i < width) (room : base + q4_row_bytes width ≤ length start)
      (v : IsPacked base width i code start row) where
    -- A write to byte `i / 2` that puts the nibble there packs one more column.
    write-IsPacked :
        (x : ℕ)
        → x ≡ byte_at (i + 1) (i / 2)
        → IsPacked base width (i + 1) code start (set row (base + i / 2) x)
    unfolding q4_row_bytes
    write-IsPacked x e = record {
      sized = length-set row (base + i / 2) x ∙ v.sized;
      bytes = λ m hm. elim (ℕ_discrete (i / 2) m) [
        | yes here ↦
            ap (λ k. get_or (set row (base + i / 2) x) (base + k) 0) (sym here)
            ∙ get_or-set_self row (base + i / 2) x 0 (omega (arith, v.sized))
            ∙ e
            ∙ ap (byte_at (i + 1)) here
        | no there ↦
            get_or-set_ne row (base + i / 2) (base + m) x 0 (λ k. there (omega (arith, k)))
            ∙ v.bytes m hm
            ∙ other_byte i m there
      ];
      others = λ k out. get_or-set_ne row (base + i / 2) k x 0 (ground arith) ∙ v.others k out;
    }

    pack_nibble-IsPacked : IsPacked base width (i + 1) code start (pack_nibble base row i (code i))
    unfolding pack_nibble q4_row_bytes
    pack_nibble-IsPacked = elim (Bool-cases (i % 2 == 1)) [
      | inl odd ↦
          let e : 2 * (i / 2) + 1 ≡ i = ground arith in
          simp odd (
            write-IsPacked _ (
              subst
                (λ k.
                  bit_or (get_or row (base + i / 2) 0) (shifted (code k) * 16 % 256)
                  ≡ byte_at (k + 1) (i / 2))
                e
                (odd_byte (i / 2) (get_or row (base + i / 2) 0) (codes (2 * (i / 2)) (omega arith))
                  (codes (2 * (i / 2) + 1) (omega arith))
                  (v.bytes (i / 2) inside ∙ ap (λ k. byte_at k (i / 2)) (sym e)))))
      | inr even ↦
          let e : 2 * (i / 2) ≡ i = ground arith in
          simp even (
            write-IsPacked _ (
              subst
                (λ k.
                  bit_or (get_or row (base + i / 2) 0) (shifted (code k)) ≡ byte_at (k + 1) (i / 2))
                e
                (even_byte (i / 2) (get_or row (base + i / 2) 0) (codes (2 * (i / 2)) (omega arith))
                  (v.bytes (i / 2) inside ∙ ap (λ k. byte_at k (i / 2)) (sym e)))))
    ]
      where
        inside : i / 2 < q4_row_bytes width
        inside = omega arith

  module _ (base width : ℕ) (start : List ℕ) (codes : (j : ℕ) → j < width → IsCode (code j))
      (room : base + q4_row_bytes width ≤ length start) where
    pub pack_range-IsPacked :
        (n i : ℕ) (row : List ℕ)
        → i + n ≤ width
        → IsPacked base width i code start row
        → IsPacked base width
            (i + n)
            code
            start
            (for_range n i (λ j r. pack_nibble base r j (code j)) row)
    unfolding for_range
    pack_range-IsPacked zero i row e v =
        subst (λ k. IsPacked base width k code start row) (omega arith) v
    pack_range-IsPacked (suc n) i row e v =
        subst
          (λ k. IsPacked base width k code start (
            for_range n (i + 1) (λ j r. pack_nibble base r j (code j))
              (pack_nibble base row i (code i))))
          (omega arith)
          (pack_range-IsPacked n (i + 1) (pack_nibble base row i (code i)) (omega arith)
            (pack_nibble-IsPacked base width i start row codes (omega arith) room v))

    pub zeros-IsPacked :
        ((m : ℕ) → m < q4_row_bytes width → get_or start (base + m) 0 ≡ 0)
        → IsPacked base width 0 code start start
    zeros-IsPacked blank = record {
      sized = refl;
      bytes = λ m h.
          blank m h
          ∙ omega (
            arith,
            nibble_at_above 0 (2 * m) (omega arith),
            nibble_at_above 0 (2 * m + 1) (omega arith),
          );
      others = λ k out. refl;
    }

  module _ (base width : ℕ) (start q : List ℕ) (codes : (j : ℕ) → j < width → IsCode (code j))
      (v : IsPacked base width width code start q) where
    -- The nibble that `q4_code` reads.
    nibble_of_column :
        (j : ℕ)
        → j < width
        → (if j % 2 == 1 then row_at q base (j / 2) / 16 else row_at q base (j / 2) % 16)
          ≡ shifted (code j)
    unfolding q4_row_bytes
    nibble_of_column j h = elim (Bool-cases (j % 2 == 1)) [
      | inl odd ↦
          let e : 2 * (j / 2) + 1 ≡ j = ground arith in
          rw odd (
            omega (
              arith,
              byte,
              ap (nibble_at width code) e,
              nibble_at_below width j h,
              nibble_at_below width (2 * (j / 2)) (omega arith),
              shifted-lt (code (2 * (j / 2))) (codes (2 * (j / 2)) (omega arith)),
            ))
      | inr even ↦
          let e : 2 * (j / 2) ≡ j = ground arith in
          rw even (
            omega (
              arith,
              byte,
              ap (nibble_at width code) e,
              nibble_at_below width j h,
              shifted-lt (code j) (codes j h),
            ))
    ]
      where
        byte : row_at q base (j / 2) ≡ byte_at width (j / 2)
        byte = v.bytes (j / 2) (omega arith)

    -- Every code of a packed row is read back.
    pub q4_code-IsPacked : (j : ℕ) → j < width → q4_code (row_at q base) j ≡ code j
    unfolding q4_code
    q4_code-IsPacked j h =
        ap unshifted (nibble_of_column j h) ∙ unshifted-shifted (code j) (codes j h)

module _ (base width : ℕ) (code : ℕ → ℤ) (start : List ℕ)
    (codes : (j : ℕ) → j < width → IsCode (code j))
    (room : base + q4_row_bytes width ≤ length start)
    (blank : (m : ℕ) → m < q4_row_bytes width → get_or start (base + m) 0 ≡ 0) where
  pub pack_row-IsPacked : IsPacked base width width code start (pack_row base width code start)
  unfolding pack_row
  pack_row-IsPacked =
      subst (λ i. IsPacked base width i code start (pack_row base width code start)) (omega arith)
        (pack_range-IsPacked code base width start codes room width 0 start (omega arith)
          (zeros-IsPacked code base width start codes room blank))

  pub q4_code-pack_row :
      (length (pack_row base width code start) ≡ length start)
      × ((j : ℕ) → j < width → q4_code (row_at (pack_row base width code start) base) j ≡ code j)
      × ((k : ℕ)
          → (k < base) ⊎ (base + q4_row_bytes width ≤ k)
          → get_or (pack_row base width code start) k 0 ≡ get_or start k 0)
  q4_code-pack_row =
      let v = pack_row-IsPacked in
      (
        v.sized,
        q4_code-IsPacked code base width start (pack_row base width code start) codes v,
        v.others,
      )
