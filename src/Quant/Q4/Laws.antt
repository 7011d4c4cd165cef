-- ===== src/Quant/Q4/Laws.antt =====
-- cpp/src/quant.cpp: the codes of a quantized matrix, and the two paths of linear_q4.
use nanoinfer.Prelude.{
  ℕ, ℕ_discrete, false, ◌-◌, ℤ, pos, ◌+◌, ◌*◌, ◌/◌, ◌%◌, ◌<◌, ◌≤◌, ◌≡◌, ◌≢◌, refl, sym, ap, ◌∙◌,
  inl, inr, Bool-cases, List, length, Option, ok, true, ==_refl, leb, length-set, length-replicate,
  set, replicate, get_or-set_self, get_or-set_ne, arith, ◌==◌, if◌then◌else◌,
}
use nanoinfer.Prelude.Loops.{for_range-shift, for_range-cong, for_range-hit, for_range-keep}
use nanoinfer.Floats.{FloatOps}
use nanoinfer.Tensor.{Tensor, at2}
use nanoinfer.Tensor.Access.{Is2d}
use nanoinfer.Tensor.Host.{IsHost-Is2d}
use nanoinfer.Ops.Attention.{flat}
use nanoinfer.Ops.Linear.{bias_at, bias_fits, by_channel}
use nanoinfer.Ops.Linear.Laws.{by_channel-at2, by_channel-IsHost}
use nanoinfer.Quant.Nibbles.{unshifted, q4_code, q4_row_bytes, row_at}
use nanoinfer.Quant.Rounding.{dot_qf32}
use nanoinfer.Quant.Q8.{code_at, scale_at}
use nanoinfer.Quant.Q4.{
  Q4Tensor, check_q4tensor, linear_q4, unpack_min_rows, unpack_pairs, unpack_q4, scratch, dot_q4,
}

module _ (row : ℕ → ℕ) (width : ℕ) where
  abbrev IsSized : List ℤ → Type 0
  IsSized out = length out ≡ width

  abbrev round : ℕ → List ℤ → List ℤ
  round p out =
      let byte = row p in
      set (set out (2 * p) (unshifted (byte % 16))) (2 * p + 1) (unshifted (byte / 16))

  round-IsSized : (p : ℕ) (out : List ℤ) → IsSized out → IsSized (round p out)
  round-IsSized p out v =
      length-set (set out (2 * p) (unshifted (row p % 16))) (2 * p + 1) _
      ∙ length-set out (2 * p) _
      ∙ v

  unpack_pairs-IsSized : (n : ℕ) (out : List ℤ) → IsSized out → IsSized (unpack_pairs row n 0 out)
  unfolding unpack_pairs
  unpack_pairs-IsSized n out v = for_range-keep IsSized round round-IsSized n 0 out v

  -- Both codes of byte `j / 2` are there after its round.
  round_hit :
      (j : ℕ) (out : List ℤ)
      → 2 * (j / 2) + 1 < width
      → IsSized out
      → code_at (round (j / 2) out) j ≡ q4_code row j
  unfolding q4_code
  round_hit j out h v = elim (Bool-cases (j % 2 == 1)) [
    | inl odd ↦
        let column : j ≡ 2 * (j / 2) + 1 = ground arith in
        rw odd (
          ap (code_at (round (j / 2) out)) column
          ∙ get_or-set_self (set out (2 * (j / 2)) (unshifted (row (j / 2) % 16))) (2 * (j / 2) + 1)
              _ (pos 0) (rw (length-set out (2 * (j / 2)) (unshifted (row (j / 2) % 16)), v) h))
    | inr even ↦
        let first : j ≡ 2 * (j / 2) = ground arith in
        rw even (
          get_or-set_ne (set out (2 * (j / 2)) (unshifted (row (j / 2) % 16))) (2 * (j / 2) + 1) j _
            (pos 0) (ground arith)
          ∙ ap (code_at (set out (2 * (j / 2)) (unshifted (row (j / 2) % 16)))) first
          ∙ get_or-set_self out (2 * (j / 2)) _ (pos 0) (omega (arith, v)))
  ]

  round_miss : (j p : ℕ) (out : List ℤ) → p ≢ j / 2 → code_at (round p out) j ≡ code_at out j
  round_miss j p out ne =
      get_or-set_ne (set out (2 * p) (unshifted (row p % 16))) (2 * p + 1) j _ (pos 0)
        (λ e. ne (omega (arith, e)))
      ∙ get_or-set_ne out (2 * p) j _ (pos 0) (λ e. ne (omega (arith, e)))

  -- The codes of the first `n` bytes.
  unpack_pairs-q4_code :
      (n j : ℕ) (out : List ℤ)
      → 2 * n ≤ width
      → j < 2 * n
      → IsSized out
      → code_at (unpack_pairs row n 0 out) j ≡ q4_code row j
  unfolding unpack_pairs
  unpack_pairs-q4_code n j out h lt v =
      for_range-hit IsSized round round-IsSized (λ o. code_at o j) (j / 2) (q4_code row j) n 0 out
        (omega arith) (omega arith) (λ o. round_hit j o (omega arith))
        (λ k o _ _ ne _. round_miss j k o ne) v

  -- Every code of a row is unpacked.
  pub scratch-q4_code : (j : ℕ) → j < width → code_at (scratch row width) j ≡ q4_code row j
  unfolding unpack_q4 q4_code
  scratch-q4_code j h = elim (Bool-cases (width % 2 == 1)) [
    | inl odd ↦ rw odd (elim (ℕ_discrete j (width - 1)) [
      | yes e ↦
          let mid : width / 2 ≡ j / 2 = ground arith in
          let low : (j % 2 == 1) ≡ false = ground arith in
          ap (code_at (set pairs (width - 1) (unshifted (row (width / 2) % 16)))) e
          ∙ get_or-set_self pairs (width - 1) _ (pos 0)
              (rw (unpack_pairs-IsSized (width / 2) blank blank-IsSized) (omega arith))
          ∙ rw (low, mid) refl
      | no ne ↦
          get_or-set_ne pairs (width - 1) j _ (pos 0) (λ e. ne (sym e))
          ∙ unpack_pairs-q4_code (width / 2) j blank (omega arith) (ground arith) blank-IsSized
    ])
    | inr even ↦
        rw even
          (unpack_pairs-q4_code (width / 2) j blank (omega arith) (ground arith) blank-IsSized)
  ]
    where
      blank : List ℤ
      blank = replicate width (pos 0)

      blank-IsSized : IsSized blank
      blank-IsSized = length-replicate width (pos 0)

      pairs : List ℤ
      pairs = unpack_pairs row (width / 2) 0 blank

module _ (fp : FloatOps) where
  open fp use {Float, Double, zero_f, narrow, widen, add_d, mul_d, of_ℤ_d}

  -- The dot product over unpacked codes is the one that reads each nibble, on any block of the row.
  pub dot_qf32-scratch :
      (x : ℕ → Float) (row : ℕ → ℕ) (width from n : ℕ)
      → from + n ≤ width
      → dot_qf32 fp (λ t. x (from + t)) (λ t. code_at (scratch row width) (from + t)) n
        ≡ dot_q4 fp x row from n
  unfolding dot_qf32 dot_q4
  dot_qf32-scratch x row width from n h =
      for_range-cong _ _ n 0 _ (λ k acc lo hi.
        ap (λ q. add_d acc (mul_d (widen (x (from + k))) (of_ℤ_d q)))
          (scratch-q4_code row width (from + k) (omega arith)))
      ∙ for_range-shift (λ j acc. add_d acc (mul_d (widen (x j)) (of_ℤ_d (q4_code row j)))) from n 0
          _
      ∙ ap (λ k. dot_q4 fp x row k n) (omega arith)

  dot_qf32-scratch_row :
      (x : ℕ → Float) (row : ℕ → ℕ) (width : ℕ)
      → dot_qf32 fp x (code_at (scratch row width)) width ≡ dot_q4 fp x row 0 width
  unfolding dot_qf32 dot_q4
  dot_qf32-scratch_row x row width = for_range-cong _ _ width 0 _ (λ k acc lo hi.
      ap (λ q. add_d acc (mul_d (widen (x k)) (of_ℤ_d q)))
        (scratch-q4_code row width k (omega arith)))

  module _ (m : ℕ) (x : Tensor Float) (w : Q4Tensor Float) (bias : Option (Tensor Float))
      (wx : Is2d m w.width x) (sound : check_q4tensor fp w ≡ ok tt)
      (fits : bias_fits fp bias w.out ≡ true) where
    unfoldable cell : ℕ → ℕ → Float
    unfolding dot_q4 unpack_q4 dot_qf32
    cell o i =
        let row = row_at w.q (o * q4_row_bytes w.width) in
        let xr : ℕ → Float = λ t. flat fp x (i * w.width + t) in
        narrow (
          add_d
            (mul_d
              (if leb unpack_min_rows m
                then dot_qf32 fp xr (code_at (scratch row w.width)) w.width
                else dot_q4 fp xr row 0 w.width)
              (widen (scale_at fp w.scale o)))
            (bias_at fp bias o))

    dot_fused :
        (xr : ℕ → Float) (row : ℕ → ℕ)
        → (if leb unpack_min_rows m
            then dot_qf32 fp xr (code_at (scratch row w.width)) w.width
            else dot_q4 fp xr row 0 w.width)
          ≡ dot_q4 fp xr row 0 w.width
    dot_fused xr row = elim (Bool-cases (leb unpack_min_rows m)) [
      | inl many ↦ rw many (dot_qf32-scratch_row xr row w.width)
      | inr few ↦ rw few refl
    ]

    -- Whether or not the rows are unpacked first, row `i` and channel `o` of the product of a sound four-bit
    -- weight is the dot product with the codes that `q4_code` reads, times the scale of the channel, plus its bias.
    pub linear_q4-at2 :
        (y : Tensor Float) × (linear_q4 fp x w bias ≡ ok y)
        × Is2d m w.out y
        × ((i o : ℕ)
            → i < m
            → o < w.out
            → at2 zero_f y i o
              ≡ narrow (
                  add_d
                    (mul_d
                      (dot_q4 fp
                        (λ t. flat fp x (i * w.width + t))
                        (row_at w.q (o * q4_row_bytes w.width))
                        0
                        w.width)
                      (widen (scale_at fp w.scale o)))
                    (bias_at fp bias o)))
    unfolding linear_q4 cell
    linear_q4-at2 = (
      by_channel fp m w.out cell,
      simp (sound, wx.shape, ==_refl w.width, fits) refl,
      IsHost-Is2d m w.out _ (by_channel-IsHost fp m w.out cell),
      λ i o hi ho.
          by_channel-at2 fp m w.out cell i o hi ho
          ∙ ap (λ d. narrow (add_d (mul_d d (widen (scale_at fp w.scale o))) (bias_at fp bias o)))
              (dot_fused (λ t. flat fp x (i * w.width + t))
                (row_at w.q (o * q4_row_bytes w.width))),
    )
