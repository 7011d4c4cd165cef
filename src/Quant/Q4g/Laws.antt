-- ===== src/Quant/Q4g/Laws.antt =====
-- cpp/src/quant.cpp: the two paths of linear_q4g, and groups as wide as a row.
use nanoinfer.Prelude.{
  ℕ, ◌+◌, ◌*◌, ◌<◌, ◌≤◌, ◌≡◌, refl, ap, ◌∙◌, true, Bool-cases, inl, inr, Option, ok, if◌then◌else◌,
  leb, ==_refl, arith, dec_lt,
}
use nanoinfer.Prelude.Arith.{ceil-le}
use nanoinfer.Prelude.Loops.{for_range-cong}
use nanoinfer.Floats.{FloatOps}
use nanoinfer.Tensor.{Tensor, at2}
use nanoinfer.Tensor.Access.{Is2d}
use nanoinfer.Tensor.Host.{IsHost-Is2d}
use nanoinfer.Ops.Attention.{flat}
use nanoinfer.Ops.Linear.{bias_at, bias_fits, by_channel}
use nanoinfer.Ops.Linear.Laws.{by_channel-at2, by_channel-IsHost}
use nanoinfer.Quant.Nibbles.{q4_row_bytes, row_at}
use nanoinfer.Quant.Rounding.{n_blocks, dot_qf32}
use nanoinfer.Quant.Q8.{code_at, scale_at}
use nanoinfer.Quant.Q4.{unpack_min_rows, scratch, dot_q4}
use nanoinfer.Quant.Q4.Laws.{dot_qf32-scratch}
use nanoinfer.Quant.Q4g.{Q4gTensor, check_q4gtensor, group_ok, block_len, sum_blocks, linear_q4g}

module _ (fp : FloatOps) where
  open fp use {Float, Double, zero_f, narrow, widen, add_d, mul_d}

  sum_blocks-cong :
      (width group : ℕ) (scale : ℕ → Float) (f g : ℕ → ℕ → Double)
      → ((from n : ℕ) → from + n ≤ width → f from n ≡ g from n)
      → ((b : ℕ) → b < n_blocks width group → b * group ≤ width)
      → sum_blocks fp width group scale f ≡ sum_blocks fp width group scale g
  unfolding sum_blocks
  sum_blocks-cong width group scale f g same start =
      for_range-cong _ _ (n_blocks width group) 0 _ (λ b acc lo hi.
        ap (λ d. add_d acc (mul_d d (widen (scale b))))
          (same (b * group) (block_len width group b) (omega (arith, start b (omega arith)))))

  block_start : (width group b : ℕ) → 0 < group → b < n_blocks width group → b * group ≤ width
  unfolding n_blocks
  block_start width group b pos h = elim (dec_lt (b * group) width) [
    | yes inside ↦ omega arith
    | no beyond ↦ absurd (omega (arith, ceil-le group width b pos (omega arith)))
  ]

  module _ (m : ℕ) (x : Tensor Float) (w : Q4gTensor Float) (bias : Option (Tensor Float))
      (wx : Is2d m w.width x) (sound : check_q4gtensor fp w ≡ ok tt)
      (fits : bias_fits fp bias w.out ≡ true) where
    group_pos : 0 < w.group
    unfolding check_q4gtensor
    group_pos = elim (Bool-cases (group_ok w.group)) [
      | inl good ↦ ground arith
      | inr bad ↦ cc (rw bad at sound)
    ]

    unfoldable block : (ℕ → Float) → (ℕ → ℕ) → ℕ → ℕ → Double
    block xr row j0 n =
        if leb unpack_min_rows m
        then dot_qf32 fp (λ t. xr (j0 + t)) (λ t. code_at (scratch row w.width) (j0 + t)) n
        else dot_q4 fp xr row j0 n

    block_fused :
        (xr : ℕ → Float) (row : ℕ → ℕ) (j0 n : ℕ)
        → j0 + n ≤ w.width
        → block xr row j0 n ≡ dot_q4 fp xr row j0 n
    unfolding block
    block_fused xr row j0 n h = elim (Bool-cases (leb unpack_min_rows m)) [
      | inl many ↦ rw many (dot_qf32-scratch fp xr row w.width j0 n h)
      | inr few ↦ rw few refl
    ]

    abbrev channel : (ℕ → ℕ → Double) → ℕ → Float
    channel f o = narrow (
        add_d
          (sum_blocks fp w.width w.group
            (λ b. scale_at fp w.scale (o * n_blocks w.width w.group + b)) f)
          (bias_at fp bias o))

    unfoldable cell : ℕ → ℕ → Float
    unfolding block
    cell o i =
        channel (block (λ t. flat fp x (i * w.width + t)) (row_at w.q (o * q4_row_bytes w.width))) o

    -- Whether or not the rows are unpacked first, row `i` and channel `o` of the product of a sound group-wise
    -- weight is the sum over the blocks of the dot product with the codes that `q4_code` reads, times the
    -- scale of the block, plus the bias of the channel.
    pub linear_q4g-at2 :
        (y : Tensor Float) × (linear_q4g fp x w bias ≡ ok y)
        × Is2d m w.out y
        × ((i o : ℕ)
            → i < m
            → o < w.out
            → at2 zero_f y i o
              ≡ narrow (
                  add_d
                    (sum_blocks fp w.width w.group
                      (λ b. scale_at fp w.scale (o * n_blocks w.width w.group + b))
                      (dot_q4 fp
                        (λ t. flat fp x (i * w.width + t))
                        (row_at w.q (o * q4_row_bytes w.width))))
                    (bias_at fp bias o)))
    unfolding linear_q4g cell
    linear_q4g-at2 = (
      by_channel fp m w.out cell,
      simp (sound, wx.shape, ==_refl w.width, fits) refl,
      IsHost-Is2d m w.out _ (by_channel-IsHost fp m w.out cell),
      λ i o hi ho.
          by_channel-at2 fp m w.out cell i o hi ho
          ∙ ap (λ d. narrow (add_d d (bias_at fp bias o)))
              (sum_blocks-cong w.width w.group _ _ _
                (block_fused (λ t. flat fp x (i * w.width + t))
                  (row_at w.q (o * q4_row_bytes w.width)))
                (λ b. block_start w.width w.group b group_pos)),
    )
