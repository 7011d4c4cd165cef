-- ===== src/Ops/Linear/Laws.antt =====
-- cpp/src/ops.cpp: what linear returns.
use nanoinfer.Prelude.{
  ℕ, ◌+◌, ◌*◌, ◌<◌, ◌≡◌, refl, ◌∙◌, true, [], ◌∷◌, Option, arith, get_or-set_self, get_or-set_ne,
  ==_refl, ok,
}
use nanoinfer.Prelude.Arith.{row_bound, row_inj}
use nanoinfer.Prelude.Loops.{for_range, for_range-keep, for_range-miss, for_range-hit}
use nanoinfer.Floats.{FloatOps}
use nanoinfer.Tensor.{Tensor, at2}
use nanoinfer.Tensor.Access.{Is2d, at2_row}
use nanoinfer.Tensor.Host.{IsHost, make_tensor-IsHost, set-IsHost, IsHost-Is2d}
use nanoinfer.Ops.Attention.{flat, set_flat, dot_f32}
use nanoinfer.Ops.Linear.{bias_fits, bias_at, by_channel, linear}

module _ (fp : FloatOps) where
  open fp use {Float, Double, zero_f, narrow, add_d}

  module _ (m out : ℕ) (cell : ℕ → ℕ → Float) where
    rounds :
        (o : ℕ) (y : Tensor Float)
        → IsHost (m ∷ out ∷ []) y
        → IsHost (m ∷ out ∷ []) (for_range m 0 (λ i y. set_flat fp y (i * out + o) (cell o i)) y)
    rounds o y v =
        for_range-keep (IsHost (m ∷ out ∷ [])) _ (λ i t w. set-IsHost (m ∷ out ∷ []) t _ _ w) m 0 y
          v

    pub by_channel-IsHost : IsHost (m ∷ out ∷ []) (by_channel fp m out cell)
    unfolding by_channel
    by_channel-IsHost =
        for_range-keep (IsHost (m ∷ out ∷ [])) _ rounds out 0 _ (make_tensor-IsHost zero_f _)

    -- Row `i` and channel `o` of the result is its cell.
    pub by_channel-at2 :
        (i o : ℕ) → i < m → o < out → at2 zero_f (by_channel fp m out cell) i o ≡ cell o i
    unfolding by_channel
    by_channel-at2 i o hi ho =
        at2_row zero_f m out (by_channel fp m out cell) (IsHost-Is2d m out _ by_channel-IsHost) i o
        ∙ for_range-hit (IsHost (m ∷ out ∷ [])) _ rounds (λ y. flat fp y (i * out + o)) o (cell o i)
            out 0 _ (omega arith) (omega arith)
            (λ y v.
              for_range-hit (IsHost (m ∷ out ∷ [])) _ (λ i t w. set-IsHost (m ∷ out ∷ []) t _ _ w)
                (λ y. flat fp y (i * out + o)) i (cell o i) m 0 y (omega arith) (omega arith)
                (λ t w.
                  get_or-set_self t.values (i * out + o) _ zero_f
                    (let s = (IsHost-Is2d m out t w).stored in rw s (row_bound out m i o hi ho)))
                (λ k t lo hk ne w.
                  get_or-set_ne t.values (k * out + o) (i * out + o) _ zero_f
                    (λ e. ne (row_inj out k o i o ho ho e).0))
                v)
            (λ q y lo hq ne v.
              for_range-miss (IsHost (m ∷ out ∷ [])) _ (λ i t w. set-IsHost (m ∷ out ∷ []) t _ _ w)
                (λ y. flat fp y (i * out + o)) m 0 y
                (λ k t a b w.
                  get_or-set_ne t.values (k * out + q) (i * out + o) _ zero_f
                    (λ e. ne (row_inj out k q i o (omega arith) ho e).1))
                v)
            (make_tensor-IsHost zero_f _)

  -- `linear` of matrices of matching widths is the matrix of the dot products of the rows of `x` with the
  -- rows of the weight, plus the bias of the channel.
  pub linear-at2 :
      (m width out : ℕ) (x weight : Tensor Float) (bias : Option (Tensor Float))
      → Is2d m width x
      → Is2d out width weight
      → bias_fits fp bias out ≡ true
      → (y : Tensor Float) × (linear fp x weight bias ≡ ok y)
        × Is2d m out y
        × ((i o : ℕ)
            → i < m
            → o < out
            → at2 zero_f y i o
              ≡ narrow (
                  add_d
                    (dot_f32 fp
                      (λ t. flat fp x (i * width + t))
                      (λ t. flat fp weight (o * width + t))
                      width)
                    (bias_at fp bias o)))
  unfolding linear
  linear-at2 m width out x weight bias wx ww fits = (
    by_channel fp m out cell,
    simp (wx.shape, ww.shape, ==_refl width, fits) refl,
    IsHost-Is2d m out _ (by_channel-IsHost m out cell),
    by_channel-at2 m out cell,
  )
    where
      cell : ℕ → ℕ → Float
      cell o i = narrow (
          add_d
            (dot_f32 fp (λ t. flat fp x (i * width + t)) (λ t. flat fp weight (o * width + t))
              width)
            (bias_at fp bias o))
