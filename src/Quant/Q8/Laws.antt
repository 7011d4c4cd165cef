-- ===== src/Quant/Q8/Laws.antt =====
-- cpp/src/quant.cpp: what dequantize_q8 returns, and that embedding_q8 gathers its rows.
use nanoinfer.Prelude.{
  ℕ, ◌+◌, ◌*◌, ◌<◌, ◌≡◌, refl, sym, ap, ◌∙◌, inl, inr, Bool-cases, List, [], ◌∷◌, ok, ◌>>=◌,
  checked_or_thrown, arith,
}
use nanoinfer.Prelude.Loops.{for_range, for_range-cong}
use nanoinfer.Floats.{FloatOps}
use nanoinfer.Tensor.{Tensor, at2}
use nanoinfer.Tensor.Access.{Is2d, make_tensor-Is2d, at2_row}
use nanoinfer.Tensor.Fill.{fill2-Is2d, at2-fill2}
use nanoinfer.Ops.Attention.{set_flat}
use nanoinfer.Ops.Embedding.{in_vocab, copy_row, copy_rows, embedding}
use nanoinfer.Quant.Q8.{
  QTensor, check_qtensor, dequantize_q8, embed_rows_q8, embedding_q8, code_at, scale_at,
}

module _ (fp : FloatOps) where
  open fp use {Float, zero_f, of_ℤ, mul_f}

  module _ (table : QTensor Float) where
    abbrev entry : ℕ → ℕ → Float
    entry o j = mul_f (of_ℤ (code_at table.q (o * table.width + j))) (scale_at fp table.scale o)

    -- `dequantize_q8` of a sound weight: each code times the scale of its row.
    pub dequantize_q8-at2 :
        check_qtensor fp table ≡ ok tt
        → (y : Tensor Float) × (dequantize_q8 fp table ≡ ok y)
          × Is2d table.out table.width y
          × ((o j : ℕ)
              → o < table.out
              → j < table.width
              → at2 zero_f y o j
                ≡ mul_f (of_ℤ (code_at table.q (o * table.width + j))) (scale_at fp table.scale o))
    unfolding dequantize_q8
    dequantize_q8-at2 sound =
        let v = make_tensor-Is2d zero_f table.out table.width in
        (
          _,
          simp sound refl,
          fill2-Is2d zero_f table.out table.width entry _ v,
          λ o j ho hj. at2-fill2 zero_f table.out table.width entry _ o j v ho hj,
        )

    module _ (y : Tensor Float) (v : Is2d table.out table.width y)
        (entries : (o j : ℕ) → o < table.out → j < table.width → at2 zero_f y o j ≡ entry o j) where
      same_row :
          (r id : ℕ) (out : Tensor Float)
          → id < table.out
          → for_range table.width 0 (λ c o. set_flat fp o (r * table.width + c) (entry id c)) out
            ≡ copy_row zero_f table.width y r id out
      unfolding copy_row
      same_row r id out h = for_range-cong _ _ table.width 0 out (λ c o _ hc.
          ap (set_flat fp o (r * table.width + c))
            (sym (entries id c h (omega arith)) ∙ at2_row zero_f table.out table.width y v id c))

      same_rows :
          (ids : List ℕ) (r : ℕ) (out : Tensor Float)
          → embed_rows_q8 fp table ids r out ≡ copy_rows zero_f table.out table.width y ids r out
      unfolding embed_rows_q8 copy_rows
      same_rows [] r out = refl
      same_rows (id ∷ ids) r out = elim (Bool-cases (in_vocab table.out id)) [
        | inl good ↦
            rw (good, same_row r id out (ground arith))
              (same_rows ids (r + 1) (copy_row zero_f table.width y r id out))
        | inr bad ↦ rw bad refl
      ]

      same_embedding :
          check_qtensor fp table ≡ ok tt
          → (ids : List ℕ) → embedding_q8 fp table ids ≡ embedding zero_f y ids
      unfolding embedding_q8 embedding
      same_embedding sound ids = simp (sound, v.shape) (same_rows ids 0 _)

    -- Gathering rows of an eight-bit table is gathering rows of the dequantized table, and throws where
    -- that throws.
    pub embedding_q8-eq-embedding :
        (ids : List ℕ)
        → embedding_q8 fp table ids ≡ (dequantize_q8 fp table >>= λ y. embedding zero_f y ids)
    unfolding embedding_q8 dequantize_q8
    embedding_q8-eq-embedding ids = elim (checked_or_thrown (check_qtensor fp table)) [
      | inl sound ↦
          let (y, made, shape, entries) = dequantize_q8-at2 sound in
          same_embedding y shape entries sound ids
          ∙ sym (ap (λ r. r >>= λ y. embedding zero_f y ids) made)
      | inr (e, bad) ↦ simp bad refl
    ]
