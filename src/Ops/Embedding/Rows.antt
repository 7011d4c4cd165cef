-- ===== src/Ops/Embedding/Rows.antt =====
-- cpp/src/ops.cpp: what embedding returns, on either outcome.
use nanoinfer.Prelude.{
  ℕ, zero, suc, ◌+◌, ◌*◌, ◌<◌, ◌≡◌, ◌≢◌, refl, sym, ap, ◌∙◌, inl, inr, true, false, List, [], ◌∷◌,
  arith, length, get_or, set, length-set, get_or-set_self, get_or-set_ne, Bool-cases, Result, ok,
  throw, invalid_argument,
}
use nanoinfer.Prelude.Arith.{row_bound, row_inj}
use nanoinfer.Prelude.Loops.{for_range-keep, for_range-miss, for_range-hit}
use nanoinfer.Tensor.{Tensor, cpu, make_tensor, at2}
use nanoinfer.Tensor.Access.{Is2d, make_tensor-Is2d}
use nanoinfer.Ops.Embedding.{copy_row, copy_rows, in_vocab, embedding}

module _ {F : Type 0} (nought : F) where
  -- The entry of a matrix of `hidden` columns.
  abbrev pub row_entry : ℕ → Tensor F → ℕ → ℕ → F
  row_entry hidden t r c = get_or t.values (r * hidden + c) nought

  row_entry-at2 :
      (a b : ℕ) (t : Tensor F) → Is2d a b t → (r c : ℕ) → row_entry b t r c ≡ at2 nought t r c
  unfolding at2
  row_entry-at2 a b t v r c = ap (λ i. get_or t.values i nought) (rw v.strides (omega arith))

  module _ (vocab hidden n : ℕ) (table : Tensor F) where
    put-Is2d :
        (t : Tensor F) (i : ℕ) (x : F)
        → Is2d n hidden t
        → Is2d n hidden (record t { values = set t.values i x })
    put-Is2d t i x v = record {
      shape = v.shape;
      strides = v.strides;
      numel = v.numel;
      stored = length-set t.values i x ∙ v.stored;
    }

    module _ (r id : ℕ) (out : Tensor F) (v : Is2d n hidden out) (inside : r < n) where
      copy_row-Is2d : Is2d n hidden (copy_row nought hidden table r id out)
      unfolding copy_row
      copy_row-Is2d = for_range-keep (Is2d n hidden) _ (λ c o w. put-Is2d o _ _ w) hidden 0 out v

      copy_row_new :
          (c : ℕ)
          → c < hidden
          → row_entry hidden (copy_row nought hidden table r id out) r c
            ≡ row_entry hidden table id c
      unfolding copy_row
      copy_row_new c h =
          for_range-hit (Is2d n hidden) _ (λ c o w. put-Is2d o _ _ w) (λ o. row_entry hidden o r c)
            c _ hidden 0 out (omega arith) (omega arith)
            (λ o w.
              get_or-set_self o.values (r * hidden + c) _ nought
                (rw w.stored (row_bound hidden n r c inside h)))
            (λ k o lo hi ne w.
              get_or-set_ne o.values (r * hidden + k) (r * hidden + c) _ nought
                (λ e. ne (omega (arith, e))))
            v

      copy_row_old :
          (q c : ℕ)
          → q ≢ r
          → c < hidden
          → row_entry hidden (copy_row nought hidden table r id out) q c ≡ row_entry hidden out q c
      unfolding copy_row
      copy_row_old q c ne h =
          for_range-miss (Is2d n hidden) _ (λ c o w. put-Is2d o _ _ w) (λ o. row_entry hidden o q c)
            hidden 0 out
            (λ k o lo hi w.
              get_or-set_ne o.values (r * hidden + k) (q * hidden + c) _ nought
                (λ e. ne (sym (row_inj hidden r k q c (omega arith) h e).0)))
            v

    -- What the rows from `r` on come to.
    abbrev Copied : List ℕ → ℕ → Tensor F → Result (Tensor F) → Type 0
    Copied ids r out (ok y) =
        Is2d n hidden y
        × ((q c : ℕ) → q < r → c < hidden → row_entry hidden y q c ≡ row_entry hidden out q c)
        × ((k : ℕ) → k < length ids → in_vocab vocab (get_or ids k 0) ≡ true)
        × ((k c : ℕ)
            → k < length ids
            → c < hidden
            → row_entry hidden y (r + k) c ≡ row_entry hidden table (get_or ids k 0) c)
    Copied ids r out (throw e) =
        (e ≡ invalid_argument)
        × (k : ℕ) × (k < length ids)
        × (in_vocab vocab (get_or ids k 0) ≡ false)

    Copied-cons :
        (id : ℕ) (ids : List ℕ) (r : ℕ) (out : Tensor F) (res : Result (Tensor F))
        → Is2d n hidden out
        → r < n
        → in_vocab vocab id ≡ true
        → Copied ids (r + 1) (copy_row nought hidden table r id out) res
        → Copied (id ∷ ids) r out res
    Copied-cons id ids r out (ok y) v h known (w, old, all, new) = (
      w,
      λ q c hq hc. old q c (omega arith) hc ∙ copy_row_old r id out v h q c (omega arith) hc,
      all_known,
      new_rows,
    )
      where
        all_known : (k : ℕ) → k < suc (length ids) → in_vocab vocab (get_or (id ∷ ids) k 0) ≡ true
        all_known zero hk = known
        all_known (suc k) hk = all k (omega arith)

        new_rows :
            (k c : ℕ)
            → k < suc (length ids)
            → c < hidden
            → row_entry hidden y (r + k) c ≡ row_entry hidden table (get_or (id ∷ ids) k 0) c
        new_rows zero c hk hc =
            ap (λ q. row_entry hidden y q c) (omega arith)
            ∙ old r c (omega arith) hc
            ∙ copy_row_new r id out v h c hc
        new_rows (suc k) c hk hc =
            ap (λ q. row_entry hidden y q c) (omega arith) ∙ new k c (omega arith) hc
    Copied-cons id ids r out (throw e) v h known (kind, k, hk, bad) =
        (kind, suc k, omega arith, bad)

    copy_rows-Copied :
        (ids : List ℕ) (r : ℕ) (out : Tensor F)
        → Is2d n hidden out
        → r + length ids ≡ n
        → Copied ids r out (copy_rows nought vocab hidden table ids r out)
    unfolding copy_rows
    copy_rows-Copied [] r out v e =
        (v, λ q c hq hc. refl, λ k hk. absurd (omega arith), λ k c hk hc. absurd (omega arith))
    copy_rows-Copied (id ∷ ids) r out v e = elim (Bool-cases (in_vocab vocab id)) [
      | inl known ↦ simp known (
          Copied-cons id ids r out
            (copy_rows nought vocab hidden table ids (r + 1)
              (copy_row nought hidden table r id out))
            v (omega arith) known
            (copy_rows-Copied ids (r + 1) (copy_row nought hidden table r id out)
              (copy_row-Is2d r id out v (omega arith)) (omega arith)))
      | inr unknown ↦ simp unknown (refl, 0, omega arith, unknown)
    ]

  -- On either outcome of `embedding`.
  abbrev pub Embedded : ℕ → ℕ → Tensor F → List ℕ → Result (Tensor F) → Type 0
  Embedded vocab hidden table ids (ok y) =
      Is2d (length ids) hidden y
      × ((k : ℕ) → k < length ids → in_vocab vocab (get_or ids k 0) ≡ true)
      × ((k c : ℕ)
          → k < length ids
          → c < hidden
          → at2 nought y k c ≡ at2 nought table (get_or ids k 0) c)
  Embedded vocab hidden table ids (throw e) =
      (e ≡ invalid_argument)
      × (k : ℕ) × (k < length ids)
      × (in_vocab vocab (get_or ids k 0) ≡ false)

  Embedded-of_Copied :
      (vocab hidden : ℕ) (table out : Tensor F) (ids : List ℕ) (res : Result (Tensor F))
      → Is2d vocab hidden table
      → Copied vocab hidden (length ids) table ids 0 out res
      → Embedded vocab hidden table ids res
  Embedded-of_Copied vocab hidden table out ids (ok y) v (w, old, all, new) = (
    w,
    all,
    λ k c hk hc.
        sym (row_entry-at2 (length ids) hidden y w k c)
        ∙ ap (λ q. row_entry hidden y q c) (omega arith)
        ∙ new k c hk hc
        ∙ row_entry-at2 vocab hidden table v (get_or ids k 0) c,
  )
  Embedded-of_Copied vocab hidden table out ids (throw e) v bad = bad

  pub embedding-Embedded :
      (vocab hidden : ℕ) (table : Tensor F) (ids : List ℕ)
      → Is2d vocab hidden table
      → Embedded vocab hidden table ids (embedding nought table ids)
  unfolding embedding
  embedding-Embedded vocab hidden table ids v = simp v.shape (
      Embedded-of_Copied vocab hidden table (make_tensor nought (length ids ∷ hidden ∷ []) cpu) ids
        _ v
        (copy_rows-Copied vocab hidden (length ids) table ids 0 _
          (make_tensor-Is2d nought (length ids) hidden) (omega arith)))
