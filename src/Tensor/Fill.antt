-- ===== src/Tensor/Fill.antt =====
-- cpp/src/tensor.cpp: every entry of a two-dimensional tensor is written once.
use nanoinfer.Prelude.{ℕ, ◌<◌, ◌≡◌, arith}
use nanoinfer.Prelude.Loops.{for_range, for_range-keep, for_range-hit, for_range-miss}
use nanoinfer.Tensor.{Tensor, at2, set_at2}
use nanoinfer.Tensor.Access.{Is2d, set_at2-Is2d, at2-set_at2_self, at2-set_at2_ne}

module _ {F : Type 0} (nought : F) (a b : ℕ) (f : ℕ → ℕ → F) where
  abbrev columns : ℕ → Tensor F → Tensor F
  columns i t = for_range b 0 (λ j t. set_at2 t i j (f i j)) t

  columns-Is2d : (i : ℕ) (t : Tensor F) → Is2d a b t → Is2d a b (columns i t)
  columns-Is2d i t v =
      for_range-keep (Is2d a b) _ (λ j u w. set_at2-Is2d nought a b u i j (f i j) w) b 0 t v

  pub fill2-Is2d : (t : Tensor F) → Is2d a b t → Is2d a b (for_range a 0 columns t)
  fill2-Is2d t v = for_range-keep (Is2d a b) columns columns-Is2d a 0 t v

  -- Each entry is the value that was written there.
  pub at2-fill2 :
      (t : Tensor F) (i j : ℕ)
      → Is2d a b t
      → i < a
      → j < b
      → at2 nought (for_range a 0 columns t) i j ≡ f i j
  at2-fill2 t i j v hi hj =
      for_range-hit (Is2d a b) columns columns-Is2d (λ t. at2 nought t i j) i (f i j) a 0 t
        (omega arith) (omega arith)
        (λ u w.
          for_range-hit (Is2d a b) _ (λ j u w. set_at2-Is2d nought a b u i j (f i j) w)
            (λ t. at2 nought t i j) j (f i j) b 0 u (omega arith) (omega arith)
            (λ s x. at2-set_at2_self nought a b s i j (f i j) x hi hj)
            (λ k s lo hk ne x.
              at2-set_at2_ne nought a b s i j i k (f i k) x hj (omega arith) (λ e. ne (e.1)))
            w)
        (λ k u lo hk ne w.
          for_range-miss (Is2d a b) _ (λ j u w. set_at2-Is2d nought a b u k j (f k j) w)
            (λ t. at2 nought t i j) b 0 u
            (λ l s _ hl x.
              at2-set_at2_ne nought a b s i j k l (f k l) x hj (omega arith) (λ e. ne (e.0)))
            w)
        v
