-- ===== src/Tensor/Access.antt =====
-- cpp/src/tensor.cpp: `at` on two- and three-dimensional tensors.
use native.Mathlib.Nat.{mul_comm}
use nanoinfer.Prelude.{
  ap, get_or, ℕ, ◌+◌, ◌*◌, ◌<◌, ◌≡◌, refl, sym, ◌∙◌, [], ◌∷◌, length, arith, length-set,
  length-replicate, get_or-set_self, get_or-set_ne,
}
use nanoinfer.Prelude.Arith.{row_inj, row_bound}
use nanoinfer.Prelude.Loops.{for3, for3-hit, for3-keep}
use nanoinfer.Tensor.{Tensor, cpu, make_tensor, offset2, offset3, at2, at3, set_at2, set_at3}

-- A host tensor of the shape that the constructor is given.
pub record Is2d {F : Type 0} (a b : ℕ) (t : Tensor F) : Type 0 where
  pub shape : t.shape ≡ a ∷ b ∷ []
  pub strides : t.strides ≡ b ∷ 1 ∷ []
  pub numel : t.numel ≡ a * b
  pub stored : length t.values ≡ a * b

pub record Is3d {F : Type 0} (a b c : ℕ) (t : Tensor F) : Type 0 where
  pub shape : t.shape ≡ a ∷ b ∷ c ∷ []
  pub strides : t.strides ≡ b * c ∷ c ∷ 1 ∷ []
  pub numel : t.numel ≡ a * b * c
  pub stored : length t.values ≡ a * b * c

module _ {F : Type 0} (nought : F) where
  pub make_tensor-Is2d : (a b : ℕ) → Is2d a b (make_tensor nought (a ∷ b ∷ []) cpu)
  unfolding make_tensor
  make_tensor-Is2d a b = record {
    shape = refl;
    strides = ground arith;
    numel = omega arith;
    stored = length-replicate _ nought ∙ omega arith;
  }

  pub make_tensor-Is3d : (a b c : ℕ) → Is3d a b c (make_tensor nought (a ∷ b ∷ c ∷ []) cpu)
  unfolding make_tensor
  make_tensor-Is3d a b c = record {
    shape = refl;
    strides = ground (arith, mul_comm c b);
    numel = omega arith;
    stored = length-replicate _ nought ∙ omega arith;
  }

  pub offset3_row :
      (a b c : ℕ) (t : Tensor F)
      → Is3d a b c t
      → (i j k : ℕ) → offset3 t i j k ≡ (i * b + j) * c + k
  offset3_row a b c t v i j k = rw v.strides (grind arith)

  -- A write at `(i, j, k)` is read back there.
  pub at3-set_at3_self :
      (a b c : ℕ) (t : Tensor F) (i j k : ℕ) (x : F)
      → Is3d a b c t
      → i < a
      → j < b
      → k < c
      → at3 nought (set_at3 t i j k x) i j k ≡ x
  unfolding at3 set_at3
  at3-set_at3_self a b c t i j k x v hi hj hk =
      get_or-set_self t.values (offset3 t i j k) x nought (
        rw (offset3_row a b c t v i j k, v.stored)
          (row_bound c (a * b) (i * b + j) k (row_bound b a i j hi hj) hk))

  -- No other entry changes.
  pub at3-set_at3_ne :
      (a b c : ℕ) (t : Tensor F) (i j k i' j' k' : ℕ) (x : F)
      → Is3d a b c t
      → j < b
      → k < c
      → j' < b
      → k' < c
      → ¬ ((i' ≡ i) × (j' ≡ j) × (k' ≡ k))
      → at3 nought (set_at3 t i' j' k' x) i j k ≡ at3 nought t i j k
  unfolding at3 set_at3
  at3-set_at3_ne a b c t i j k i' j' k' x v hj hk hj' hk' ne =
      get_or-set_ne t.values (offset3 t i' j' k') (offset3 t i j k) x nought λ e.
        let (top, low) =
          row_inj c (i' * b + j') k' (i * b + j) k hk' hk
            (sym (offset3_row a b c t v i' j' k') ∙ e ∙ offset3_row a b c t v i j k) in
        let (first, second) = row_inj b i' j' i j hj' hj top in ne (first, second, low)

  pub set_at3-Is3d :
      (a b c : ℕ) (t : Tensor F) (i j k : ℕ) (x : F) → Is3d a b c t → Is3d a b c (set_at3 t i j k x)
  unfolding set_at3
  set_at3-Is3d a b c t i j k x v = record {
    shape = v.shape;
    strides = v.strides;
    numel = v.numel;
    stored = length-set t.values (offset3 t i j k) x ∙ v.stored;
  }

  -- `out.at(i, j, k) = f(i, j, k)` for every entry.
  pub at3-for3_fill :
      (a b c : ℕ) (f : ℕ → ℕ → ℕ → F) (t : Tensor F) (i j k : ℕ)
      → Is3d a b c t
      → i < a
      → j < b
      → k < c
      → at3 nought (for3 a b c (λ i j k u. set_at3 u i j k (f i j k)) t) i j k ≡ f i j k
  at3-for3_fill a b c f t i j k v hi hj hk =
      for3-hit (Is3d a b c) (λ i j k u. set_at3 u i j k (f i j k))
        (λ i j k u w. set_at3-Is3d a b c u i j k (f i j k) w) a b c (λ u. at3 nought u i j k) i j k
        (f i j k) t hi hj hk (λ u w. at3-set_at3_self a b c u i j k (f i j k) w hi hj hk)
        (λ i' j' k' u hi' hj' hk' ne w.
          at3-set_at3_ne a b c u i j k i' j' k' (f i' j' k') w hj hk hj' hk' ne)
        v

  pub for3_fill-Is3d :
      (a b c : ℕ) (f : ℕ → ℕ → ℕ → F) (t : Tensor F)
      → Is3d a b c t
      → Is3d a b c (for3 a b c (λ i j k u. set_at3 u i j k (f i j k)) t)
  for3_fill-Is3d a b c f t v =
      for3-keep (Is3d a b c) (λ i j k u. set_at3 u i j k (f i j k))
        (λ i j k u w. set_at3-Is3d a b c u i j k (f i j k) w) a b c t v

  offset2_row : (a b : ℕ) (t : Tensor F) → Is2d a b t → (i j : ℕ) → offset2 t i j ≡ i * b + j
  offset2_row a b t v i j = rw v.strides (grind arith)

  pub at2-set_at2_self :
      (a b : ℕ) (t : Tensor F) (i j : ℕ) (x : F)
      → Is2d a b t
      → i < a
      → j < b
      → at2 nought (set_at2 t i j x) i j ≡ x
  unfolding at2 set_at2
  at2-set_at2_self a b t i j x v hi hj =
      get_or-set_self t.values (offset2 t i j) x nought
        (rw (offset2_row a b t v i j, v.stored) (row_bound b a i j hi hj))

  pub at2-set_at2_ne :
      (a b : ℕ) (t : Tensor F) (i j i' j' : ℕ) (x : F)
      → Is2d a b t
      → j < b
      → j' < b
      → ¬ ((i' ≡ i) × (j' ≡ j))
      → at2 nought (set_at2 t i' j' x) i j ≡ at2 nought t i j
  unfolding at2 set_at2
  at2-set_at2_ne a b t i j i' j' x v hj hj' ne =
      get_or-set_ne t.values (offset2 t i' j') (offset2 t i j) x nought λ e.
        ne (
          row_inj b i' j' i j hj' hj
            (sym (offset2_row a b t v i' j') ∙ e ∙ offset2_row a b t v i j))

  pub set_at2-Is2d :
      (a b : ℕ) (t : Tensor F) (i j : ℕ) (x : F) → Is2d a b t → Is2d a b (set_at2 t i j x)
  unfolding set_at2
  set_at2-Is2d a b t i j x v = record {
    shape = v.shape;
    strides = v.strides;
    numel = v.numel;
    stored = length-set t.values (offset2 t i j) x ∙ v.stored;
  }

  pub at2_row :
      (a b : ℕ) (t : Tensor F)
      → Is2d a b t
      → (i j : ℕ) → at2 nought t i j ≡ get_or t.values (i * b + j) nought
  unfolding at2
  at2_row a b t v i j = ap (λ n. get_or t.values n nought) (offset2_row a b t v i j)
