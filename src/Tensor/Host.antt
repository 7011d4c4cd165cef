-- ===== src/Tensor/Host.antt =====
-- cpp/src/tensor.cpp: a tensor that the constructor made for a shape and whose entries were written since.
use nanoinfer.Prelude.{
  ℕ, ◌≡◌, refl, ◌∙◌, List, [], ◌∷◌, arith, length, set, length-set, length-replicate,
}
use native.Mathlib.Nat.{mul_comm}
use nanoinfer.Tensor.{
  Tensor, cpu, make_tensor, numel_from, strides_from_right, offset2, offset3, set_at2, set_at3,
}
use nanoinfer.Tensor.Access.{Is2d, Is3d}

pub record IsHost {F : Type 0} (shape : List ℕ) (t : Tensor F) : Type 0 where
  pub shaped : t.shape ≡ shape
  pub strided : t.strides ≡ (strides_from_right shape).0
  pub counted : t.numel ≡ numel_from 1 shape
  pub stored : length t.values ≡ numel_from 1 shape

module _ {F : Type 0} where
  pub make_tensor-IsHost :
      (nought : F) (shape : List ℕ) → IsHost shape (make_tensor nought shape cpu)
  unfolding make_tensor
  make_tensor-IsHost nought shape = record {
    shaped = refl;
    strided = refl;
    counted = refl;
    stored = length-replicate _ nought;
  }

  pub set-IsHost :
      (shape : List ℕ) (t : Tensor F) (i : ℕ) (x : F)
      → IsHost shape t
      → IsHost shape (record t { values = set t.values i x })
  set-IsHost shape t i x v = record {
    shaped = v.shaped;
    strided = v.strided;
    counted = v.counted;
    stored = length-set t.values i x ∙ v.stored;
  }

  pub set_at2-IsHost :
      (shape : List ℕ) (t : Tensor F) (i j : ℕ) (x : F)
      → IsHost shape t
      → IsHost shape (set_at2 t i j x)
  unfolding set_at2
  set_at2-IsHost shape t i j x v = set-IsHost shape t (offset2 t i j) x v

  pub set_at3-IsHost :
      (shape : List ℕ) (t : Tensor F) (i j k : ℕ) (x : F)
      → IsHost shape t
      → IsHost shape (set_at3 t i j k x)
  unfolding set_at3
  set_at3-IsHost shape t i j k x v = set-IsHost shape t (offset3 t i j k) x v

  pub IsHost-Is2d : (a b : ℕ) (t : Tensor F) → IsHost (a ∷ b ∷ []) t → Is2d a b t
  unfolding numel_from strides_from_right
  IsHost-Is2d a b t v = record {
    shape = v.shaped;
    strides = v.strided ∙ ground arith;
    numel = omega (arith, v.counted);
    stored = omega (arith, v.stored);
  }

  pub IsHost-Is3d : (a b c : ℕ) (t : Tensor F) → IsHost (a ∷ b ∷ c ∷ []) t → Is3d a b c t
  unfolding numel_from strides_from_right
  IsHost-Is3d a b c t v = record {
    shape = v.shaped;
    strides = v.strided ∙ ground (arith, mul_comm c b);
    numel = omega (arith, v.counted);
    stored = omega (arith, v.stored);
  }
