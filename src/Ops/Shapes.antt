-- ===== src/Ops/Shapes.antt =====
-- cpp/src/ops.cpp: the shape of the tensor that an operation returns, when it returns one.
use nanoinfer.Prelude.{
  ℕ, ◌+◌, ◌*◌, Yields, yields, throws, Bool, true, false, List, [], ◌∷◌, Option, length, Result,
  ◌==◌, ◌&&◌,
}
use nanoinfer.Prelude.Loops.{for_range-keep, for3-keep}
use nanoinfer.Floats.{FloatOps}
use nanoinfer.Tensor.{Tensor, ndim, size}
use nanoinfer.Tensor.Host.{IsHost, make_tensor-IsHost, set-IsHost, set_at2-IsHost, set_at3-IsHost}
use nanoinfer.Ops.Heads.{require, split_heads, merge_heads}
use nanoinfer.Ops.Elementwise.{fill, mul, add, silu}
use nanoinfer.Ops.Linear.{linear, bias_fits}
use nanoinfer.Ops.Linear.Laws.{by_channel-IsHost}
use nanoinfer.Ops.Norms.{rmsnorm}
use nanoinfer.Ops.Rope.{apply_rope, table_fits}
use nanoinfer.Ops.Embedding.{copy_row, copy_rows, embedding}

pub Yields-require :
    {A : Type 0} {P : A → Type 0} (b : Bool) (r : Result A) → Yields P r → Yields P (require b r)
Yields-require true r h = h
Yields-require false r h = throws

module _ (fp : FloatOps) where
  open fp use {Float, zero_f}

  pub fill-IsHost :
      (shape : List ℕ) (n : ℕ) (f : ℕ → Float) (t : Tensor Float)
      → IsHost shape t
      → IsHost shape (fill fp n f t)
  unfolding fill
  fill-IsHost shape n f t v =
      for_range-keep (IsHost shape) _ (λ i o w. set-IsHost shape o i (f i) w) n 0 t v

  pub silu-IsHost : (x : Tensor Float) → IsHost x.shape (silu fp x)
  unfolding silu
  silu-IsHost x = fill-IsHost x.shape _ _ _ (make_tensor-IsHost zero_f x.shape)

  pub add-IsHost : (a b : Tensor Float) → Yields (IsHost a.shape) (add fp a b)
  unfolding add
  add-IsHost a b =
      Yields-require _ _ (yields (fill-IsHost a.shape _ _ _ (make_tensor-IsHost zero_f a.shape)))

  pub mul-IsHost : (a b : Tensor Float) → Yields (IsHost a.shape) (mul fp a b)
  unfolding mul
  mul-IsHost a b =
      Yields-require _ _ (yields (fill-IsHost a.shape _ _ _ (make_tensor-IsHost zero_f a.shape)))

  pub linear-IsHost :
      (x weight : Tensor Float) (bias : Option (Tensor Float))
      → Yields (IsHost (size x 0 ∷ size weight 0 ∷ [])) (linear fp x weight bias)
  unfolding linear
  linear-IsHost x weight bias = Yields-require (ndim x == 2 && ndim weight == 2) _ (
      Yields-require (size x 1 == size weight 1) _ (
        Yields-require (bias_fits fp bias (size weight 0)) _ (yields (by_channel-IsHost fp _ _ _))))

  pub rmsnorm-IsHost :
      (x weight : Tensor Float) (eps : Float) → Yields (IsHost x.shape) (rmsnorm fp x weight eps)
  unfolding rmsnorm
  rmsnorm-IsHost x weight eps = Yields-require _ _ (
      Yields-require _ _ (
        yields (
          for_range-keep (IsHost x.shape) _
            (λ r o w.
              for_range-keep (IsHost x.shape) _ (λ c u z. set-IsHost x.shape u _ _ z) _ 0 o w)
            _ 0 _ (make_tensor-IsHost zero_f x.shape))))

  pub apply_rope-IsHost :
      (x cos sin : Tensor Float) (off : ℕ)
      → Yields (IsHost (size x 0 ∷ size x 1 ∷ size x 2 ∷ [])) (apply_rope fp x cos sin off)
  unfolding apply_rope
  apply_rope-IsHost x cos sin off = Yields-require (ndim x == 3) _ (
      Yields-require (table_fits fp cos (size x 2) (off + size x 1)) _ (
        Yields-require (table_fits fp sin (size x 2) (off + size x 1)) _ (
          yields (
            for3-keep (IsHost (size x 0 ∷ size x 1 ∷ size x 2 ∷ [])) _
              (λ h p d o w. set_at3-IsHost (size x 0 ∷ size x 1 ∷ size x 2 ∷ []) o h p d _ w)
              (size x 0) (size x 1) (size x 2) _ (make_tensor-IsHost zero_f _)))))

module _ {F : Type 0} (nought : F) where
  pub split_heads-IsHost :
      (x : Tensor F) (n_heads head_dim : ℕ)
      → Yields (IsHost (n_heads ∷ size x 0 ∷ head_dim ∷ [])) (split_heads nought x n_heads head_dim)
  unfolding split_heads
  split_heads-IsHost x n_heads head_dim = Yields-require _ _ (
      Yields-require _ _ (
        yields (
          for3-keep (IsHost (n_heads ∷ size x 0 ∷ head_dim ∷ [])) _
            (λ s h d o w. set_at3-IsHost (n_heads ∷ size x 0 ∷ head_dim ∷ []) o h s d _ w) _ _ _ _
            (make_tensor-IsHost nought _))))

  pub merge_heads-IsHost :
      (x : Tensor F)
      → Yields (IsHost (size x 1 ∷ (size x 0 * size x 2) ∷ [])) (merge_heads nought x)
  unfolding merge_heads
  merge_heads-IsHost x = Yields-require _ _ (
      yields (
        for3-keep (IsHost (size x 1 ∷ (size x 0 * size x 2) ∷ [])) _
          (λ h s d o w. set_at2-IsHost (size x 1 ∷ (size x 0 * size x 2) ∷ []) o s _ _ w) _ _ _ _
          (make_tensor-IsHost nought _)))

  copy_row-IsHost :
      (shape : List ℕ) (hidden : ℕ) (table : Tensor F) (r id : ℕ) (out : Tensor F)
      → IsHost shape out
      → IsHost shape (copy_row nought hidden table r id out)
  unfolding copy_row
  copy_row-IsHost shape hidden table r id out v =
      for_range-keep (IsHost shape) _ (λ c o w. set-IsHost shape o _ _ w) hidden 0 out v

  copy_rows-IsHost :
      (shape : List ℕ) (vocab hidden : ℕ) (table : Tensor F) (ids : List ℕ) (r : ℕ) (out : Tensor F)
      → IsHost shape out
      → Yields (IsHost shape) (copy_rows nought vocab hidden table ids r out)
  unfolding copy_rows
  copy_rows-IsHost shape vocab hidden table [] r out v = yields v
  copy_rows-IsHost shape vocab hidden table (id ∷ ids) r out v = Yields-require _ _ (
      copy_rows-IsHost shape vocab hidden table ids (r + 1) (copy_row nought hidden table r id out)
        (copy_row-IsHost shape hidden table r id out v))

  pub embedding-IsHost :
      (table : Tensor F) (ids : List ℕ)
      → Yields (IsHost (length ids ∷ size table 1 ∷ [])) (embedding nought table ids)
  unfolding embedding
  embedding-IsHost table ids = Yields-require _ _ (
      copy_rows-IsHost (length ids ∷ size table 1 ∷ []) (size table 0) (size table 1) table ids 0 _
        (make_tensor-IsHost nought _))
