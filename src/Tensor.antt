-- ===== src/Tensor.antt =====
-- cpp/src/tensor.hpp and tensor.cpp: row-major float tensors. A negative dimension is not modelled.
pub mod Layout
pub mod Access
pub mod Host
pub mod Fill
pub mod Wrap
pub mod Tests
use nanoinfer.Prelude.{ℕ, zero, suc, ◌+◌, ◌*◌, ◌≡◌, List, [], ◌∷◌, length, get_or, set, replicate}

pub data Device : Type 0 where
  cpu cuda metal : Device

pub data DType : Type 0 where
  f32 f16 bf16 i8 : DType

-- `values` is the host vector `data_`. The device buffer is opaque to this code and is left out.
pub record Tensor (F : Type 0) : Type 0 where
  pub shape : List ℕ
  pub strides : List ℕ
  pub values : List F
  pub numel : ℕ
  pub device : Device
  pub dtype : DType

-- `for (d : shape_) numel_ *= d`
unfoldable pub numel_from : ℕ → List ℕ → ℕ
numel_from n [] = n
numel_from n (d ∷ ds) = numel_from (n * d) ds

-- The loop from the last axis to the first: the strides so far, and `acc`.
unfoldable pub strides_from_right : List ℕ → List ℕ × ℕ
strides_from_right [] = ([], 1)
strides_from_right (d ∷ ds) = let (strides, acc) = strides_from_right ds in (acc ∷ strides, acc * d)

abbrev pub host_values : {F : Type 0} → F → Device → ℕ → List F
host_values nought cpu n = replicate n nought
host_values nought _ n = []

module _ {F : Type 0} where
  unfoldable pub make_tensor : F → List ℕ → Device → Tensor F
  unfolding numel_from strides_from_right
  make_tensor nought shape device = record {
    shape = shape;
    strides = (strides_from_right shape).0;
    values = host_values nought device (numel_from 1 shape);
    numel = numel_from 1 shape;
    device = device;
    dtype = f32;
  }

  unfoldable pub ndim : Tensor F → ℕ
  ndim t = length t.shape

  abbrev pub size : Tensor F → ℕ → ℕ
  size t axis = get_or t.shape axis 0

  -- Where `at` points to. Its `assert` states when it may be called, and is a hypothesis of the lemmas.
  abbrev pub offset2 : Tensor F → ℕ → ℕ → ℕ
  offset2 t i j = i * get_or t.strides 0 0 + j * get_or t.strides 1 0

  abbrev pub offset3 : Tensor F → ℕ → ℕ → ℕ → ℕ
  offset3 t i j k = i * get_or t.strides 0 0 + j * get_or t.strides 1 0 + k * get_or t.strides 2 0

  -- `nought` is what the model reads out of bounds.
  unfoldable pub at2 : F → Tensor F → ℕ → ℕ → F
  at2 nought t i j = get_or t.values (offset2 t i j) nought

  unfoldable pub at3 : F → Tensor F → ℕ → ℕ → ℕ → F
  at3 nought t i j k = get_or t.values (offset3 t i j k) nought

  unfoldable pub set_at2 : Tensor F → ℕ → ℕ → F → Tensor F
  set_at2 t i j x = record t { values = set t.values (offset2 t i j) x }

  unfoldable pub set_at3 : Tensor F → ℕ → ℕ → ℕ → F → Tensor F
  set_at3 t i j k x = record t { values = set t.values (offset3 t i j k) x }
