-- ===== src/Tensor/Tests.antt =====
-- Concrete tensors, and the witnesses of the theorems on layouts.
use nanoinfer.Prelude.{ℕ, ◌*◌, ◌<◌, refl, List, [], ◌∷◌, arith}
use nanoinfer.Tensor.{Tensor, cpu, f32, numel_from}
use nanoinfer.Tensor.Access.{Is2d, Is3d}
use nanoinfer.Tensor.Layout.{IsIndex, offset, strides_of, offset-lt-numel}

abbrev pub grid : ℕ → ℕ → List ℕ → Tensor ℕ
grid a b xs = record {
  shape = a ∷ b ∷ [];
  strides = b ∷ 1 ∷ [];
  values = xs;
  numel = a * b;
  device = cpu;
  dtype = f32;
}

abbrev pub cube : ℕ → ℕ → ℕ → List ℕ → Tensor ℕ
cube a b c xs = record {
  shape = a ∷ b ∷ c ∷ [];
  strides = b * c ∷ c ∷ 1 ∷ [];
  values = xs;
  numel = a * b * c;
  device = cpu;
  dtype = f32;
}

-- Two positions of two heads of one dimension.
abbrev pub rows : Tensor ℕ
rows = grid 2 2 (1 ∷ 2 ∷ 3 ∷ 4 ∷ [])

pub rows-Is2d : Is2d 2 (2 * 1) rows
rows-Is2d = record { shape = refl; strides = refl; numel = refl; stored = refl }

-- One head of two positions.
abbrev pub one_head : Tensor ℕ
one_head = cube 1 2 1 (7 ∷ 8 ∷ [])

pub one_head-Is3d : Is3d 1 2 1 one_head
one_head-Is3d = record { shape = refl; strides = refl; numel = refl; stored = refl }

-- Two heads of two positions.
abbrev pub two_heads : Tensor ℕ
two_heads = cube 2 2 1 (1 ∷ 2 ∷ 3 ∷ 4 ∷ [])

pub two_heads-Is3d : Is3d 2 2 1 two_heads
two_heads-Is3d = record { shape = refl; strides = refl; numel = refl; stored = refl }

abbrev dims : List ℕ
dims = 2 ∷ 3 ∷ 4 ∷ []

abbrev last : List ℕ
last = 1 ∷ 2 ∷ 3 ∷ []

last-IsIndex : IsIndex last dims
last-IsIndex = (omega arith, (omega arith, (omega arith, tt)))

offset-lt-numel_example : offset last (strides_of dims) < numel_from 1 dims
offset-lt-numel_example = offset-lt-numel dims last last-IsIndex
