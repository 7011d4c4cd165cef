-- ===== src/Tensor/Layout.antt =====
-- cpp/src/tensor.cpp: the strides of a tensor lay its entries out one by one.
use native.Mathlib.Nat.{mul_comm, mul_assoc}
use nanoinfer.Prelude.{ℕ, ◌+◌, ◌*◌, ◌<◌, ◌≡◌, refl, ap, ◌∙◌, List, [], ◌∷◌, arith}
use nanoinfer.Prelude.Arith.{row_inj, row_bound}
use nanoinfer.Tensor.{numel_from, strides_from_right}

abbrev pub product : List ℕ → ℕ
product [] = 1
product (d ∷ ds) = d * product ds

pub numel_from-product : (n : ℕ) (ds : List ℕ) → numel_from n ds ≡ n * product ds
unfolding numel_from
numel_from-product n [] = omega arith
numel_from-product n (d ∷ ds) = numel_from-product (n * d) ds ∙ mul_assoc n d (product ds)

pub acc-product : (ds : List ℕ) → (strides_from_right ds).1 ≡ product ds
unfolding strides_from_right
acc-product [] = refl
acc-product (d ∷ ds) = ap (λ n. n * d) (acc-product ds) ∙ mul_comm (product ds) d

-- The offset of an index, axis by axis.
abbrev pub offset : List ℕ → List ℕ → ℕ
offset (i ∷ is) (s ∷ ss) = i * s + offset is ss
offset _ _ = 0

-- An index within the shape.
abbrev pub IsIndex : List ℕ → List ℕ → Type 0
IsIndex [] [] = Unit {0}
IsIndex (i ∷ is) (d ∷ ds) = (i < d) × IsIndex is ds
IsIndex _ _ = ⊥

-- The strides that the constructor computes.
abbrev pub strides_of : List ℕ → List ℕ
strides_of ds = (strides_from_right ds).0

offset_below-product : (ds is : List ℕ) → IsIndex is ds → offset is (strides_of ds) < product ds
unfolding strides_from_right
offset_below-product [] [] h = omega arith
offset_below-product [] (i ∷ is) h = absurd h
offset_below-product (d ∷ ds) [] h = absurd h
offset_below-product (d ∷ ds) (i ∷ is) h =
    rw (acc-product ds)
      (row_bound (product ds) d i (offset is (strides_of ds)) h.0 (offset_below-product ds is h.1))

-- An index within the shape points into the host vector.
pub offset-lt-numel : (ds is : List ℕ) → IsIndex is ds → offset is (strides_of ds) < numel_from 1 ds
offset-lt-numel ds is h = omega (arith, offset_below-product ds is h, numel_from-product 1 ds)

-- Two indices within the shape that point to one entry are equal.
pub offset_inj :
    (ds is js : List ℕ)
    → IsIndex is ds
    → IsIndex js ds
    → offset is (strides_of ds) ≡ offset js (strides_of ds)
    → is ≡ js
unfolding strides_from_right
offset_inj [] [] [] h k e = refl
offset_inj [] [] (j ∷ js) h k e = absurd k
offset_inj [] (i ∷ is) js h k e = absurd h
offset_inj (d ∷ ds) [] js h k e = absurd h
offset_inj (d ∷ ds) (i ∷ is) [] h k e = absurd k
offset_inj (d ∷ ds) (i ∷ is) (j ∷ js) h k e =
    let (head, rest) =
      row_inj (product ds) i (offset is (strides_of ds)) j (offset js (strides_of ds))
        (offset_below-product ds is h.1) (offset_below-product ds js k.1)
        (rw (acc-product ds) at e) in
    cc (head, offset_inj ds is js h.1 k.1 rest)
