-- ===== src/KvCache/Buffers.antt =====
-- cpp/src/cache.cpp: a key tensor and a value tensor that are read and written together.
use nanoinfer.Prelude.{ℕ, ◌<◌, ◌≡◌, ap₂}
use nanoinfer.Tensor.{Tensor, at3, set_at3}
use nanoinfer.Tensor.Access.{Is3d, at3-set_at3_self, at3-set_at3_ne, set_at3-Is3d}

-- Keys and values.
abbrev pub Planes : Type 0 → Type 0
Planes F = Tensor F × Tensor F

abbrev pub read : {F : Type 0} → F → Planes F → ℕ → ℕ → ℕ → F × F
read nought p h s d = (at3 nought (p.0) h s d, at3 nought (p.1) h s d)

abbrev pub write : {F : Type 0} → Planes F → ℕ → ℕ → ℕ → F × F → Planes F
write p h s d x = (set_at3 (p.0) h s d (x.0), set_at3 (p.1) h s d (x.1))

abbrev pub ArePlanes : {F : Type 0} → ℕ → ℕ → ℕ → Planes F → Type 0
ArePlanes a b c p = Is3d a b c (p.0) × Is3d a b c (p.1)

module _ {F : Type 0} (nought : F) (a b c : ℕ) where
  pub read-write_self :
      (p : Planes F) (i j k : ℕ) (x : F × F)
      → ArePlanes a b c p
      → i < a
      → j < b
      → k < c
      → read nought (write p i j k x) i j k ≡ x
  read-write_self p i j k x v hi hj hk =
      ap₂ (λ (y z : F). let q : F × F = (y, z) in q)
        (at3-set_at3_self nought a b c (p.0) i j k (x.0) v.0 hi hj hk)
        (at3-set_at3_self nought a b c (p.1) i j k (x.1) v.1 hi hj hk)

  pub read-write_ne :
      (p : Planes F) (i j k i' j' k' : ℕ) (x : F × F)
      → ArePlanes a b c p
      → j < b
      → k < c
      → j' < b
      → k' < c
      → ¬ ((i' ≡ i) × (j' ≡ j) × (k' ≡ k))
      → read nought (write p i' j' k' x) i j k ≡ read nought p i j k
  read-write_ne p i j k i' j' k' x v hj hk hj' hk' ne =
      ap₂ (λ (y z : F). let q : F × F = (y, z) in q)
        (at3-set_at3_ne nought a b c (p.0) i j k i' j' k' (x.0) v.0 hj hk hj' hk' ne)
        (at3-set_at3_ne nought a b c (p.1) i j k i' j' k' (x.1) v.1 hj hk hj' hk' ne)

  pub write-ArePlanes :
      (p : Planes F) (i j k : ℕ) (x : F × F) → ArePlanes a b c p → ArePlanes a b c (write p i j k x)
  write-ArePlanes p i j k x v = (
    set_at3-Is3d nought a b c (p.0) i j k (x.0) v.0,
    set_at3-Is3d nought a b c (p.1) i j k (x.1) v.1,
  )
