-- ===== src/Cuda/Paged/Leaves.antt =====
-- cpp/src/cuda/cuda_backend.cu: what the methods of CudaBlockPool leave, whether they throw or not.
use nanoinfer.Prelude.{
  ℕ, ◌≡◌, refl, Bool, true, false, ◌||◌, List, [], ◌∷◌, get_or, leb, ◌==◌, if◌then◌else◌,
  is_negative, Result, ok, throw, continue, lift,
}
use nanoinfer.Cuda.Paged.Pool.{CudaBlockPool, allocate, pop_free, incref, free}
use nanoinfer.Cuda.Paged.Cache.{free_all, incref_all}

-- What is left of the state, whether the call throws or not.
pub data Leaves {A S : Type 0} (P : S → Type 0) : Result A × S → Type 0 where
  leaves : {r : Result A} {s : S} → P s → Leaves P (r, s)

pub Leaves-continue :
    {A B S : Type 0} {P : S → Type 0} {m : Result A × S} {f : A → S → Result B × S}
    → Leaves P m
    → ((a : A) (s : S) → P s → Leaves P (f a s))
    → Leaves P (continue m f)
Leaves-continue {m = (ok a, s)} (leaves p) h = h a s p
Leaves-continue {m = (throw e, s)} (leaves p) h = leaves p

pub Leaves-lift :
    {A S T : Type 0} {P : S → Type 0} {Q : T → Type 0} {m : Result A × S} (h : S → T)
    → Leaves P m
    → ((s : S) → P s → Q (h s))
    → Leaves Q (lift h m)
Leaves-lift {m = (ok a, s)} h (leaves p) keep = leaves (keep s p)
Leaves-lift {m = (throw e, s)} h (leaves p) keep = leaves (keep s p)

pub Leaves-if :
    {A S : Type 0} {P : S → Type 0} (b : Bool) {x y : Result A × S}
    → Leaves P x
    → Leaves P y
    → Leaves P (if b then x else y)
Leaves-if true p q = p
Leaves-if false p q = q

-- The branch that is taken knows the test.
pub Leaves-test :
    {A S : Type 0} {P : S → Type 0} (b : Bool) {x y : Result A × S}
    → (b ≡ true → Leaves P x)
    → (b ≡ false → Leaves P y)
    → Leaves P (if b then x else y)
Leaves-test true p q = p refl
Leaves-test false p q = q refl

pub Leaves-elim :
    {A S : Type 0} {P : S → Type 0} (b : Bool) {x y : Result A × S}
    → Leaves P x
    → Leaves P y
    → Leaves {A = A} P (elim b [ true ↦ x | false ↦ y ])
Leaves-elim true p q = p
Leaves-elim false p q = q

pub Leaves-state : {A S : Type 0} {P : S → Type 0} {m : Result A × S} → Leaves P m → P (m.1)
Leaves-state (leaves p) = p

module _ {F : Type 0} where
  abbrev pub HasSize : ℕ → CudaBlockPool F → Type 0
  HasSize n p = p.num_blocks ≡ n

  pub allocate-HasSize :
      (n : ℕ) (p : CudaBlockPool F) → HasSize n p → Leaves (HasSize n) (allocate p)
  unfolding allocate pop_free
  allocate-HasSize n p e = go p.free_list
    where
      go : (ids : List ℕ) → Leaves (HasSize n) (pop_free ids p)
      go [] = leaves e
      go (b ∷ ids) = leaves e

  incref-HasSize : (n b : ℕ) (p : CudaBlockPool F) → HasSize n p → Leaves (HasSize n) (incref b p)
  unfolding incref
  incref-HasSize n b p e =
      Leaves-if (is_negative b || leb p.num_blocks b) (leaves e)
        (Leaves-if (get_or p.refcount b 0 == 0) (leaves e) (leaves e))

  free-HasSize : (n b : ℕ) (p : CudaBlockPool F) → HasSize n p → Leaves (HasSize n) (free b p)
  unfolding free
  free-HasSize n b p e =
      Leaves-if (is_negative b || leb p.num_blocks b) (leaves e)
        (Leaves-if (get_or p.refcount b 0 == 0) (leaves e) (leaves e))

  pub free_all-HasSize :
      (n : ℕ) (bs : List ℕ) (p : CudaBlockPool F) → HasSize n p → Leaves (HasSize n) (free_all bs p)
  unfolding free_all
  free_all-HasSize n [] p e = leaves e
  free_all-HasSize n (b ∷ bs) p e =
      Leaves-continue (free-HasSize n b p e) λ _ q. free_all-HasSize n bs q

  pub incref_all-HasSize :
      (n : ℕ) (bs : List ℕ) (p : CudaBlockPool F)
      → HasSize n p
      → Leaves (HasSize n) (incref_all bs p)
  unfolding incref_all
  incref_all-HasSize n [] p e = leaves e
  incref_all-HasSize n (b ∷ bs) p e =
      Leaves-continue (incref-HasSize n b p e) λ _ q. incref_all-HasSize n bs q
