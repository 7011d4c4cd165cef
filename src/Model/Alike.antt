-- ===== src/Model/Alike.antt =====
-- Two runs of a chain of calls on different states.
use nanoinfer.Prelude.{
  ℕ, zero, suc, ◌+◌, ◌<◌, subst, arith, Error, Result, ok, throw, Method, Yields, yields, throws,
}
use nanoinfer.Prelude.Methods.{for_method, ◌>>=◌}

-- Both runs succeed with one value, and `P` holds of it and the states after; or both throw one exception.
pub data Alike {A X Y : Type 0} (P : A → X → Y → Type 0)
    : Result A × X → Result A × Y → Type 0 where
  both : {a : A} {x : X} {y : Y} → P a x y → Alike P (ok a, x) (ok a, y)
  neither : {e : Error} {x : X} {y : Y} → Alike P (throw e, x) (throw e, y)

module _ {A B X Y : Type 0} {P : A → X → Y → Type 0} {Q : B → X → Y → Type 0} where
  after_both :
      (r : Result A × X) (r' : Result A × Y) (f : A → Method X B) (f' : A → Method Y B)
      → Alike P r r'
      → ((a : A) (x : X) (y : Y) → P a x y → Alike Q (f a x) (f' a y))
      → Alike Q
          (elim (r.0) [ ok a ↦ f a (r.1) | throw e ↦ (throw e, r.1) ])
          (elim (r'.0) [ ok a ↦ f' a (r'.1) | throw e ↦ (throw e, r'.1) ])
  after_both (ok a, x) (ok a', y) f f' (both p) h = h a x y p
  after_both (throw e, x) (throw e', y) f f' neither h = neither
  after_both (ok a, x) (throw e', y) f f' w h = elim w [ ]
  after_both (throw e, x) (ok a', y) f f' w h = elim w [ ]

  pub Alike-bind :
      (m : Method X A) (m' : Method Y A) (f : A → Method X B) (f' : A → Method Y B) (x : X) (y : Y)
      → Alike P (m x) (m' y)
      → ((a : A) (x : X) (y : Y) → P a x y → Alike Q (f a x) (f' a y))
      → Alike Q ((m >>= f) x) ((m' >>= f') y)
  Alike-bind m m' f f' x y w h = after_both (m x) (m' y) f f' w h

module _ {A B X Y : Type 0} {P : A → Type 0} {Q : B → X → Y → Type 0} where
  -- A call that does not touch the states.
  pub Alike-run :
      (r : Result A) (f : A → Result B × X) (f' : A → Result B × Y) (x : X) (y : Y)
      → Yields P r
      → ((a : A) → P a → Alike Q (f a) (f' a))
      → Alike Q
          (elim r [ ok a ↦ f a | throw e ↦ (throw e, x) ])
          (elim r [ ok a ↦ f' a | throw e ↦ (throw e, y) ])
  Alike-run (ok a) f f' x y (yields p) h = h a p
  Alike-run (throw e) f f' x y throws h = neither

-- Such a call at the end.
pub Alike-last :
    {A X Y : Type 0} {P : A → X → Y → Type 0} (r : Result A) (x : X) (y : Y)
    → Yields (λ a. P a x y) r
    → Alike P (r, x) (r, y)
Alike-last (ok a) x y (yields p) = both p
Alike-last (throw e) x y throws = neither

module _ {A X Y : Type 0} (P : ℕ → A → X → Y → Type 0) (body : ℕ → A → Method X A)
    (body' : ℕ → A → Method Y A) where
  pub Alike-for_method :
      (n i : ℕ) (a : A) (x : X) (y : Y)
      → ((k : ℕ) (a : A) (x : X) (y : Y)
          → k < i + n
          → P k a x y
          → Alike (P (k + 1)) (body k a x) (body' k a y))
      → P i a x y
      → Alike (P (i + n)) (for_method n i body a x) (for_method n i body' a y)
  unfolding for_method
  Alike-for_method zero i a x y keep p =
      subst (λ k. Alike (P k) (ok a, x) (ok a, y)) (omega arith) (both p)
  Alike-for_method (suc n) i a x y keep p =
      Alike-bind (body i a) (body' i a) _ _ x y (keep i a x y (omega arith) p) λ b u v q.
        subst (λ k. Alike (P k) (for_method n (i + 1) body b u) (for_method n (i + 1) body' b v))
          (omega arith)
          (Alike-for_method n (i + 1) b u v (λ k c u v h. keep k c u v (omega arith)) q)
