-- ===== src/Prelude/Loops.antt =====
-- `for (i = lo; i < lo + n; ++i) s = body(i, s)`, and the rules that proofs use for it.
use Prim.Native.Nat.{ℕ, zero, suc, ◌+◌, ◌≤◌, ◌<◌}
use mathlib.Core.Path.{◌≡◌, refl, sym, ap, subst, ◌∙◌}
use mathlib.Core.Logic.{◌≢◌}
use native.Mathlib.Omega.{arith}
use native.Mathlib.Decide.{ℕ_discrete}

unfoldable pub for_range {ℓ} : {S : Type ℓ} → ℕ → ℕ → (ℕ → S → S) → S → S
for_range zero lo round state = state
for_range (suc rounds) lo round state = for_range rounds (lo + 1) round (round lo state)

module _ {ℓ κ} {S : Type ℓ} (Inv : S → Type κ) (body : ℕ → S → S)
    (keep : (i : ℕ) (s : S) → Inv s → Inv (body i s)) where
  -- An invariant of the body is one of the loop.
  pub for_range-keep : (n i : ℕ) (s : S) → Inv s → Inv (for_range n i body s)
  unfolding for_range
  for_range-keep zero i s v = v
  for_range-keep (suc n) i s v = for_range-keep n (i + 1) (body i s) (keep i s v)

  module _ {μ} {X : Type μ} (obs : S → X) where
    -- What no round changes, the loop does not change.
    pub for_range-miss :
        (n i : ℕ) (s : S)
        → ((k : ℕ) (s : S) → i ≤ k → k < i + n → Inv s → obs (body k s) ≡ obs s)
        → Inv s
        → obs (for_range n i body s) ≡ obs s
    unfolding for_range
    for_range-miss zero i s miss v = refl
    for_range-miss (suc n) i s miss v =
        for_range-miss n (i + 1) (body i s) (λ k t a b. miss k t (omega arith) (omega arith))
          (keep i s v)
        ∙ miss i s (omega arith) (omega arith) v

    -- What round `t` alone sets is set after the loop.
    pub for_range-hit :
        (t : ℕ) (x : X) (n i : ℕ) (s : S)
        → i ≤ t
        → t < i + n
        → ((s : S) → Inv s → obs (body t s) ≡ x)
        → ((k : ℕ) (s : S) → i ≤ k → k < i + n → k ≢ t → Inv s → obs (body k s) ≡ obs s)
        → Inv s
        → obs (for_range n i body s) ≡ x
    unfolding for_range
    for_range-hit t x zero i s lo hi hit miss v = absurd (omega arith)
    for_range-hit t x (suc n) i s lo hi hit miss v = elim (ℕ_discrete i t) [
      | yes e ↦
          for_range-miss n (i + 1) (body i s)
            (λ k u a b. miss k u (omega arith) (omega arith) (omega arith)) (keep i s v)
          ∙ subst (λ k. obs (body k s) ≡ x) (sym e) (hit s v)
      | no ne ↦
          for_range-hit t x n (i + 1) (body i s) (omega arith) (omega arith) hit
            (λ k u a b. miss k u (omega arith) (omega arith)) (keep i s v)
    ]

-- Three nested loops from 0.
unfoldable pub for3 {ℓ} : {S : Type ℓ} → ℕ → ℕ → ℕ → (ℕ → ℕ → ℕ → S → S) → S → S
for3 a b c body = for_range a 0 λ i. for_range b 0 λ j. for_range c 0 λ k. body i j k

module _ {ℓ κ} {S : Type ℓ} (Inv : S → Type κ) (body : ℕ → ℕ → ℕ → S → S)
    (keep : (i j k : ℕ) (s : S) → Inv s → Inv (body i j k s)) (a b c : ℕ) where
  pub for3-keep : (s : S) → Inv s → Inv (for3 a b c body s)
  unfolding for3
  for3-keep s v =
      for_range-keep Inv _
        (λ i t w.
          for_range-keep Inv _ (λ j u x. for_range-keep Inv _ (λ k. keep i j k) c 0 u x) b 0 t w)
        a 0 s v

  keep_row : (i j : ℕ) (s : S) → Inv s → Inv (for_range c 0 (λ k. body i j k) s)
  keep_row i j s v = for_range-keep Inv _ (λ k. keep i j k) c 0 s v

  keep_plane :
      (i : ℕ) (s : S) → Inv s → Inv (for_range b 0 (λ j. for_range c 0 (λ k. body i j k)) s)
  keep_plane i s v = for_range-keep Inv _ (λ j. keep_row i j) b 0 s v

  module _ {μ} {X : Type μ} (obs : S → X) where
    -- What no round changes, the loops do not change.
    pub for3-miss :
        (s : S)
        → ((i j k : ℕ) (s : S) → i < a → j < b → k < c → Inv s → obs (body i j k s) ≡ obs s)
        → Inv s
        → obs (for3 a b c body s) ≡ obs s
    unfolding for3
    for3-miss s miss v =
        for_range-miss Inv _ (λ i. keep_plane i) obs a 0 s
          (λ i t _ hi w.
            for_range-miss Inv _ (λ j. keep_row i j) obs b 0 t
              (λ j u _ hj x.
                for_range-miss Inv _ (λ k. keep i j k) obs c 0 u
                  (λ k y _ hk. miss i j k y (omega arith) (omega arith) (omega arith)) x)
              w)
          v

    -- What the round at `(i, j, k)` alone sets is set after the loops.
    pub for3-hit :
        (i j k : ℕ) (x : X) (s : S)
        → i < a
        → j < b
        → k < c
        → ((s : S) → Inv s → obs (body i j k s) ≡ x)
        → ((i' j' k' : ℕ) (s : S)
            → i' < a
            → j' < b
            → k' < c
            → ¬ ((i' ≡ i) × (j' ≡ j) × (k' ≡ k))
            → Inv s
            → obs (body i' j' k' s) ≡ obs s)
        → Inv s
        → obs (for3 a b c body s) ≡ x
    unfolding for3
    for3-hit i j k x s hi hj hk hit miss v =
        for_range-hit Inv _ (λ i. keep_plane i) obs i x a 0 s (omega arith) (omega arith)
          (λ t w.
            for_range-hit Inv _ (λ j. keep_row i j) obs j x b 0 t (omega arith) (omega arith)
              (λ u y.
                for_range-hit Inv _ (λ k. keep i j k) obs k x c 0 u (omega arith) (omega arith) hit
                  (λ k' z _ h ne. miss i j k' z hi hj (omega arith) (λ e. ne e.2)) y)
              (λ j' u _ h ne y.
                for_range-miss Inv _ (λ k. keep i j' k) obs c 0 u
                  (λ k' z _ l. miss i j' k' z hi (omega arith) (omega arith) (λ e. ne e.1)) y)
              w)
          (λ i' t _ h ne w.
            for_range-miss Inv _ (λ j. keep_row i' j) obs b 0 t
              (λ j' u _ l y.
                for_range-miss Inv _ (λ k. keep i' j' k) obs c 0 u
                  (λ k' z _ m.
                    miss i' j' k' z (omega arith) (omega arith) (omega arith) (λ e. ne e.0))
                  y)
              w)
          v

-- Loops whose rounds agree within the range agree.
pub for_range-cong {ℓ} :
    {S : Type ℓ} (f g : ℕ → S → S) (n i : ℕ) (s : S)
    → ((k : ℕ) (s : S) → i ≤ k → k < i + n → f k s ≡ g k s)
    → for_range n i f s ≡ for_range n i g s
unfolding for_range
for_range-cong f g zero i s same = refl
for_range-cong f g (suc n) i s same =
    ap (for_range n (i + 1) f) (same i s (omega arith) (omega arith))
    ∙ for_range-cong f g n (i + 1) (g i s) (λ k t a b. same k t (omega arith) (omega arith))

pub for3-cong {ℓ} :
    {S : Type ℓ} (f g : ℕ → ℕ → ℕ → S → S) (a b c : ℕ) (s : S)
    → ((i j k : ℕ) (s : S) → i < a → j < b → k < c → f i j k s ≡ g i j k s)
    → for3 a b c f s ≡ for3 a b c g s
unfolding for3
for3-cong f g a b c s same = for_range-cong _ _ a 0 s λ i t _ hi.
    for_range-cong _ _ b 0 t λ j u _ hj.
      for_range-cong _ _ c 0 u λ k w _ hk. same i j k w (omega arith) (omega arith) (omega arith)

-- A loop that counts from another start.
pub for_range-shift {ℓ} :
    {S : Type ℓ} (body : ℕ → S → S) (from n i : ℕ) (s : S)
    → for_range n i (λ k. body (from + k)) s ≡ for_range n (from + i) body s
unfolding for_range
for_range-shift body from zero i s = refl
for_range-shift body from (suc n) i s =
    for_range-shift body from n (i + 1) (body (from + i) s)
    ∙ ap (λ k. for_range n k body (body (from + i) s)) (omega arith)

-- An invariant that counts the rounds.
pub for_range-count {ℓ κ} :
    {S : Type ℓ} (Inv : ℕ → S → Type κ) (body : ℕ → S → S) (n i : ℕ) (s : S)
    → ((k : ℕ) (s : S) → i ≤ k → k < i + n → Inv k s → Inv (k + 1) (body k s))
    → Inv i s
    → Inv (i + n) (for_range n i body s)
unfolding for_range
for_range-count Inv body zero i s keep v = subst (λ k. Inv k s) (omega arith) v
for_range-count Inv body (suc n) i s keep v =
    subst (λ k. Inv k (for_range n (i + 1) body (body i s))) (omega arith)
      (for_range-count Inv body n (i + 1) (body i s)
        (λ k t lo hi. keep k t (omega arith) (omega arith))
        (keep i s (omega arith) (omega arith) v))

-- A view of the state turns one loop into another.
pub for_range-map {ℓ κ} :
    {S : Type ℓ} {T : Type κ} (view : S → T) (f : ℕ → S → S) (g : ℕ → T → T) (n i : ℕ) (s : S)
    → ((k : ℕ) (s : S) → i ≤ k → k < i + n → view (f k s) ≡ g k (view s))
    → view (for_range n i f s) ≡ for_range n i g (view s)
unfolding for_range
for_range-map view f g zero i s same = refl
for_range-map view f g (suc n) i s same =
    for_range-map view f g n (i + 1) (f i s) (λ k t lo hi. same k t (omega arith) (omega arith))
    ∙ ap (for_range n (i + 1) g) (same i s (omega arith) (omega arith))

-- The last round of a loop.
pub for_range-last {ℓ} :
    {S : Type ℓ} (body : ℕ → S → S) (n i : ℕ) (s : S)
    → for_range (suc n) i body s ≡ body (i + n) (for_range n i body s)
unfolding for_range
for_range-last body zero i s = ap (λ k. body k s) (omega arith)
for_range-last body (suc n) i s =
    for_range-last body n (i + 1) (body i s)
    ∙ ap (λ k. body k (for_range n (i + 1) body (body i s))) (omega arith)

pub for_range_none {ℓ} :
    {S : Type ℓ} (body : ℕ → S → S) (n i : ℕ) (s : S) → n ≡ 0 → for_range n i body s ≡ s
unfolding for_range
for_range_none body zero i s e = refl
for_range_none body (suc n) i s e = absurd (omega (arith, e))
