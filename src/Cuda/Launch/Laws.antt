-- ===== src/Cuda/Launch/Laws.antt =====
-- cpp/src/cuda/cuda_internal.cuh: what a launch writes does not depend on the order of its threads.
use nanoinfer.Prelude.{
  ℕ, ◌+◌, ◌*◌, ◌^◌, ◌≤◌, ◌<◌, ◌≡◌, ◌≢◌, refl, sym, ap, subst, ◌∙◌, List, [], ◌∷◌, arith, count,
  count-cons, count-nil, ◌==◌, ℕ_discrete, ne→==, lt→ltb, false,
}
use nanoinfer.Cuda.Launch.{grid1d, k_block, run_threads, Order, IsOrder}

-- The blocks cover the elements.
pub grid1d_covers : (n : ℕ) → n ≤ 2 ^ 32 → n ≤ grid1d n k_block * k_block
unfolding grid1d
grid1d_covers n small = omega arith

pub grid1d_pos : (n : ℕ) → 0 < n → n ≤ 2 ^ 32 → (grid1d n k_block == 0) ≡ false
unfolding grid1d
grid1d_pos n pos small = ne→== _ 0 (omega arith)

count_here : (t i : ℕ) (is : List ℕ) → i ≡ t → count t (i ∷ is) ≡ 1 + count t is
count_here t i is e = count-cons t i is ∙ ground arith

count_there : (t i : ℕ) (is : List ℕ) → i ≢ t → count t (i ∷ is) ≡ count t is
count_there t i is ne = count-cons t i is ∙ ground arith

module _ {ℓ κ} {S : Type ℓ} (Inv : S → Type κ) (kernel : ℕ → S → S)
    (keep : (i : ℕ) (s : S) → Inv s → Inv (kernel i s)) where
  pub run_threads-keep : (is : List ℕ) (s : S) → Inv s → Inv (run_threads is kernel s)
  unfolding run_threads
  run_threads-keep [] s v = v
  run_threads-keep (i ∷ is) s v = run_threads-keep is (kernel i s) (keep i s v)

  module _ {μ} {X : Type μ} (obs : S → X) (t : ℕ)
      (others : (k : ℕ) (s : S) → k ≢ t → Inv s → obs (kernel k s) ≡ obs s) where
    run_threads_without :
        (is : List ℕ) (s : S) → count t is ≡ 0 → Inv s → obs (run_threads is kernel s) ≡ obs s
    unfolding run_threads
    run_threads_without [] s none_left v = refl
    run_threads_without (i ∷ is) s none_left v = elim (ℕ_discrete i t) [
      | yes e ↦ absurd (omega (arith, count_here t i is e))
      | no ne ↦
          run_threads_without is (kernel i s) (omega (arith, count_there t i is ne)) (keep i s v)
          ∙ others i s ne v
    ]

    -- What thread `t` alone changes, it changes once.
    pub run_threads_once :
        (f : X → X)
        → ((s : S) → Inv s → obs (kernel t s) ≡ f (obs s))
        → (is : List ℕ) (s : S) → count t is ≡ 1
        → Inv s
        → obs (run_threads is kernel s) ≡ f (obs s)
    unfolding run_threads
    run_threads_once f own [] s once v = absurd (omega (arith, count-nil t))
    run_threads_once f own (i ∷ is) s once v = elim (ℕ_discrete i t) [
      | yes e ↦
          run_threads_without is (kernel i s) (omega (arith, count_here t i is e)) (keep i s v)
          ∙ subst (λ k. obs (kernel k s) ≡ f (obs s)) (sym e) (own s v)
      | no ne ↦
          run_threads_once f own is (kernel i s) (omega (arith, count_there t i is ne)) (keep i s v)
          ∙ ap f (others i s ne v)
    ]

-- A thread of a launch of at least `n` threads, when `t < n`.
pub thread_once :
    (order : Order) (n m t : ℕ) → IsOrder order → n ≤ m → t < n → count t (order m) ≡ 1
thread_once order n m t w h lt = w m t ∙ rw (lt→ltb t m (omega arith))
