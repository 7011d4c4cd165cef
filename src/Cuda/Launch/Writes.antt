-- ===== src/Cuda/Launch/Writes.antt =====
-- cpp/src/cuda/cuda_internal.cuh: launches whose threads each update one entry of the output.
use nanoinfer.Prelude.{
  ℕ, ◌*◌, ◌^◌, ◌≤◌, ◌<◌, ◌≡◌, ◌≢◌, refl, ap, ◌∙◌, List, arith, length, get_or, set, length-set,
  get_or-set_self, get_or-set_ne, leb, false, inl, inr, Bool-cases, if◌then◌else◌, ok,
}
use nanoinfer.Prelude.Tabulate.{tabulate, eq_tabulate}
use nanoinfer.Cuda.Launch.{grid1d, k_block, run_threads, Order, IsOrder, launch}
use nanoinfer.Cuda.Launch.Laws.{
  grid1d_covers, grid1d_pos, run_threads-keep, run_threads_once, thread_once,
}

pub lt→leb_false : (a b : ℕ) → a < b → leb b a ≡ false
lt→leb_false a b h = ground arith

module _ {F : Type 0} (nought : F) (n : ℕ) (place : ℕ → ℕ) (update : ℕ → F → F) where
  -- `if (i >= n) return; out[place(i)] = update(i, out[place(i)]);`
  abbrev pub at_place : ℕ → List F → List F
  at_place i out =
      if leb n i then out else set out (place i) (update i (get_or out (place i) nought))

  at_place-length : (i : ℕ) (out : List F) → length (at_place i out) ≡ length out
  at_place-length i out = elim (Bool-cases (leb n i)) [
    | inl e ↦ rw e
    | inr e ↦ rw e (length-set out (place i) _)
  ]

  module _ (order : Order) (w : IsOrder order) (out : List F) (pos : 0 < n)
      (small : n ≤ 2 ^ 32) where
    pub after : List F
    after = run_threads (order (grid1d n k_block * k_block)) at_place out

    -- A launch for `n` elements succeeds.
    pub launch-eq : launch order (grid1d n k_block) k_block at_place out ≡ ok after
    unfolding launch after
    launch-eq = rw (grid1d_pos n pos small)

    pub after-length : length after ≡ length out
    unfolding after
    after-length =
        run_threads-keep (λ o. length o ≡ length out) at_place (λ i o e. at_place-length i o ∙ e) _
          out refl

    -- Each entry that a thread updates is updated once, if no two threads share one.
    pub after_at :
        ((i j : ℕ) → i < n → j < n → place i ≡ place j → i ≡ j)
        → (t : ℕ) → t < n
        → place t < length out
        → get_or after (place t) nought ≡ update t (get_or out (place t) nought)
    unfolding after
    after_at inj t h inside =
        run_threads_once (λ o. length o ≡ length out) at_place (λ i o e. at_place-length i o ∙ e)
          (λ o. get_or o (place t) nought) t
          (λ k o ne e. elim (Bool-cases (leb n k)) [
            | inl far ↦ rw far
            | inr near ↦ rw near (
                get_or-set_ne o (place k) (place t) _ nought (λ p. ne (inj k t (ground arith) h p)))
          ])
          (update t)
          (λ o e. rw (lt→leb_false t n h) (get_or-set_self o (place t) _ nought (omega (arith, e))))
          (order (grid1d n k_block * k_block)) out
          (thread_once order n _ t w (grid1d_covers n small) h) refl

    -- The entries that no thread updates are kept.
    pub after_elsewhere :
        (p : ℕ) → ((i : ℕ) → i < n → place i ≢ p) → get_or after p nought ≡ get_or out p nought
    unfolding after
    after_elsewhere p away =
        run_threads-keep (λ o. get_or o p nought ≡ get_or out p nought) at_place
          (λ k o e. elim (Bool-cases (leb n k)) [
            | inl far ↦ rw far e
            | inr near ↦ rw near (get_or-set_ne o (place k) p _ nought (away k (ground arith)) ∙ e)
          ])
          _ out refl

-- Threads that each write the entry of their own number: the buffer is filled, whatever it held before.
module _ {F : Type 0} (nought : F) (n : ℕ) (f : ℕ → F) (order : Order) (w : IsOrder order)
    (pos : 0 < n) (small : n ≤ 2 ^ 32) (out : List F) (room : length out ≡ n) where
  pub launch_fill :
      launch order (grid1d n k_block) k_block (λ i o. if leb n i then o else set o i (f i)) out
      ≡ ok (tabulate n f)
  launch_fill =
      launch-eq nought n (λ i. i) (λ i x. f i) order w out pos small
      ∙ ap ok (
          eq_tabulate _ n f nought
            (after-length nought n (λ i. i) (λ i x. f i) order w out pos small ∙ room)
            (λ i h.
              after_at nought n (λ i. i) (λ i x. f i) order w out pos small (λ i j hi hj e. e) i h
                (omega (arith, room))))
