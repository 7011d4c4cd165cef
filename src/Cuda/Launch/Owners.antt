-- ===== src/Cuda/Launch/Owners.antt =====
-- cpp/src/cuda/cuda_internal.cuh: launches in which every entry of the output has one thread that writes it.
use nanoinfer.Prelude.{ℕ, ◌≤◌, ◌<◌, ◌≡◌, ◌≢◌, List, length, get_or, ◌∙◌}
use nanoinfer.Prelude.Tabulate.{tabulate, eq_tabulate}
use nanoinfer.Cuda.Launch.{run_threads, Order, IsOrder}
use nanoinfer.Cuda.Launch.Laws.{run_threads-keep, run_threads_once, thread_once}

module _ {F : Type 0} (nought : F) (threads size : ℕ) (body : ℕ → List F → List F) (owner : ℕ → ℕ)
    (f : ℕ → F) where
  -- Thread `owner p`, and no other, writes entry `p`, and it writes `f p`.
  pub record IsShared : Type 0 where
    pub owned : (p : ℕ) → p < size → owner p < threads
    pub keeps : (i : ℕ) (o : List F) → length (body i o) ≡ length o
    pub hits :
        (p : ℕ) (o : List F) → p < size → length o ≡ size → get_or (body (owner p) o) p nought ≡ f p
    pub misses :
        (i p : ℕ) (o : List F)
        → p < size
        → i ≢ owner p
        → length o ≡ size
        → get_or (body i o) p nought ≡ get_or o p nought

  -- The order of the threads and what the output held before do not matter.
  pub run_threads-IsShared :
      IsShared
      → (order : Order) (m : ℕ) (out : List F) → IsOrder order
      → threads ≤ m
      → length out ≡ size
      → run_threads (order m) body out ≡ tabulate size f
  run_threads-IsShared v order m out w enough room =
      let keep : (i : ℕ) (o : List F) → length o ≡ size → length (body i o) ≡ size =
        λ i o e. v.keeps i o ∙ e in
      eq_tabulate _ size f nought
        (run_threads-keep (λ o. length o ≡ size) body keep (order m) out room)
        λ p h.
          run_threads_once (λ o. length o ≡ size) body keep (λ o. get_or o p nought) (owner p)
            (λ k o ne e. v.misses k p o h ne e) (λ x. f p) (λ o e. v.hits p o h e) (order m) out
            (thread_once order threads m (owner p) w enough (v.owned p h)) room
