-- ===== src/Cuda/Launch.antt =====
-- cpp/src/cuda/cuda_runtime.cu and cuda_internal.cuh: launches of kernels, one thread for each element.
-- A launch runs each of its threads once, in an order that the device chooses.
pub mod Laws
pub mod Writes
pub mod Owners
use nanoinfer.Prelude.{
  ℕ, ◌+◌, ◌-◌, ◌*◌, ◌/◌, ◌%◌, ◌^◌, ◌≡◌, List, [], ◌∷◌, count, ltb, ◌==◌, if◌then◌else◌, Result, ok,
  throw, runtime_error,
}

-- `kBlock`
abbrev pub k_block : ℕ
k_block = 256

-- The cast to `int` keeps 32 bits.
unfoldable pub grid1d : ℕ → ℕ → ℕ
grid1d total block = (total + block - 1) / block % 2 ^ 32

-- The threads of the list, one after the other.
unfoldable pub run_threads {ℓ} : {S : Type ℓ} → List ℕ → (ℕ → S → S) → S → S
run_threads [] kernel s = s
run_threads (i ∷ is) kernel s = run_threads is kernel (kernel i s)

-- The order of the threads in a launch of `n` threads.
abbrev pub Order : Type 0
Order = ℕ → List ℕ

-- Each thread runs once.
abbrev pub IsOrder : Order → Type 0
IsOrder order = (n i : ℕ) → count i (order n) ≡ (if ltb i n then 1 else 0)

-- `kernel<<<blocks, threads>>>(...)` and the check after it: a grid without blocks is refused. Thread
-- `i` has `blockIdx.x * blockDim.x + threadIdx.x == i`.
unfoldable pub launch {ℓ} : {S : Type ℓ} → Order → ℕ → ℕ → (ℕ → S → S) → S → Result S
launch order blocks threads kernel s =
    if blocks == 0
    then throw runtime_error
    else ok (run_threads (order (blocks * threads)) kernel s)
