-- ===== src/Cuda/Memory.antt =====
-- cpp/src/cuda/cuda_runtime.cu, DevicePool: the buffers on the device that are kept for reuse. A pointer is a
-- number; `unordered_map` is a list of entries, of which the first with a key counts.
pub mod Safety
pub mod Tests
use nanoinfer.Prelude.{ℕ, ◌+◌, ◌≡◌, List, [], ◌∷◌, ◌++◌, Option, some, none, ◌==◌, if◌then◌else◌}

-- `find(key)`
unfoldable pub lookup : {A : Type 0} → ℕ → List (ℕ × A) → Option A
lookup key [] = none
lookup key ((k, a) ∷ xs) = if k == key then some a else lookup key xs

-- `map[key] = a`
unfoldable pub put : {A : Type 0} → ℕ → A → List (ℕ × A) → List (ℕ × A)
put key a [] = (key, a) ∷ []
put key a ((k, b) ∷ xs) = if k == key then (k, a) ∷ xs else (k, b) ∷ put key a xs

-- `erase(key)`
unfoldable pub erase : {A : Type 0} → ℕ → List (ℕ × A) → List (ℕ × A)
erase key [] = []
erase key ((k, b) ∷ xs) = if k == key then erase key xs else (k, b) ∷ erase key xs

-- `free_` and `size_of_`. The head of a list of buffers is the back of the vector.
pub record DevicePool : Type 0 where
  pub free_lists : List (ℕ × List ℕ)
  pub size_of : List (ℕ × ℕ)

-- The buffers of a size, if the map has the key.
abbrev pub or_empty : Option (List ℕ) → List ℕ
or_empty none = []
or_empty (some bs) = bs

abbrev pub bin : ℕ → DevicePool → List ℕ
bin nbytes p = or_empty (lookup nbytes p.free_lists)

-- A buffer for reuse, or else a new one.
unfoldable pub take_buffer : List ℕ → ℕ → ℕ → DevicePool → ℕ × DevicePool
take_buffer [] fresh nbytes p = (fresh, record p { size_of = put fresh nbytes p.size_of })
take_buffer (b ∷ bs) fresh nbytes p = (b, record p { free_lists = put nbytes bs p.free_lists })

-- `fresh` is what `cudaMalloc` returns, if it is called.
unfoldable pub acquire : ℕ → ℕ → DevicePool → ℕ × DevicePool
unfolding take_buffer lookup
acquire fresh nbytes p = take_buffer (bin nbytes p) fresh nbytes p

-- A buffer of the size that the map has for it; a pointer that the pool does not know goes to `cudaFree`.
unfoldable pub keep_buffer : Option ℕ → ℕ → DevicePool → DevicePool
keep_buffer none b p = p
keep_buffer (some nbytes) b p = record p { free_lists = put nbytes (b ∷ bin nbytes p) p.free_lists }

unfoldable pub release : ℕ → DevicePool → DevicePool
unfolding keep_buffer lookup
release b p = keep_buffer (lookup b p.size_of) b p

-- The buffers of all the free lists.
unfoldable pub all_free : List (ℕ × List ℕ) → List ℕ
all_free [] = []
all_free ((k, bs) ∷ xs) = bs ++ all_free xs

unfoldable pub erase_all : List ℕ → List (ℕ × ℕ) → List (ℕ × ℕ)
unfolding erase
erase_all [] sizes = sizes
erase_all (b ∷ bs) sizes = erase_all bs (erase b sizes)

unfoldable pub trim : DevicePool → DevicePool
unfolding all_free erase_all
trim p = record { free_lists = []; size_of = erase_all (all_free p.free_lists) p.size_of }
