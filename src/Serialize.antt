-- ===== src/Serialize.antt =====
-- cpp/src/serialize.cpp: tensors as the bytes of a file, on a machine that stores the low byte first.
pub mod RoundTrip
pub mod Safety
pub mod Exact
pub mod Tests
use nanoinfer.Prelude.{
  ℕ, zero, suc, ◌+◌, ◌*◌, ◌/◌, ◌%◌, ◌^◌, Bool, true, false, not, ◌&&◌, ◌||◌, List, [], ◌∷◌, ◌++◌,
  map, Option, none, some, length, drop, leb, ltb, ◌==◌, if◌then◌else◌, Result, ok, throw,
  runtime_error, ◌>>=◌, ◌>>◌, raise_if,
}
use nanoinfer.Prelude.Text.{Text, codes, same_text}
use nanoinfer.Floats.{FloatOps}
use nanoinfer.Tensor.{Tensor, cpu, make_tensor}

-- The bytes that are left, and whether a read came up short.
pub record Reader : Type 0 where
  pub rest : Text
  pub failed : Bool

-- The value of at most four bytes over zeros, what follows them, and whether there were fewer.
unfoldable pub take_word : Text → ℕ × Reader
take_word [] = (0, record { rest = []; failed = true })
take_word (a ∷ []) = (a, record { rest = []; failed = true })
take_word (a ∷ b ∷ []) = (a + 256 * b, record { rest = []; failed = true })
take_word (a ∷ b ∷ c ∷ []) = (a + 256 * b + 65536 * c, record { rest = []; failed = true })
take_word (a ∷ b ∷ c ∷ d ∷ s) =
    (a + 256 * b + 65536 * c + 16777216 * d, record { rest = s; failed = false })

-- `f.read(&x, sizeof(x))` for an `int32_t` that is 0 before.
unfoldable pub read_i32 : Reader → ℕ × Reader
unfolding take_word
read_i32 f = if f.failed then (0, f) else take_word f.rest

-- A negative `int32_t`.
abbrev pub is_negative_i32 : ℕ → Bool
is_negative_i32 n = leb (2 ^ 31) n

-- The dimensions of the shape.
unfoldable pub read_shape : ℕ → Reader → Result (List ℕ × Reader)
unfolding read_i32
read_shape zero f = ok ([], f)
read_shape (suc n) f =
    let (d, g) = read_i32 f in
    let rest = read_shape n g in
    if is_negative_i32 d then throw runtime_error else rest >>= λ dims. ok (d ∷ dims.0, dims.1)

-- The four bytes of a 32-bit pattern.
unfoldable pub word_bytes : ℕ → Text
word_bytes n = n % 256 ∷ n / 256 % 256 ∷ n / 65536 % 256 ∷ n / 16777216 % 256 ∷ []

unfoldable pub shape_bytes : List ℕ → Text
unfolding word_bytes
shape_bytes [] = []
shape_bytes (d ∷ ds) = word_bytes (d % 2 ^ 32) ++ shape_bytes ds

-- The four bytes at the front; a file that is shorter leaves them undefined in C++, and has no magic number here.
abbrev pub magic_of : Text → Text
magic_of (a ∷ b ∷ c ∷ d ∷ s) = a ∷ b ∷ c ∷ d ∷ []
magic_of _ = []

abbrev pub after_magic : Text → Reader
after_magic s = record { rest = drop 4 s; failed = false }

module _ (fp : FloatOps) where
  open fp use {Float, zero_f, of_bits, to_bits}

  -- The payload, where its bytes are there.
  unfoldable pub take_floats : ℕ → Text → List Float × Text
  take_floats zero s = ([], s)
  take_floats (suc n) (a ∷ b ∷ c ∷ d ∷ s) =
      let (xs, rest) = take_floats n s in
      (of_bits (a + 256 * b + 65536 * c + 16777216 * d) ∷ xs, rest)
  take_floats (suc n) _ = ([], [])

  -- `bits << 16`
  unfoldable pub take_halves : ℕ → Text → List Float × Text
  take_halves zero s = ([], s)
  take_halves (suc n) (a ∷ b ∷ s) =
      let (xs, rest) = take_halves n s in (of_bits ((a + 256 * b) * 65536) ∷ xs, rest)
  take_halves (suc n) _ = ([], [])

  -- The payload of a tensor and the check for bytes behind it. The count is the product of the dimensions,
  -- which the program computes modulo 2^64: see Tensor.Wrap.
  unfoldable pub load_payload : ℕ → List ℕ → Reader → Result (Tensor Float)
  unfolding take_floats take_halves
  load_payload dtype shape f =
      let t = make_tensor zero_f shape cpu in
      let need = t.numel * (if dtype == 1 then 2 else 4) in
      let (xs, rest) =
        if dtype == 1 then take_halves t.numel f.rest else take_floats t.numel f.rest in
      raise_if (f.failed || ltb (length f.rest) need) runtime_error
      >> raise_if (not (length rest == 0)) runtime_error
      >> ok (record t { values = xs })

  -- What follows the magic number and the dtype.
  unfoldable pub load_dense : ℕ → Reader → Result (Tensor Float)
  unfolding read_i32 read_shape load_payload
  load_dense dtype f =
      let (ndim, g) = read_i32 f in
      let dims = read_shape ndim g in
      raise_if (is_negative_i32 ndim) runtime_error >> dims >>= λ sg.
      load_payload dtype (sg.0) (sg.1)

  -- `none` is a file that does not open.
  unfoldable pub load_bin : Option Text → Result (Tensor Float)
  unfolding same_text load_dense read_i32
  load_bin none = throw runtime_error
  load_bin (some bytes) =
      let magic = magic_of bytes in
      let f = after_magic bytes in
      let (dtype, g) = read_i32 f in
      if same_text magic (codes "NIT1")
      then raise_if (not (dtype == 0) && not (dtype == 1)) runtime_error >> load_dense dtype g
      else if same_text magic (codes "NIT0")
      then load_dense 0 f
      else throw runtime_error

  unfoldable pub float_bytes : List Float → Text
  unfolding word_bytes
  float_bytes [] = []
  float_bytes (x ∷ xs) = word_bytes (to_bits x) ++ float_bytes xs

  -- The bytes of the file, which `opens` or does not.
  unfoldable pub save_bin : Bool → Tensor Float → Result Text
  unfolding word_bytes shape_bytes float_bytes
  save_bin opens t =
      if opens
      then ok (
          codes "NIT0"
          ++ (word_bytes (length t.shape % 2 ^ 32)
              ++ (shape_bytes t.shape ++ float_bytes t.values)))
      else throw runtime_error
