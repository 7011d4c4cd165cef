-- ===== src/Serialize/RoundTrip.antt =====
-- cpp/src/serialize.cpp: load_bin reads back what save_bin wrote.
use nanoinfer.Prelude.{
  ℕ, ◌+◌, ◌*◌, ◌/◌, ◌%◌, ◌^◌, ◌<◌, ◌≡◌, refl, sym, ◌∙◌, true, false, List, [], ◌∷◌, ◌++◌, some,
  length, arith, ok, ◌>>=◌, ltb,
}
use nanoinfer.Prelude.Text.{Text}
use nanoinfer.Floats.{FloatOps}
use nanoinfer.Tensor.{Tensor, f32, cpu, make_tensor}
use nanoinfer.Tensor.Host.{IsHost}
use nanoinfer.Serialize.{
  Reader, take_word, read_i32, read_shape, word_bytes, take_floats, load_payload, load_dense,
  load_bin, shape_bytes, float_bytes, save_bin, is_negative_i32,
}

word_value :
    (n : ℕ)
    → n < 2 ^ 32
    → n % 256 + 256 * (n / 256 % 256) + 65536 * (n / 65536 % 256) + 16777216 * (n / 16777216 % 256)
      ≡ n
word_value n h = omega arith

-- Every dimension is an `int32_t` that is not negative.
pub data AreDims : List ℕ → Type 0 where
  none_left : AreDims []
  one_more : {d : ℕ} {ds : List ℕ} → d < 2 ^ 31 → AreDims ds → AreDims (d ∷ ds)

reader : Text → Reader
reader s = record { rest = s; failed = false }

read_shape-shape_bytes :
    (shape : List ℕ) (s : Text)
    → AreDims shape
    → read_shape (length shape) (record { rest = shape_bytes shape ++ s; failed = false })
      ≡ ok (shape, record { rest = s; failed = false })
unfolding read_shape shape_bytes
read_shape-shape_bytes [] s w = refl
read_shape-shape_bytes (d ∷ ds) s (AreDims.one_more h w) =
    let low : d % 2 ^ 32 ≡ d = omega arith in
    let nonneg : is_negative_i32 d ≡ false = ground arith in
    simp (low, word_value d (omega arith), nonneg, read_shape-shape_bytes ds s w) refl

-- Floats that are their 32-bit patterns.
pub data ArePatterns (fp : FloatOps) : List fp.Float → Type 0 where
  none_left : ArePatterns fp []
  one_more :
      {x : fp.Float} {xs : List fp.Float}
      → fp.of_bits (fp.to_bits x) ≡ x
      → fp.to_bits x < 2 ^ 32
      → ArePatterns fp xs
      → ArePatterns fp (x ∷ xs)

module _ (fp : FloatOps) where
  open fp use {Float, zero_f, of_bits, to_bits}

  take_floats-float_bytes :
      (xs : List Float)
      → ArePatterns fp xs
      → take_floats fp (length xs) (float_bytes fp xs) ≡ (xs, [])
  unfolding take_floats float_bytes word_bytes
  take_floats-float_bytes [] w = refl
  take_floats-float_bytes (x ∷ xs) (ArePatterns.one_more law small w) =
      simp (take_floats-float_bytes xs w, word_value (to_bits x) small, law) refl

  length-float_bytes : (xs : List Float) → length (float_bytes fp xs) ≡ length xs * 4
  unfolding float_bytes word_bytes
  length-float_bytes [] = refl
  length-float_bytes (x ∷ xs) = omega (arith, length-float_bytes xs)

  load_payload-float_bytes :
      (shape : List ℕ) (t : Tensor Float)
      → IsHost shape t
      → t.device ≡ cpu
      → t.dtype ≡ f32
      → ArePatterns fp t.values
      → load_payload fp 0 shape (record { rest = float_bytes fp t.values; failed = false }) ≡ ok t
  unfolding load_payload make_tensor
  load_payload-float_bytes shape t v dev ty bits =
      let exact : ltb (length (float_bytes fp t.values)) (length t.values * 4) ≡ false =
        ground (arith, length-float_bytes t.values) in
      simp (exact, sym v.stored, take_floats-float_bytes t.values bits) cc
        (v.shaped, v.strided, v.stored, v.counted, dev, ty)

  load_dense_saved :
      (shape : List ℕ) (payload : Text)
      → AreDims shape
      → length shape < 2 ^ 31
      → load_dense fp 0 (record {
        rest = word_bytes (length shape % 2 ^ 32) ++ (shape_bytes shape ++ payload);
        failed = false;
      })
        ≡ load_payload fp 0 shape (record { rest = payload; failed = false })
  unfolding load_dense read_i32 take_word word_bytes
  load_dense_saved shape payload dims few =
      let low : length shape % 2 ^ 32 ≡ length shape = omega arith in
      let nonneg : is_negative_i32 (length shape) ≡ false = ground arith in
      simp
        (
          low,
          word_value (length shape) (omega arith),
          nonneg,
          read_shape-shape_bytes shape payload dims,
        )
        refl

  -- `load_bin` of the bytes that `save_bin` writes for a float tensor on the host is that tensor, where the
  -- number of its dimensions and each of them fit an `int32_t`, and its floats are their 32-bit patterns.
  pub load_bin-save_bin :
      (shape : List ℕ) (t : Tensor Float)
      → IsHost shape t
      → t.device ≡ cpu
      → t.dtype ≡ f32
      → ArePatterns fp t.values
      → AreDims shape
      → length shape < 2 ^ 31
      → (save_bin fp true t >>= λ bytes. load_bin fp (some bytes)) ≡ ok t
  unfolding save_bin load_bin
  load_bin-save_bin shape t v dev ty bits dims few = simp v.shaped (
      load_dense_saved shape (float_bytes fp t.values) dims few
      ∙ load_payload-float_bytes shape t v dev ty bits)
