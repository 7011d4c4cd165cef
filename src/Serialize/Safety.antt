-- ===== src/Serialize/Safety.antt =====
-- cpp/src/serialize.cpp: the tensor that load_bin makes of a file.
use nanoinfer.Prelude.{
  ℕ, zero, suc, ◌*◌, ◌<◌, ◌≤◌, ◌^◌, ◌≡◌, refl, sym, ap, subst, ◌∙◌, inl, inr, Bool, Bool-cases,
  true, false, not, ◌&&◌, ◌||◌, List, [], ◌∷◌, Option, none, some, length, arith, Result, ok, throw,
  runtime_error, ◌>>=◌, ◌>>◌, raise_if, ◌==◌, ltb, Yields, Yields-ok,
}
use nanoinfer.Prelude.Text.{Text, codes, same_text}
use nanoinfer.Floats.{FloatOps}
use nanoinfer.Tensor.{Tensor, cpu, make_tensor, numel_from}
use nanoinfer.Tensor.Host.{IsHost}
use nanoinfer.Tensor.Wrap.{extent, int64_numel, int64_strides, int64_numel-eq, int64_strides-eq}
use nanoinfer.Serialize.{
  Reader, read_i32, read_shape, take_floats, take_halves, load_payload, load_dense, load_bin,
  is_negative_i32, magic_of, after_magic,
}
use nanoinfer.Serialize.Exact.{IsSized, load_bin-IsSized}

-- A value, or `runtime_error`.
data Checked {A : Type 0} : Result A → Type 0 where
  passed : {a : A} → Checked (ok a)
  failed : Checked (throw runtime_error)

Checked-after :
    {A : Type 0} (b : Bool) (r : Result A) → Checked r → Checked (raise_if b runtime_error >> r)
Checked-after true r h = failed
Checked-after false r h = h

Checked-map : {A B : Type 0} {m : Result A} (f : A → B) → Checked m → Checked (m >>= λ a. ok (f a))
Checked-map {m = ok a} f passed = passed
Checked-map {m = throw e} f failed = failed

read_shape-Checked : (n : ℕ) (f : Reader) → Checked (read_shape n f)
unfolding read_shape
read_shape-Checked zero f = passed
read_shape-Checked (suc n) f = elim (Bool-cases (is_negative_i32 ((read_i32 f).0))) [
  | inl bad ↦ rw bad failed
  | inr good ↦ rw good (Checked-map _ (read_shape-Checked n ((read_i32 f).1)))
]

module _ (fp : FloatOps) where
  open fp use {Float, zero_f, of_bits}

  length-take_floats : (n : ℕ) (s : Text) → n * 4 ≤ length s → length ((take_floats fp n s).0) ≡ n
  unfolding take_floats
  length-take_floats zero s h = refl
  length-take_floats (suc n) (a ∷ b ∷ c ∷ d ∷ s) h =
      omega (arith, length-take_floats n s (omega arith))
  length-take_floats (suc n) [] h = absurd (omega arith)
  length-take_floats (suc n) (a ∷ []) h = absurd (omega arith)
  length-take_floats (suc n) (a ∷ b ∷ []) h = absurd (omega arith)
  length-take_floats (suc n) (a ∷ b ∷ c ∷ []) h = absurd (omega arith)

  length-take_halves : (n : ℕ) (s : Text) → n * 2 ≤ length s → length ((take_halves fp n s).0) ≡ n
  unfolding take_halves
  length-take_halves zero s h = refl
  length-take_halves (suc n) (a ∷ b ∷ s) h = omega (arith, length-take_halves n s (omega arith))
  length-take_halves (suc n) [] h = absurd (omega arith)
  length-take_halves (suc n) (a ∷ []) h = absurd (omega arith)

  -- A tensor that agrees with its shape, or the exception of a file that is not one.
  data Loaded : Result (Tensor Float) → Type 0 where
    loaded : {t : Tensor Float} → IsHost t.shape t → Loaded (ok t)
    refused : Loaded (throw runtime_error)

  two_checks :
      (b c : Bool) (r : Result (Tensor Float))
      → (b ≡ false → Loaded r)
      → Loaded (raise_if b runtime_error >> raise_if c runtime_error >> r)
  two_checks true c r h = refused
  two_checks false true r h = refused
  two_checks false false r h = h refl

  filled-IsHost :
      (shape : List ℕ) (xs : List Float)
      → length xs ≡ numel_from 1 shape
      → Loaded (ok (record (make_tensor zero_f shape cpu) { values = xs }))
  unfolding make_tensor
  filled-IsHost shape xs e =
      loaded (record { shaped = refl; strided = refl; counted = refl; stored = e })

  load_payload-Loaded :
      (dtype : ℕ) (shape : List ℕ) (f : Reader) → Loaded (load_payload fp dtype shape f)
  unfolding load_payload make_tensor
  load_payload-Loaded dtype shape f = elim (Bool-cases (dtype == 1)) [
    | inl half ↦ rw half (
        two_checks (f.failed || ltb (length f.rest) (numel_from 1 shape * 2)) _ _ λ e.
          filled-IsHost shape _ (length-take_halves (numel_from 1 shape) f.rest (ground arith)))
    | inr full ↦ rw full (
        two_checks (f.failed || ltb (length f.rest) (numel_from 1 shape * 4)) _ _ λ e.
          filled-IsHost shape _ (length-take_floats (numel_from 1 shape) f.rest (ground arith)))
  ]

  Loaded-bind :
      {A : Type 0} {m : Result A} {f : A → Result (Tensor Float)}
      → Checked m
      → ((a : A) → Loaded (f a))
      → Loaded (m >>= f)
  Loaded-bind {m = ok a} passed h = h a
  Loaded-bind {m = throw e} failed h = refused

  load_dense-Loaded : (dtype : ℕ) (f : Reader) → Loaded (load_dense fp dtype f)
  unfolding load_dense
  load_dense-Loaded dtype f =
      Loaded-bind
        (Checked-after (is_negative_i32 ((read_i32 f).0)) _
          (read_shape-Checked ((read_i32 f).0) ((read_i32 f).1)))
        (λ sg. load_payload-Loaded dtype (sg.0) (sg.1))

  dtype_checked :
      (bytes : Text)
      → let dtype = (read_i32 (after_magic bytes)).0 in
        Loaded (
          raise_if (not (dtype == 0) && not (dtype == 1)) runtime_error
          >> load_dense fp dtype ((read_i32 (after_magic bytes)).1))
  dtype_checked bytes =
      elim (Bool-cases (
        not ((read_i32 (after_magic bytes)).0 == 0)
        && not ((read_i32 (after_magic bytes)).0 == 1))) [
          | inl bad ↦ rw bad refused
          | inr good ↦ rw good (load_dense-Loaded _ _)
        ]

  load_bin-Loaded : (file : Option Text) → Loaded (load_bin fp file)
  unfolding load_bin
  load_bin-Loaded none = refused
  load_bin-Loaded (some bytes) = elim (Bool-cases (same_text (magic_of bytes) (codes "NIT1"))) [
    | inl v1 ↦ rw v1 (dtype_checked bytes)
    | inr other ↦ elim (Bool-cases (same_text (magic_of bytes) (codes "NIT0"))) [
      | inl v0 ↦ rw (other, v0) (load_dense-Loaded 0 (after_magic bytes))
      | inr bad ↦ rw (other, bad) refused
    ]
  ]

  abbrev IsHostIfOk : Result (Tensor Float) → Type 0
  IsHostIfOk (ok t) = IsHost t.shape t
  IsHostIfOk (throw e) = Unit

  Loaded-IsHost : {r : Result (Tensor Float)} → Loaded r → IsHostIfOk r
  Loaded-IsHost (loaded h) = h
  Loaded-IsHost refused = tt

  -- A tensor that load_bin returns has as many entries as its shape says, its count and strides are those
  -- of the shape and those that the constructor computes with int64_t, and the file is exactly as long as
  -- its header and these entries, if the product of its dimensions, those of 0 left out, is below 2^63.
  pub load_bin-IsHost :
      (bytes : Text) (t : Tensor Float)
      → load_bin fp (some bytes) ≡ ok t
      → extent t.shape < 2 ^ 63
      → IsHost t.shape t
        × (t.numel ≡ int64_numel 1 t.shape)
        × (t.strides ≡ (int64_strides t.shape).0)
        × IsSized fp bytes t
  load_bin-IsHost bytes t e small =
      let v : IsHost t.shape t =
        subst IsHostIfOk e (Loaded-IsHost (load_bin-Loaded (some bytes))) in
      (
        v,
        v.counted ∙ sym (int64_numel-eq 1 t.shape (omega (arith, small))),
        v.strided ∙ ap (λ x. x.0) (sym (int64_strides-eq t.shape small)),
        Yields-ok (subst (Yields (IsSized fp bytes)) e (load_bin-IsSized fp bytes)),
      )
