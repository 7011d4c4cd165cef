-- ===== src/Serialize/Exact.antt =====
-- cpp/src/serialize.cpp: load_bin reads a file to its end and no further.
use nanoinfer.Prelude.{
  ℕ, zero, suc, ◌+◌, ◌*◌, ◌≤◌, ◌≡◌, refl, inl, inr, Bool, Bool-cases, true, false, not, ◌&&◌, ◌||◌,
  List, [], ◌∷◌, length, arith, ok, runtime_error, ◌>>◌, raise_if, ◌==◌, ltb, if◌then◌else◌, Yields,
  yields, throws, Yields-bind, Yields-map, ap, some,
}
use nanoinfer.Prelude.Text.{Text, codes, same_text}
use nanoinfer.Floats.{FloatOps}
use nanoinfer.Tensor.{Tensor, make_tensor, numel_from}
use nanoinfer.Serialize.{
  Reader, take_word, read_i32, read_shape, take_floats, take_halves, load_payload, load_dense,
  load_bin, is_negative_i32, magic_of, after_magic,
}

take_word-four :
    (s : Text) → (take_word s).1.failed ≡ false → length s ≡ 4 + length ((take_word s).1.rest)
unfolding take_word
take_word-four [] h = cc h
take_word-four (a ∷ []) h = cc h
take_word-four (a ∷ b ∷ []) h = cc h
take_word-four (a ∷ b ∷ c ∷ []) h = cc h
take_word-four (a ∷ b ∷ c ∷ d ∷ s) h = omega arith

-- A read that was not short took four bytes.
read_i32-four :
    (f : Reader)
    → (read_i32 f).1.failed ≡ false
    → (f.failed ≡ false) × (length f.rest ≡ 4 + length ((read_i32 f).1.rest))
unfolding read_i32
read_i32-four f h = elim (Bool-cases f.failed) [
  | inl bad ↦ cc (h, bad)
  | inr whole ↦ (whole, rw whole (take_word-four f.rest (rw whole at h)))
]

-- The dimensions were read in full.
abbrev IsShapeRead : ℕ → Reader → List ℕ × Reader → Type 0
IsShapeRead n f sg =
    sg.1.failed ≡ false
    → (f.failed ≡ false) × (length f.rest ≡ 4 * n + length (sg.1.rest)) × (length (sg.0) ≡ n)

read_shape-four : (n : ℕ) (f : Reader) → Yields (IsShapeRead n f) (read_shape n f)
unfolding read_shape
read_shape-four zero f = yields (λ h. (h, omega arith, refl))
read_shape-four (suc n) f = elim (Bool-cases (is_negative_i32 ((read_i32 f).0))) [
  | inl bad ↦ rw bad throws
  | inr good ↦ rw good (
      Yields-bind (read_shape-four n ((read_i32 f).1)) λ sg w. yields λ h.
        let (whole, left, dims) = w h in
        let (before, four) = read_i32-four f whole in
        (before, omega (arith, left, four), omega (arith, dims)))
]

-- The bytes of an entry.
abbrev pub entry_bytes : ℕ → ℕ
entry_bytes dtype = if dtype == 1 then 2 else 4

module _ (fp : FloatOps) where
  open fp use {Float}

  take_floats-left :
      (n : ℕ) (s : Text) → n * 4 ≤ length s → length s ≡ n * 4 + length ((take_floats fp n s).1)
  unfolding take_floats
  take_floats-left zero s h = omega arith
  take_floats-left (suc n) (a ∷ b ∷ c ∷ d ∷ s) h = omega (arith, take_floats-left n s (omega arith))
  take_floats-left (suc n) [] h = absurd (omega arith)
  take_floats-left (suc n) (a ∷ []) h = absurd (omega arith)
  take_floats-left (suc n) (a ∷ b ∷ []) h = absurd (omega arith)
  take_floats-left (suc n) (a ∷ b ∷ c ∷ []) h = absurd (omega arith)

  take_halves-left :
      (n : ℕ) (s : Text) → n * 2 ≤ length s → length s ≡ n * 2 + length ((take_halves fp n s).1)
  unfolding take_halves
  take_halves-left zero s h = omega arith
  take_halves-left (suc n) (a ∷ b ∷ s) h = omega (arith, take_halves-left n s (omega arith))
  take_halves-left (suc n) [] h = absurd (omega arith)
  take_halves-left (suc n) (a ∷ []) h = absurd (omega arith)

  -- The payload ends where the file ends.
  abbrev IsPayload : ℕ → List ℕ → Reader → Tensor Float → Type 0
  IsPayload dtype shape f t =
      (f.failed ≡ false) × (t.shape ≡ shape) × (length f.rest ≡ t.numel * entry_bytes dtype)

  two_checks :
      (b c : Bool) (t : Tensor Float) {P : Tensor Float → Type 0}
      → (b ≡ false → c ≡ false → P t)
      → Yields P (raise_if b runtime_error >> raise_if c runtime_error >> ok t)
  two_checks true c t h = throws
  two_checks false true t h = throws
  two_checks false false t h = yields (h refl refl)

  load_payload-IsPayload :
      (dtype : ℕ) (shape : List ℕ) (f : Reader)
      → Yields (IsPayload dtype shape f) (load_payload fp dtype shape f)
  unfolding load_payload make_tensor
  load_payload-IsPayload dtype shape f = elim (Bool-cases (dtype == 1)) [
    | inl half ↦ rw half (
        two_checks (f.failed || ltb (length f.rest) (numel_from 1 shape * 2))
          (not (length ((take_halves fp (numel_from 1 shape) f.rest).1) == 0)) _
          λ e z. (
            ground arith,
            refl,
            ground (arith, take_halves-left (numel_from 1 shape) f.rest (ground arith)),
          ))
    | inr full ↦ rw full (
        two_checks (f.failed || ltb (length f.rest) (numel_from 1 shape * 4))
          (not (length ((take_floats fp (numel_from 1 shape) f.rest).1) == 0)) _
          λ e z. (
            ground arith,
            refl,
            ground (arith, take_floats-left (numel_from 1 shape) f.rest (ground arith)),
          ))
  ]

  -- What follows the dtype: a number of dimensions, the dimensions and the entries.
  abbrev IsDense : ℕ → Reader → Tensor Float → Type 0
  IsDense dtype f t =
      (f.failed ≡ false) × (length f.rest ≡ 4 + 4 * length t.shape + t.numel * entry_bytes dtype)

  load_dense-IsDense : (dtype : ℕ) (f : Reader) → Yields (IsDense dtype f) (load_dense fp dtype f)
  unfolding load_dense
  load_dense-IsDense dtype f = elim (Bool-cases (is_negative_i32 ((read_i32 f).0))) [
    | inl bad ↦ rw bad throws
    | inr good ↦ rw good (
        Yields-bind (read_shape-four ((read_i32 f).0) ((read_i32 f).1)) λ sg w.
          Yields-map
            (λ t v.
              let (whole, left, dims) = w v.0 in
              let (before, four) = read_i32-four f whole in
              let named : length t.shape ≡ length (sg.0) = ap length v.1 in
              (before, omega (arith, left, dims, four, named, v.2)))
            (load_payload-IsPayload dtype (sg.0) (sg.1)))
  ]

  -- The bytes of a file: the magic number, for NIT1 the dtype, and what follows it.
  pub data IsSized (bytes : Text) (t : Tensor Float) : Type 0 where
    nit0 : length bytes ≡ 8 + 4 * length t.shape + 4 * t.numel → IsSized bytes t
    nit1_f32 : length bytes ≡ 12 + 4 * length t.shape + 4 * t.numel → IsSized bytes t
    nit1_bf16 : length bytes ≡ 12 + 4 * length t.shape + 2 * t.numel → IsSized bytes t

  -- A file with a magic number has its four bytes.
  magic-four :
      (bytes : Text) (c : ℕ) (cs : Text)
      → same_text (magic_of bytes) (c ∷ cs) ≡ true
      → length bytes ≡ 4 + length ((after_magic bytes).rest)
  unfolding same_text
  magic-four [] c cs h = cc h
  magic-four (a ∷ []) c cs h = cc h
  magic-four (a ∷ b ∷ []) c cs h = cc h
  magic-four (a ∷ b ∷ e ∷ []) c cs h = cc h
  magic-four (a ∷ b ∷ e ∷ d ∷ s) c cs h = omega arith

  nit1-IsSized :
      (dtype : ℕ) (bytes : Text) (t : Tensor Float)
      → length bytes ≡ 12 + 4 * length t.shape + t.numel * entry_bytes dtype
      → IsSized bytes t
  nit1-IsSized dtype bytes t h = elim (Bool-cases (dtype == 1)) [
    | inl half ↦ nit1_bf16 (omega (arith, rw half at h))
    | inr full ↦ nit1_f32 (omega (arith, rw full at h))
  ]

  dtype-IsSized :
      (bytes : Text)
      → length bytes ≡ 4 + length ((after_magic bytes).rest)
      → let dtype = (read_i32 (after_magic bytes)).0 in
        Yields (IsSized bytes) (
          raise_if (not (dtype == 0) && not (dtype == 1)) runtime_error
          >> load_dense fp dtype ((read_i32 (after_magic bytes)).1))
  dtype-IsSized bytes four =
      elim (Bool-cases (
        not ((read_i32 (after_magic bytes)).0 == 0)
        && not ((read_i32 (after_magic bytes)).0 == 1))) [
          | inl bad ↦ rw bad throws
          | inr good ↦ rw good (
              Yields-map
                (λ t v.
                  nit1-IsSized ((read_i32 (after_magic bytes)).0) bytes t
                    (omega (arith, v.1, four, (read_i32-four (after_magic bytes) v.0).1)))
                (load_dense-IsDense _ _))
        ]

  pub load_bin-IsSized : (bytes : Text) → Yields (IsSized bytes) (load_bin fp (some bytes))
  unfolding load_bin
  load_bin-IsSized bytes = elim (Bool-cases (same_text (magic_of bytes) (codes "NIT1"))) [
    | inl v1 ↦ rw v1 (dtype-IsSized bytes (magic-four bytes _ _ v1))
    | inr other ↦ elim (Bool-cases (same_text (magic_of bytes) (codes "NIT0"))) [
      | inl v0 ↦
          rw (other, v0)
            (Yields-map (λ t v. nit0 (omega (arith, v.1, magic-four bytes _ _ v0)))
              (load_dense-IsDense 0 (after_magic bytes)))
      | inr bad ↦ rw (other, bad) throws
    ]
  ]
