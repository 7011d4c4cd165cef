-- ===== src/Cuda/Attention/Splits.antt =====
-- cpp/src/cuda/cuda_backend.cu: the keys that each split of attention_split_kv_kernel reads, with the
-- splits that cuda_runtime.cu chooses.
use native.Mathlib.Nat.{div-add-mod', mod-lt}
use nanoinfer.Prelude.{ℕ, ◌+◌, ◌-◌, ◌*◌, ◌/◌, ◌≤◌, ◌<◌, ◌≡◌, sym, ap, ◌∙◌, Bool, true, false, arith}
use nanoinfer.Prelude.Arith.{ceil_covers, div-lt_of_lt_mul, div_row}
use nanoinfer.Floats.{FloatOps}
use nanoinfer.Cuda.Policy.{split_count, chunk_of}
use nanoinfer.Ops.Attention.Visible.{IsSeen}
use nanoinfer.Cuda.Attention.Kernels.{Inputs, limit_of, split_start, split_end}

split_count_pos : (sms nq sk : ℕ) → 1 ≤ split_count sms nq sk
unfolding split_count
split_count_pos sms nq sk = ground arith

row_unique : (c s j : ℕ) → s * c ≤ j → j < s * c + c → s ≡ j / c
row_unique c s j lo hi = sym (div_row c s (j - s * c) (omega arith)) ∙ ap (λ k. k / c) (omega arith)

IsSeen-limit :
    (causal : Bool) (off keys i j : ℕ)
    → IsSeen causal off keys i j
    → (j < keys) × (j < limit_of causal off i keys)
IsSeen-limit true off keys i j (inside, before) = (inside, omega arith)
IsSeen-limit false off keys i j inside = (inside, inside)

limit-IsSeen :
    (causal : Bool) (off keys i j : ℕ)
    → j < keys
    → j < limit_of causal off i keys
    → IsSeen causal off keys i j
limit-IsSeen true off keys i j inside h = (inside, omega arith)
limit-IsSeen false off keys i j inside h = inside

module _ (fp : FloatOps) (a : Inputs fp.Float) where
  -- Key `j` is between `k0` and `k1` of split `s` for query `i`.
  abbrev pub IsRead : ℕ → ℕ → ℕ → ℕ → Type 0
  IsRead chunk s i j = (split_start fp a chunk s ≤ j) × (j < split_end fp a chunk s i)

  -- The mask shows key `j` to query `i`.
  abbrev pub IsVisible : ℕ → ℕ → Type 0
  IsVisible i j = IsSeen a.causal a.query_offset a.keys i j

  read-lt : (c s i j : ℕ) → IsRead c s i j → j < s * c + c
  read-lt c s i j (lo, hi) = ground arith

  -- A split reads no key that the mask hides.
  read-IsVisible :
      (c s i j : ℕ) → i < a.sq → a.query_offset + a.sq ≤ a.keys → IsRead c s i j → IsVisible i j
  read-IsVisible c s i j row room (lo, hi) =
      limit-IsSeen a.causal a.query_offset a.keys i j (ground arith) (ground arith)

  visible-IsRead : (c s i j : ℕ) → IsVisible i j → s * c ≤ j → j < s * c + c → IsRead c s i j
  visible-IsRead c s i j v lo hi =
      let (inside, seen) = IsSeen-limit a.causal a.query_offset a.keys i j v in (lo, ground arith)

  -- With the splits that split_count chooses, every key that the mask shows to a query is in the range of
  -- exactly one split of attention_split_kv_kernel for that query, and a key in the range of a split is one
  -- that the mask shows, where the queries end within the keys.
  pub split_tiles :
      (sms i j : ℕ)
      → i < a.sq
      → a.query_offset + a.sq ≤ a.keys
      → let n = split_count sms (a.heads * a.sq) a.keys in
        let c = chunk_of a.keys n in
        (IsVisible i j → (s : ℕ) × (s < n) × IsRead c s i j × ((s' : ℕ) → IsRead c s' i j → s' ≡ s))
        × ((s : ℕ) → IsRead c s i j → IsVisible i j)
  split_tiles sms i j row room =
      let n : ℕ = split_count sms (a.heads * a.sq) a.keys in
      let c : ℕ = chunk_of a.keys n in
      let covers : a.keys ≤ c * n =
        ceil_covers n a.keys (split_count_pos sms (a.heads * a.sq) a.keys) in
      let pos : 0 < c = grind arith in
      (
        λ v. (
          j / c,
          div-lt_of_lt_mul c j n
              (grind (arith, (IsSeen-limit a.causal a.query_offset a.keys i j v).0)),
          visible-IsRead c (j / c) i j v (omega (arith, div-add-mod' j c))
              (omega (arith, div-add-mod' j c, mod-lt j pos)),
          λ s' e. row_unique c s' j (e.0) (read-lt c s' i j e),
        ),
        λ s e. read-IsVisible c s i j row room e,
      )
