-- ===== src/Cuda/Attention/Kernels.antt =====
-- cpp/src/cuda/cuda_backend.cu: the attention kernels over contiguous keys and values.
use nanoinfer.Prelude.{ℕ, ◌+◌, ◌*◌, ◌/◌, ◌%◌, Bool, List, set, leb, ltb, if◌then◌else◌}
use nanoinfer.Prelude.Loops.{for_range}
use nanoinfer.Floats.{FloatOps}
use nanoinfer.Cuda.Elementwise.{load}
use nanoinfer.Cuda.Attention.{warp_pass, normalized, two_pass, store_row}

-- `causal ? (query_offset + i + 1) : keys`
abbrev pub limit_of : Bool → ℕ → ℕ → ℕ → ℕ
limit_of causal query_offset i keys = if causal then query_offset + i + 1 else keys

-- What a kernel for attention is given: the queries with their shape, the keys and values of each query
-- head, and the scale. `keys` is `sk` or `end`.
pub record Inputs (F : Type 0) : Type 0 where
  pub q : List F
  pub heads : ℕ
  pub sq : ℕ
  pub keys : ℕ
  pub dim : ℕ
  pub causal : Bool
  pub query_offset : ℕ
  pub scale : F
  pub key : ℕ → ℕ → ℕ → F
  pub value : ℕ → ℕ → ℕ → F
  -- Entry `idx` of the tile of a head's keys, and of its values, that starts at a key.
  pub key_tile : ℕ → ℕ → ℕ → F
  pub value_tile : ℕ → ℕ → ℕ → F

module _ (fp : FloatOps) where
  open fp use {Float, zero_f, one_f, neg_inf, add_f, sub_f, mul_f, div_f, max_f, eq_f, exp_f}

  module _ (a : Inputs Float) where
    open a use {heads, sq, keys, dim, causal, query_offset, scale, key, value}

    -- `q + (h * sq + i) * D`
    abbrev pub query : ℕ → ℕ → ℕ → Float
    query h i d = load fp a.q ((h * sq + i) * dim + d)

    abbrev pub limit : ℕ → ℕ
    limit i = limit_of causal query_offset i keys

    -- One thread for each head and query.
    unfoldable pub attention_kernel : ℕ → List Float → List Float
    unfolding two_pass store_row
    attention_kernel hi out =
        if leb (heads * sq) hi
        then out
        else let h = hi / sq in
          let i = hi % sq in
          let x = two_pass fp (query h i) dim scale (key h) (value h) (limit i) in
          store_row fp ((h * sq + i) * dim) dim (normalized fp x) out

    -- One warp for each head and query.
    unfoldable pub attention_warp_kernel : ℕ → List Float → List Float
    unfolding warp_pass store_row
    attention_warp_kernel warp out =
        if leb (heads * sq) warp
        then out
        else let h = warp / sq in
          let i = warp % sq in
          let x = warp_pass fp (query h i) dim scale (key h) (value h) 0 (limit i) in
          store_row fp ((h * sq + i) * dim) dim (normalized fp x) out

    -- `k0`
    abbrev pub split_start : ℕ → ℕ → ℕ
    split_start chunk s = s * chunk

    -- `k1`
    abbrev pub split_end : ℕ → ℕ → ℕ → ℕ
    split_end chunk s i =
        let k0 = split_start chunk s in
        let k1raw = if ltb (k0 + chunk) keys then k0 + chunk else keys in
        if causal then (if ltb k1raw (limit i) then k1raw else limit i) else k1raw

    -- What the splits leave: `m_part`, `l_part` and `acc_part`.
    abbrev pub Parts : Type 0
    Parts = List Float × List Float × List Float

    -- One warp for each head, query and split.
    unfoldable pub attention_split_kv_kernel : ℕ → ℕ → ℕ → Parts → Parts
    unfolding warp_pass store_row
    attention_split_kv_kernel num_splits chunk gwarp parts =
        if leb (heads * sq * num_splits) gwarp
        then parts
        else let hi = gwarp / num_splits in
          let s = gwarp % num_splits in
          let h = hi / sq in
          let i = hi % sq in
          let x =
            warp_pass fp (query h i) dim scale (key h) (value h) (split_start chunk s)
              (split_end chunk s i) in
          (
            set (parts.0) gwarp x.m,
            set (parts.1) gwarp x.l,
            store_row fp (gwarp * dim) dim (load fp x.lacc) (parts.2),
          )

  -- One thread for each head, query and dimension.
  unfoldable pub attention_combine_kernel :
      List Float × List Float × List Float → ℕ → ℕ → ℕ → ℕ → List Float → List Float
  attention_combine_kernel parts nq dim num_splits idx out =
      if leb (nq * dim) idx
      then out
      else let hi = idx / dim in
        let d = idx % dim in
        let mp : ℕ → Float = λ s. load fp (parts.0) (hi * num_splits + s) in
        let lp : ℕ → Float = λ s. load fp (parts.1) (hi * num_splits + s) in
        let ap : ℕ → Float = λ i. load fp (parts.2) (hi * num_splits * dim + i) in
        let top = for_range num_splits 0 (λ s m. max_f m (mp s)) neg_inf in
        let weight : ℕ → Float =
          λ s. if eq_f (mp s) neg_inf then zero_f else exp_f (sub_f (mp s) top) in
        let num =
          for_range num_splits 0 (λ s n. add_f n (mul_f (ap (s * dim + d)) (weight s))) zero_f in
        let den = for_range num_splits 0 (λ s n. add_f n (mul_f (lp s) (weight s))) zero_f in
        set out (hi * dim + d) (div_f num den)
