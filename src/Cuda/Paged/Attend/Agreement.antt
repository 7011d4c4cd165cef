-- ===== src/Cuda/Paged/Attend/Agreement.antt =====
-- cpp/src/cuda/cuda_backend.cu: the kernels over blocks against the kernels over contiguous keys and values.
use mathlib.Core.Path.{fun_ext}
use native.Mathlib.Nat.{mod-lt}
use nanoinfer.Prelude.{
  ℕ, ◌+◌, ◌*◌, ◌/◌, ◌%◌, ◌^◌, ◌≤◌, ◌<◌, ◌≡◌, sym, ap, ◌∙◌, Bool, true, false, not, ◌&&◌, ◌||◌, List,
  [], ◌∷◌, arith, ◌>>=◌, length, set, leb, ltb, if◌then◌else◌, inl, inr, Bool-cases,
}
use nanoinfer.Prelude.Arith.{div-lt_of_lt_mul}
use nanoinfer.Floats.{FloatOps}
use nanoinfer.Tensor.{f32}
use nanoinfer.Cuda.Launch.{IsOrder, grid1d, k_block, launch}
use nanoinfer.Cuda.Policy.{CudaPolicy, split_count, chunk_of}
use nanoinfer.Cuda.Device.{Gpu, device_alloc}
use nanoinfer.Cuda.Elementwise.{load}
use nanoinfer.Cuda.Attention.{normalized, store_row}
use nanoinfer.Cuda.Attention.Agreement.{warp_pass-cong, two_pass-cong}
use nanoinfer.Cuda.Attention.Kernels.{
  Inputs, Parts, limit, query, split_end, attention_kernel, attention_warp_kernel,
  attention_split_kv_kernel, attention_combine_kernel,
}
use nanoinfer.Cuda.Attention.Method.{run_attention, split_attention, warp_blocks}
use nanoinfer.Cuda.Attention.Tiled.Laws.{AreTiles}
use nanoinfer.Cuda.Attention.Tiled.Output.{tiled_launch}
use nanoinfer.Cuda.Paged.Attend.{
  paged_attention_kernel, paged_attention_warp_kernel, paged_attention_warp_tiled_kernel,
  paged_split_attention, paged_attention_split_kv_kernel, run_paged_attention,
}

choose :
    {A : Type 0} (b : Bool) {x y x' y' : A}
    → x ≡ x'
    → y ≡ y'
    → (if b then x else y) ≡ (if b then x' else y')
choose true e f = e
choose false e f = f

module _ (fp : FloatOps) (a : Inputs fp.Float)
    (key' value' key_tile' value_tile' : ℕ → ℕ → ℕ → fp.Float) where
  open fp use {Float}
  open a use {heads, sq, keys, dim, key, value}

  -- The same queries over other memory.
  unfoldable pub elsewhere : Inputs Float
  elsewhere = record a {
    key = key';
    value = value';
    key_tile = key_tile';
    value_tile = value_tile';
  }

  -- Both memories hold the same keys and values.
  pub record HoldSame : Type 0 where
    pub same_key : (h j d : ℕ) → h < heads → j < keys → d < dim → key h j d ≡ key' h j d
    pub same_value : (h j d : ℕ) → h < heads → j < keys → d < dim → value h j d ≡ value' h j d

  module _ (v : HoldSame) (inside : (i : ℕ) → i < sq → limit fp a i ≤ keys) where
    asked : (hi : ℕ) → hi < heads * sq → (hi / sq < heads) × (limit fp a (hi % sq) ≤ keys)
    asked hi h =
        let some : 0 < sq = grind arith in
        (div-lt_of_lt_mul sq hi heads h, inside (hi % sq) (mod-lt hi some))

    attention_kernel-same :
        (hi : ℕ) (out : List Float)
        → attention_kernel fp a hi out ≡ attention_kernel fp elsewhere hi out
    unfolding attention_kernel elsewhere
    attention_kernel-same hi out = elim (Bool-cases (leb (heads * sq) hi)) [
      | inl e ↦ rw e
      | inr e ↦ rw e (
          let (h, see) = asked hi (ground arith) in
          ap (λ x. store_row fp ((hi / sq * sq + hi % sq) * dim) dim (normalized fp x) out)
            (two_pass-cong fp (query fp a (hi / sq) (hi % sq)) dim a.scale (key (hi / sq))
              (key' (hi / sq)) (value (hi / sq)) (value' (hi / sq)) (limit fp a (hi % sq))
              (λ j d hj. v.same_key (hi / sq) j d h (omega arith))
              (λ j d hj. v.same_value (hi / sq) j d h (omega arith))))
    ]

    attention_warp_kernel-same :
        (hi : ℕ) (out : List Float)
        → attention_warp_kernel fp a hi out ≡ attention_warp_kernel fp elsewhere hi out
    unfolding attention_warp_kernel elsewhere
    attention_warp_kernel-same hi out = elim (Bool-cases (leb (heads * sq) hi)) [
      | inl e ↦ rw e
      | inr e ↦ rw e (
          let (h, see) = asked hi (ground arith) in
          ap (λ x. store_row fp ((hi / sq * sq + hi % sq) * dim) dim (normalized fp x) out)
            (warp_pass-cong fp (query fp a (hi / sq) (hi % sq)) dim a.scale (key (hi / sq))
              (key' (hi / sq)) (value (hi / sq)) (value' (hi / sq)) (limit fp a (hi % sq))
              (λ j d hj. v.same_key (hi / sq) j d h (omega arith))
              (λ j d hj. v.same_value (hi / sq) j d h (omega arith)) 0))
    ]

    attention_split_kv_kernel-same :
        (num_splits chunk gwarp : ℕ) (parts : Parts fp a)
        → attention_split_kv_kernel fp a num_splits chunk gwarp parts
          ≡ attention_split_kv_kernel fp elsewhere num_splits chunk gwarp parts
    unfolding attention_split_kv_kernel elsewhere
    attention_split_kv_kernel-same num_splits chunk gwarp parts =
        elim (Bool-cases (leb (heads * sq * num_splits) gwarp)) [
          | inl e ↦ rw e
          | inr e ↦ rw e (
              let hi = gwarp / num_splits in
              let s = gwarp % num_splits in
              let (h, see) =
                asked hi (div-lt_of_lt_mul num_splits gwarp (heads * sq) (ground arith)) in
              let end : split_end fp a chunk s (hi % sq) ≤ keys = ground arith in
              ap
                (λ x. (
                  set (parts.0) gwarp x.m,
                  set (parts.1) gwarp x.l,
                  store_row fp (gwarp * dim) dim (load fp x.lacc) (parts.2),
                ))
                (warp_pass-cong fp (query fp a (hi / sq) (hi % sq)) dim a.scale (key (hi / sq))
                  (key' (hi / sq)) (value (hi / sq)) (value' (hi / sq))
                  (split_end fp a chunk s (hi % sq))
                  (λ j d hj. v.same_key (hi / sq) j d h (omega arith))
                  (λ j d hj. v.same_value (hi / sq) j d h (omega arith)) (s * chunk)))
        ]

    split_attention-same :
        (g : Gpu Float) (out : List Float)
        → paged_split_attention fp g a out ≡ split_attention fp g elsewhere out
    unfolding paged_split_attention split_attention paged_attention_split_kv_kernel elsewhere
    split_attention-same g out =
        let nq = heads * sq in
        let num_splits = split_count g.sm_count nq keys in
        let chunk = chunk_of keys num_splits in
        let n = nq * num_splits in
        ap
          (λ kernel.
            launch g.order (warp_blocks n) 8 kernel (
              (device_alloc fp g 1 (n ∷ []) f32).buffer,
              (device_alloc fp g 2 (n ∷ []) f32).buffer,
              (device_alloc fp g 3 (n ∷ dim ∷ []) f32).buffer,
            )
            >>= λ parts.
                launch g.order (grid1d (nq * dim) k_block) k_block
                  (attention_combine_kernel fp parts nq dim num_splits) out)
          (fun_ext
            λ gwarp. fun_ext λ parts. attention_split_kv_kernel-same num_splits chunk gwarp parts)

    -- Under every policy the kernels over blocks write what the kernels over contiguous memory write, to the bit.
    pub run_attention-same :
        (g : Gpu Float) (policy : CudaPolicy) (out : List Float)
        → AreTiles fp a
        → AreTiles fp elsewhere
        → IsOrder g.order
        → 0 < dim
        → 0 < heads * sq
        → heads * sq ≤ 2 ^ 32
        → length out ≡ heads * sq * dim
        → run_paged_attention fp g policy a out ≡ run_attention fp g policy elsewhere out
    unfolding run_paged_attention run_attention paged_attention_kernel paged_attention_warp_kernel
        paged_attention_warp_tiled_kernel elsewhere
    run_attention-same g policy out here there w pos some small room =
        let nq = heads * sq in
        let tiled_here =
          tiled_launch fp a g here inside g.order out out w pos some small room room in
        let tiled_there =
          tiled_launch fp elsewhere g there inside g.order out out w pos some small room room in
        let warps =
          ap (λ kernel. launch g.order (warp_blocks nq) 8 kernel out)
            (fun_ext λ hi. fun_ext λ o. attention_warp_kernel-same hi o) in
        choose policy.force_naive_attn
          (ap (λ kernel. launch g.order (grid1d nq k_block) k_block kernel out)
            (fun_ext λ hi. fun_ext λ o. attention_kernel-same hi o))
          (choose (ltb 1 sq && (not policy.no_tiled_attn && (policy.use_tiled_attn || leb 128 dim)))
            (tiled_here ∙ warps ∙ sym tiled_there)
            (choose (policy.use_split_attn && leb 2 (split_count g.sm_count nq keys))
              (split_attention-same g out) warps))
