-- ===== src/Cuda/Policy.antt =====
-- cpp/src/cuda/cuda_backend.hpp: the choice of kernels; cuda_runtime.cu: the number of splits.
use nanoinfer.Prelude.{ℕ, ◌+◌, ◌-◌, ◌*◌, ◌/◌, Bool, false, ◌||◌, leb, ltb, ◌==◌, if◌then◌else◌}

pub record CudaPolicy : Type 0 where
  pub force_naive_gemm : Bool
  pub use_wmma : Bool
  pub use_dbuf : Bool
  pub force_tiled_q8 : Bool
  pub force_tiled_w8a8 : Bool
  pub wmma_fp16_acc : Bool
  pub use_w8a8_lmhead : Bool
  pub force_naive_attn : Bool
  pub use_tiled_attn : Bool
  pub no_tiled_attn : Bool
  pub use_split_attn : Bool

abbrev pub default_policy : CudaPolicy
default_policy = record {
  force_naive_gemm = false;
  use_wmma = false;
  use_dbuf = false;
  force_tiled_q8 = false;
  force_tiled_w8a8 = false;
  wmma_fp16_acc = false;
  use_w8a8_lmhead = false;
  force_naive_attn = false;
  use_tiled_attn = false;
  no_tiled_attn = false;
  use_split_attn = false;
}

-- `sms` is the number of multiprocessors.
unfoldable pub split_count : ℕ → ℕ → ℕ → ℕ
split_count sms nq sk =
    let by_keys = sk / 128 in
    if leb by_keys 1 || nq == 0
    then 1
    else let wanted = (sms * 8 + nq - 1) / nq in
      let splits = if ltb by_keys wanted then by_keys else wanted in
      if ltb splits 1 then 1 else splits

-- The keys of a split.
abbrev pub chunk_of : ℕ → ℕ → ℕ
chunk_of keys num_splits = (keys + num_splits - 1) / num_splits
