-- ===== src/Backend.antt =====
-- cpp/src/backend.hpp and backend.cpp: the operations of a device behind one interface, and those of the CPU.
pub mod Rows
pub mod Dense
pub mod Cpu
use nanoinfer.Prelude.{ℕ, Bool, List, Option, Result}
use nanoinfer.Tensor.{Tensor, Device}
use nanoinfer.Quant.{QuantMode}
use nanoinfer.Quant.Weights.{Weight}

-- The virtual methods of `Backend`. One that writes into `dst` returns it. `make_kv_cache` is in Model.Caches.
pub record Backend (F : Type 0) : Type 0 where
  pub device : Device
  pub embedding : Tensor F → List ℕ → Result (Tensor F)
  pub linear : Tensor F → Tensor F → Option (Tensor F) → Result (Tensor F)
  pub rmsnorm : Tensor F → Tensor F → F → Result (Tensor F)
  pub silu : Tensor F → Result (Tensor F)
  pub mul : Tensor F → Tensor F → Result (Tensor F)
  pub add : Tensor F → Tensor F → Result (Tensor F)
  pub split_heads : Tensor F → ℕ → ℕ → Result (Tensor F)
  pub merge_heads : Tensor F → Result (Tensor F)
  pub repeat_kv : Tensor F → ℕ → Result (Tensor F)
  pub apply_rope : Tensor F → Tensor F → Tensor F → ℕ → Result (Tensor F)
  pub attention : Tensor F → Tensor F → Tensor F → Bool → ℕ → Result (Tensor F)
  pub alloc : List ℕ → Result (Tensor F)
  pub extract_row : Tensor F → ℕ → ℕ → ℕ → Result (Tensor F)
  pub place_row : Tensor F → ℕ → Tensor F → Result (Tensor F)
  pub extract_rows : Tensor F → ℕ → ℕ → Result (Tensor F)
  pub place_rows : Tensor F → ℕ → Tensor F → Result (Tensor F)
  pub to_host_copy : Tensor F → Result (Tensor F)
  pub zeros : List ℕ → Result (Tensor F)
  pub gather_rows : Tensor F → List ℕ → Result (Tensor F)
  pub scatter_add_rows : Tensor F → List ℕ → List F → Tensor F → Result (Tensor F)
  pub finalize_logits : Tensor F → Result (Tensor F)
  pub to_resident : Tensor F → Bool → Result (Tensor F)
  pub make_quant_weight : Tensor F → QuantMode → Result (Option (Weight F))
  pub make_embed_weight : Tensor F → Result (Weight F)

pub record BackendConfig : Type 0 where
  pub fp16_weights : Bool
  pub bf16_weights : Bool
  pub quantize_embed : Bool
