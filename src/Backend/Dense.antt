-- ===== src/Backend/Dense.antt =====
-- cpp/src/backend.hpp, class DenseWeight: a tensor as a weight.
use nanoinfer.Prelude.{ℕ, ◌*◌}
use nanoinfer.Tensor.{Tensor, DType}
use nanoinfer.Quant.{Format}
use nanoinfer.Quant.Weights.{Weight}
use nanoinfer.Backend.{Backend}

abbrev pub format_of : DType → Format
format_of DType.f32 = Format.f32
format_of DType.f16 = Format.f16
format_of DType.bf16 = Format.bf16
format_of DType.i8 = Format.f32

-- The bytes of an entry.
abbrev pub width_of : DType → ℕ
width_of DType.f32 = 4
width_of DType.f16 = 2
width_of DType.bf16 = 2
width_of DType.i8 = 4

unfoldable pub dense_weight : {F : Type 0} → Backend F → Tensor F → Weight F
dense_weight backend w = record {
  linear = λ x bias. backend.linear x w bias;
  gather = λ ids. backend.embedding w ids;
  format = format_of w.dtype;
  bytes = w.numel * width_of w.dtype;
  fp32_bytes = w.numel * 4;
}
