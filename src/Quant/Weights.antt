-- ===== src/Quant/Weights.antt =====
-- cpp/src/quant.hpp and quant.cpp: weights behind one interface, and the factories of the CPU.
use nanoinfer.Prelude.{
  ℕ, ◌+◌, ◌*◌, List, [], ◌∷◌, Option, none, some, length, Result, ok, throw, runtime_error, ◌>>=◌,
}
use nanoinfer.Floats.{FloatOps}
use nanoinfer.Tensor.{Tensor}
use nanoinfer.Quant.{QuantMode, Format}
use nanoinfer.Quant.Q8.{QTensor, quantize_q8, linear_q8, linear_w8a8, embedding_q8}
use nanoinfer.Quant.Q4.{Q4Tensor, quantize_q4, linear_q4}
use nanoinfer.Quant.Q4g.{Q4gTensor, quantize_q4g, linear_q4g}

-- A weight behind a pointer to its base class: what each virtual method does.
pub record Weight (F : Type 0) : Type 0 where
  pub linear : Tensor F → Option (Tensor F) → Result (Tensor F)
  pub gather : List ℕ → Result (Tensor F)
  pub format : Format
  pub bytes : ℕ
  pub fp32_bytes : ℕ

-- `Weight::gather`, which a projection does not override.
unfoldable pub no_gather : {F : Type 0} → List ℕ → Result (Tensor F)
no_gather ids = throw runtime_error

-- The template over the three structs takes their vectors.
unfoldable pub packed_bytes : {A F : Type 0} → List A → List F → ℕ
packed_bytes q scale = length q + length scale * 4

unfoldable pub unquantized_bytes : ℕ → ℕ → ℕ
unquantized_bytes out width = out * width * 4

-- The text of `format_name`, as the bytes of its characters.
unfoldable pub format_name : Format → List ℕ
format_name Format.f32 = 102 ∷ 51 ∷ 50 ∷ []
format_name Format.f16 = 102 ∷ 49 ∷ 54 ∷ []
format_name Format.bf16 = 98 ∷ 102 ∷ 49 ∷ 54 ∷ []
format_name Format.q8 = 113 ∷ 56 ∷ []
format_name Format.q4 = 113 ∷ 52 ∷ []
format_name Format.q4g = 113 ∷ 52 ∷ 103 ∷ []
format_name Format.w8a8 = 119 ∷ 56 ∷ 97 ∷ 56 ∷ []

-- `group = 32`
abbrev pub default_group : ℕ
default_group = 32

module _ (fp : FloatOps) where
  open fp use {Float}

  unfoldable pub q8_weight : QTensor Float → Weight Float
  unfolding no_gather packed_bytes unquantized_bytes
  q8_weight t = record {
    linear = λ x bias. linear_q8 fp x t bias;
    gather = no_gather;
    format = Format.q8;
    bytes = packed_bytes t.q t.scale;
    fp32_bytes = unquantized_bytes t.out t.width;
  }

  unfoldable pub q4_weight : Q4Tensor Float → Weight Float
  unfolding no_gather packed_bytes unquantized_bytes
  q4_weight t = record {
    linear = λ x bias. linear_q4 fp x t bias;
    gather = no_gather;
    format = Format.q4;
    bytes = packed_bytes t.q t.scale;
    fp32_bytes = unquantized_bytes t.out t.width;
  }

  unfoldable pub q4g_weight : Q4gTensor Float → Weight Float
  unfolding no_gather packed_bytes unquantized_bytes
  q4g_weight t = record {
    linear = λ x bias. linear_q4g fp x t bias;
    gather = no_gather;
    format = Format.q4g;
    bytes = packed_bytes t.q t.scale;
    fp32_bytes = unquantized_bytes t.out t.width;
  }

  unfoldable pub w8a8_weight : QTensor Float → Weight Float
  unfolding no_gather packed_bytes unquantized_bytes
  w8a8_weight t = record {
    linear = λ x bias. linear_w8a8 fp x t bias;
    gather = no_gather;
    format = Format.w8a8;
    bytes = packed_bytes t.q t.scale;
    fp32_bytes = unquantized_bytes t.out t.width;
  }

  unfoldable pub embed_q8_weight : QTensor Float → Weight Float
  unfolding packed_bytes unquantized_bytes
  embed_q8_weight t = record {
    linear = λ x bias. linear_q8 fp x t bias;
    gather = λ ids. embedding_q8 fp t ids;
    format = Format.q8;
    bytes = packed_bytes t.q t.scale;
    fp32_bytes = unquantized_bytes t.out t.width;
  }

  -- `none` stands for `nullptr`.
  unfoldable pub make_quantized : Tensor Float → QuantMode → Result (Option (Weight Float))
  unfolding q8_weight q4_weight q4g_weight w8a8_weight
  make_quantized w QuantMode.q8 = quantize_q8 fp w >>= λ t. ok (some (q8_weight t))
  make_quantized w QuantMode.q4 = quantize_q4 fp w >>= λ t. ok (some (q4_weight t))
  make_quantized w QuantMode.q4g = quantize_q4g fp w default_group >>= λ t. ok (some (q4g_weight t))
  make_quantized w QuantMode.w8a8 = quantize_q8 fp w >>= λ t. ok (some (w8a8_weight t))
  make_quantized w QuantMode.unquantized = ok none

  unfoldable pub make_q8_embed : Tensor Float → Result (Weight Float)
  unfolding embed_q8_weight
  make_q8_embed w = quantize_q8 fp w >>= λ t. ok (embed_q8_weight t)
