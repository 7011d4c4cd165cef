-- ===== src/Quant.antt =====
-- cpp/src/quant.hpp and quant.cpp: quantized weights.
pub mod Nibbles
pub mod Rounding
pub mod Q8
pub mod Q4
pub mod Q4g
pub mod Weights
mod Tests

-- `None` is the mode that quantizes nothing.
pub data QuantMode : Type 0 where
  unquantized q8 q4 q4g w8a8 : QuantMode

pub data Format : Type 0 where
  f32 f16 bf16 q8 q4 q4g w8a8 : Format
