-- ===== src/Ops.antt =====
-- cpp/src/ops.hpp and ops.cpp: the tensor operations.
pub mod Heads
pub mod Attention
pub mod Elementwise
pub mod Linear
pub mod Norms
pub mod Rope
pub mod Embedding
pub mod Shapes
pub mod Tests
