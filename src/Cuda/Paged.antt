-- ===== src/Cuda/Paged.antt =====
-- cpp/src/cuda/cuda_backend.hpp and cuda_backend.cu: the paged cache on the device.
pub mod Pool
pub mod Cache
pub mod Bookkeeping
pub mod Attend
pub mod Leaves
pub mod Table
