-- ===== src/Cuda.antt =====
-- cpp/src/cuda: the CUDA build. Code on the device is modelled by the order in which its threads run.
pub mod Launch
pub mod Device
pub mod Elementwise
pub mod Paged
pub mod KvCache
pub mod Memory
pub mod Policy
pub mod Attention
pub mod Tests
