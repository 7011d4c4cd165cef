-- ===== src/Paged.antt =====
-- cpp/src/paged.hpp and paged.cpp: the paged key/value cache.
pub mod Pool
pub mod Cache
pub mod Refinement
pub mod Pass
pub mod Tests
