-- ===== src/Lib.antt =====
-- nanoinfer: a transformer inference engine in C++. This library models its CPU path: the files of a model,
-- its weights in each format, the operations, the two key/value caches, the forward pass, and the choice of
-- tokens; and of its CUDA build the elementwise and the attention kernels and the paged cache.
--
-- The program. `Model::forward` (cpp/src/model.cpp) computes queries, keys and values of the new tokens
-- for each layer, splits them into heads (cpp/src/ops.cpp) and hands them to a cache, which stores the
-- keys and values and attends over the whole history; after the last layer it calls `advance`. There are
-- two caches. KVCache (cpp/src/cache.cpp) has one buffer for each layer. PagedKVCache (cpp/src/paged.cpp)
-- has a table of blocks from a BlockPool that many sequences share, with reference counts so that a prefix
-- can be held by several of them. Both are meant to give bit-identical results.
--
-- The files.
--   Prelude         Boolean tests, lists over the native numbers, results with exceptions, counted loops.
--   Floats          `float`, `double` and <cmath> as a parameter: a law of arithmetic is a hypothesis of the
--                   theorem that needs it.
--   Tensor          cpp/src/tensor.hpp, tensor.cpp: shape, strides, `at`; Layout and Access have the laws.
--   Ops             cpp/src/ops.cpp: Heads has split_heads, merge_heads and repeat_kv; Embedding the gather
--                   of rows; Elementwise silu, mul and add; Linear matmul and linear; Norms rmsnorm and
--                   softmax; Rope the rotary embedding; Attention has attention, with the scalar dot
--                   product of cpp/src/simd.hpp. Shapes has the shape that each operation returns.
--   KvCache         cpp/src/cache.cpp: the constructor, update, advance, truncate; Attend has attend.
--   Paged.Pool      cpp/src/paged.cpp, BlockPool: Accounting has the reference counts and the free list,
--                   Memory and Frames the buffers behind k_at and v_at.
--   Paged.Cache     cpp/src/paged.cpp, PagedKVCache: References has release and ensure_capacity, Rollback
--                   has truncate and share_prefix, Attend has attend.
--   Paged.Refinement  the paged cache against the contiguous one; Paged.Pass in each layer of a pass.
--   Quant           cpp/src/quant.hpp, quant.cpp: Rounding and Nibbles have the codes and their packing, Q8,
--                   Q4 and Q4g quantize, dequantize and the products of each format, Weights the class
--                   Weight and its factories.
--   Backend         cpp/src/backend.hpp, backend.cpp: the virtual methods as a record; Cpu is CpuBackend, Rows
--                   its row operations, Dense is DenseWeight.
--   Serialize       cpp/src/serialize.cpp: load_bin and save_bin on bytes.
--   Config          cpp/src/config.hpp, config.cpp: Load has load_config, Stream the formatted input it uses.
--   Model           cpp/src/model.hpp, model.cpp: Build is the constructor and Build.Folding its scalars, Ffn
--                   the feed-forward layer and the experts, Forward and Batch the forward passes, Caches the
--                   class KVCacheBase with its two implementations, Sizes the reports of bytes; Alike,
--                   Layers and Refinement compare a pass over the one with a pass over the other.
--   Generate        cpp/src/generate.cpp: the generation loop.
--   Sampling        cpp/src/sampling.cpp: argmax, the penalty, temperature, top-k, top-p, the draw and
--                   token_probs. nth_element, sort, unordered_set and the random draw of the C++
--                   library are a parameter, Algorithms.
--   Cuda            the CUDA build, cpp/src/cuda: Launch (grids and the order of threads), Device (tensors
--                   on the device and the copies), Memory (DevicePool of cuda_runtime.cu), Elementwise
--                   (cuda_elementwise.cu), Policy (the choice of kernels), Attention (the kernels over
--                   contiguous keys: one thread, one warp, tiles in shared memory, splits), KvCache
--                   (CudaKVCache), Paged (CudaBlockPool, CudaPagedKVCache with its table on the device,
--                   and the kernels over blocks).
--   Tests modules hold concrete states and the witnesses of the theorems.
--
-- State and errors. A method takes the object and returns a result and the object after it; an exception
-- keeps the changes made before it was thrown, and its message is left out. A paged method runs on a
-- `Session`, the sequence with the pool that it points to. What other sequences and the prefix cache hold of
-- the pool is a list `others`, with one entry for each reference.
--
-- Numbers. An `int64_t` argument that may be negative is its bit pattern, 2^63 or more when it is negative.
-- Sizes and positions are natural numbers: tensors with a negative dimension are not modelled, and the
-- constructor's products of dimensions do not wrap; Tensor.Wrap has the products in 64 bits, for the shapes
-- that a file brings. A read out of bounds returns a filler value, and a write out of bounds is lost. The
-- theorems on caches do not ask that the new keys and values have the shape that the cache reads.
--
-- Text is the list of its bytes. A map by name is a list of entries with one for each name; no theorem
-- depends on their order. A model refers to its caches by references into a state of all caches, so that the
-- same definitions run over either kind.
--
-- Fuel. The `while` of ensure_capacity has one round more than there are free blocks, because a round takes a
-- block from the free list or throws. The loop of load_config has one round more than the file has bytes.
-- `std::to_string` has 20 digits, which 64 bits never exceed.
--
-- The device. A launch runs each thread once, in an order that is a parameter; a warp or a block is one unit of
-- it and runs in lockstep. A grid without blocks throws, and so does a copy past the end of a buffer; other
-- calls of the CUDA runtime succeed. A new buffer holds arbitrary values. The float functions of the device
-- are those of the host, without fused multiplications and additions, and a half buffer is kept as the
-- floats that are read from it. Casts of the number of blocks to `int` are kept modulo 2^32.
--
-- Threads. The loops over heads are modelled in serial order. An iteration of the parallel loop writes
-- the entries of its own head only.
--
-- Parameters. The arithmetic of floats, the algorithms and the random engine of the C++ library, and the input
-- of a float are parameters. `partial_sort`, by which an expert is chosen, is one too.
--
-- Not modelled: the AVX2 and NEON branches of simd.hpp, which are other builds of the same functions; the
-- matrix products and the quantized kernels of the CUDA build, and its capture of graphs; the texts of exceptions; allocation failures; the opening of files and the listing of directories; the bindings, the
-- benchmarks, and the Python packages.
pub mod Prelude
pub mod Tensor
pub mod Ops
pub mod Floats
pub mod KvCache
pub mod Paged
pub mod Quant
pub mod Backend
pub mod Serialize
pub mod Config
pub mod Model
pub mod Cuda
pub mod Generate
pub mod Sampling
