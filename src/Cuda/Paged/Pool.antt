-- ===== src/Cuda/Paged/Pool.antt =====
-- cpp/src/cuda/cuda_backend.hpp and cuda_backend.cu, class CudaBlockPool: one buffer on the device for the
-- keys of all blocks and one for the values, and the allocator on the host. The head of the list
-- `free_list` is the back of the vector.
use nanoinfer.Prelude.{
  ℕ, ◌+◌, ◌-◌, ◌*◌, ◌||◌, List, [], ◌∷◌, length, get_or, set, replicate, leb, ◌==◌, if◌then◌else◌,
  is_negative, Result, ok, throw, Method, invalid_argument, out_of_range, runtime_error,
}
use nanoinfer.Paged.Pool.{ill_sized, push_ids}

-- `k` and `v` are what `k_base()` and `v_base()` point to.
pub record CudaBlockPool (F : Type 0) : Type 0 where
  pub num_layers : ℕ
  pub n_kv_heads : ℕ
  pub head_dim : ℕ
  pub block_size : ℕ
  pub num_blocks : ℕ
  pub block_stride : ℕ
  pub k : List F
  pub v : List F
  pub free_list : List ℕ
  pub refcount : List ℕ

module _ {F : Type 0} where
  unfoldable pub make_pool : F → ℕ → ℕ → ℕ → ℕ → ℕ → Result (CudaBlockPool F)
  make_pool nought num_layers n_kv_heads head_dim block_size num_blocks =
      let block_stride = n_kv_heads * block_size * head_dim in
      let total = num_layers * num_blocks * block_stride in
      if ill_sized num_layers n_kv_heads head_dim block_size num_blocks
      then throw invalid_argument
      else ok (record {
        num_layers = num_layers;
        n_kv_heads = n_kv_heads;
        head_dim = head_dim;
        block_size = block_size;
        num_blocks = num_blocks;
        block_stride = block_stride;
        k = replicate total nought;
        v = replicate total nought;
        free_list = push_ids num_blocks [];
        refcount = replicate num_blocks 0;
      })

  unfoldable pub pop_free : List ℕ → Method (CudaBlockPool F) ℕ
  pop_free [] p = (throw runtime_error, p)
  pop_free (b ∷ rest) p = (ok b, record p { free_list = rest; refcount = set p.refcount b 1 })

  unfoldable pub allocate : Method (CudaBlockPool F) ℕ
  unfolding pop_free
  allocate p = pop_free p.free_list p

  unfoldable pub incref : ℕ → Method (CudaBlockPool F) (Unit {0})
  incref b p =
      if is_negative b || leb p.num_blocks b
      then (throw out_of_range, p)
      else if get_or p.refcount b 0 == 0
      then (throw runtime_error, p)
      else (ok tt, record p { refcount = set p.refcount b (get_or p.refcount b 0 + 1) })

  unfoldable pub free : ℕ → Method (CudaBlockPool F) (Unit {0})
  free b p =
      if is_negative b || leb p.num_blocks b
      then (throw out_of_range, p)
      else if get_or p.refcount b 0 == 0
      then (throw runtime_error, p)
      else let rc = get_or p.refcount b 0 - 1 in
        (
          ok tt,
          record p {
            refcount = set p.refcount b rc;
            free_list = if rc == 0 then b ∷ p.free_list else p.free_list;
          },
        )

  unfoldable pub free_blocks : CudaBlockPool F → ℕ
  free_blocks p = length p.free_list

  unfoldable pub used_blocks : CudaBlockPool F → ℕ
  unfolding free_blocks
  used_blocks p = p.num_blocks - free_blocks p

  unfoldable pub layer_stride : CudaBlockPool F → ℕ
  layer_stride p = p.num_blocks * p.block_stride
