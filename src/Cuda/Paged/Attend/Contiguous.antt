-- ===== src/Cuda/Paged/Attend/Contiguous.antt =====
-- cpp/src/cuda/cuda_backend.cu: attention over the blocks of a sequence against CudaBackend::attention.
use nanoinfer.Prelude.{
  ℕ, ◌+◌, ◌*◌, ◌/◌, ◌^◌, ◌≤◌, ◌<◌, ◌≡◌, refl, sym, ap, ap₂, ◌∙◌, Bool, true, false, List, [], ◌∷◌,
  arith, length, ltb, inl, inr, Bool-cases, ok, ◌>>=◌,
}
use nanoinfer.Prelude.Arith.{div_row, mod_row}
use nanoinfer.Prelude.Tabulate.{length-tabulate}
use nanoinfer.Floats.{FloatOps}
use nanoinfer.Tensor.{size, f32, make_tensor}
use nanoinfer.Cuda.Launch.{IsOrder}
use nanoinfer.Cuda.Policy.{CudaPolicy}
use nanoinfer.Cuda.Device.{DeviceTensor, Gpu, device_alloc}
use nanoinfer.Cuda.Elementwise.{load}
use nanoinfer.Cuda.Elementwise.Fill.{numel3}
use nanoinfer.Cuda.Attention.Kernels.{limit_of}
use nanoinfer.Cuda.Attention.Method.{attention, contiguous_inputs, scale_of}
use nanoinfer.Cuda.Attention.Tiled.Laws.{AreTiles}
use nanoinfer.Cuda.Paged.Pool.{CudaBlockPool, layer_stride}
use nanoinfer.Cuda.Paged.Attend.{block_offset, paged_inputs, attend_blocks}
use nanoinfer.Cuda.Paged.Attend.Agreement.{elsewhere, run_attention-same}

limit_inside :
    (causal : Bool) (off sq i keys : ℕ)
    → i < sq
    → (causal ≡ true → off + sq ≤ keys)
    → limit_of causal off i keys ≤ keys
limit_inside true off sq i keys h seen = omega (arith, seen refl)
limit_inside false off sq i keys h seen = omega arith

length-device_alloc :
    (fp : FloatOps) (g : Gpu fp.Float) (a b c : ℕ)
    → length (device_alloc fp g 0 (a ∷ b ∷ c ∷ []) f32).buffer ≡ a * b * c
unfolding device_alloc make_tensor
length-device_alloc fp g a b c = length-tabulate _ (g.stale 0) ∙ sym (numel3 a b c)

module _ (fp : FloatOps) where
  open fp use {Float}

  -- The tiles of contiguous memory.
  pub contiguous-AreTiles :
      (g : Gpu Float) (q k v : DeviceTensor Float) (causal : Bool) (off : ℕ)
      → AreTiles fp (contiguous_inputs fp g q k v causal off)
  unfolding contiguous_inputs
  contiguous-AreTiles g q k v causal off =
      let at : (h base j d : ℕ)
          → h * size k.header 1 * size q.header 2
              + (base * size q.header 2 + (j * size q.header 2 + d))
            ≡ h * size k.header 1 * size q.header 2 + (base + j) * size q.header 2 + d =
        λ h base j d. grind arith in
      record {
        keys_there = λ h base j d hd. ap (load fp k.buffer) (at h base j d);
        values_there = λ h base j d hd. ap (load fp v.buffer) (at h base j d);
      }

  module _ (kbase vbase : List Float) (base : ℕ) (table : List ℕ) (n_kv n_rep block_size : ℕ)
      (q : List Float) (heads sq dim end : ℕ) (causal : Bool) (off : ℕ) (scale : Float) where
    -- The tiles that are gathered from the blocks.
    paged-AreTiles : AreTiles fp (
        paged_inputs fp kbase vbase base table n_kv n_rep block_size q heads sq dim end causal off
          scale)
    unfolding paged_inputs
    paged-AreTiles = record {
      keys_there = λ h first j d hd.
          ap₂
            (λ r c.
              load fp kbase
                (base + (block_offset table n_kv block_size dim (h / n_rep) (first + r) + c)))
            (div_row dim j d hd) (mod_row dim j d hd);
      values_there = λ h first j d hd.
          ap₂
            (λ r c.
              load fp vbase
                (base + (block_offset table n_kv block_size dim (h / n_rep) (first + r) + c)))
            (div_row dim j d hd) (mod_row dim j d hd);
    }

  module _ (g : Gpu Float) (q k v : DeviceTensor Float) (n_rep layer : ℕ) (table : List ℕ)
      (p : CudaBlockPool Float) where
    -- The blocks hold, for each query head, the keys and values of the tensors `k` and `v`.
    pub record BlocksHold : Type 0 where
      pub keys_held :
          (h j d : ℕ)
          → h < size q.header 0
          → j < size k.header 1
          → d < size q.header 2
          → load fp p.k (
              layer * layer_stride p
              + (block_offset table p.n_kv_heads p.block_size (size q.header 2) (h / n_rep) j + d))
            ≡ load fp k.buffer (h * size k.header 1 * size q.header 2 + j * size q.header 2 + d)
      pub values_held :
          (h j d : ℕ)
          → h < size q.header 0
          → j < size k.header 1
          → d < size q.header 2
          → load fp p.v (
              layer * layer_stride p
              + (block_offset table p.n_kv_heads p.block_size (size q.header 2) (h / n_rep) j + d))
            ≡ load fp v.buffer (h * size k.header 1 * size q.header 2 + j * size q.header 2 + d)

    -- Under every policy and every order of threads, attention over the blocks of a sequence gives,
    -- to the bit, what CudaBackend::attention gives over contiguous keys and values, if the blocks
    -- hold the same entries, there is a query and at most 2^32 of them, heads have a positive
    -- dimension, and causal queries stay within the keys.
    pub attend_blocks-attention :
        (policy : CudaPolicy) (causal : Bool) (off : ℕ)
        → BlocksHold
        → IsOrder g.order
        → 0 < size q.header 2
        → 0 < size q.header 0 * size q.header 1
        → size q.header 0 * size q.header 1 ≤ 2 ^ 32
        → (causal ≡ true → off + size q.header 1 ≤ size k.header 1)
        → attend_blocks fp g policy layer q n_rep causal off (size k.header 1) table p
          ≡ attention fp g policy q k v causal off
    unfolding attend_blocks attention paged_inputs contiguous_inputs elsewhere device_alloc
    attend_blocks-attention policy causal off held w pos some small seen =
        elim (Bool-cases (ltb 128 (size q.header 2))) [
          | inl e ↦ rw e
          | inr e ↦ rw e (
              ap
                (λ r. r >>= λ buffer.
                  ok
                    (record (device_alloc fp g 0
                      (size q.header 0 ∷ size q.header 1 ∷ size q.header 2 ∷ []) f32) {
                        buffer = buffer;
                      }))
                (run_attention-same fp
                  (paged_inputs fp p.k p.v (layer * layer_stride p) table p.n_kv_heads n_rep
                    p.block_size q.buffer (size q.header 0) (size q.header 1) (size q.header 2)
                    (size k.header 1) causal off (scale_of fp g (size q.header 2)))
                  _ _ _ _ (record { same_key = held.keys_held; same_value = held.values_held })
                  (λ i h. limit_inside causal off (size q.header 1) i (size k.header 1) h seen) g
                  policy _ (paged-AreTiles _ _ _ _ _ _ _ _ _ _ _ _ _ _ _)
                  (contiguous-AreTiles g q k v causal off) w pos some small
                  (length-device_alloc fp g (size q.header 0) (size q.header 1) (size q.header 2))))
        ]
