-- ===== src/Cuda/KvCache.antt =====
-- cpp/src/cuda/cuda_runtime.cu and cuda_backend.cu: cat_seq and class CudaKVCache, whose history of a layer
-- is a tensor on the device that grows by a copy.
use nanoinfer.Prelude.{
  ℕ, ◌+◌, ◌*◌, Bool, ◌||◌, List, [], ◌∷◌, length, get_or, set, replicate, ltb, ◌==◌, if◌then◌else◌,
  is_negative, ok, throw, Method, invalid_argument, ◌>>=◌,
}
use nanoinfer.Prelude.Loops.{for_range}
use nanoinfer.Floats.{FloatOps}
use nanoinfer.Tensor.{f32, cpu, size}
use nanoinfer.Cuda.Device.{DeviceTensor, Gpu, device_alloc, memcpy}
use nanoinfer.Cuda.Policy.{CudaPolicy}
use nanoinfer.Cuda.Elementwise.{repeat_kv}
use nanoinfer.Cuda.Attention.Method.{attention}

-- `k` and `v` have a tensor for each layer; `filled` is `length_`.
pub record CudaKvCache (F : Type 0) : Type 0 where
  pub n_kv_heads : ℕ
  pub head_dim : ℕ
  pub k : List (DeviceTensor F)
  pub v : List (DeviceTensor F)
  pub filled : ℕ

-- `Tensor()`
abbrev pub nothing : {F : Type 0} → DeviceTensor F
nothing = record {
  header = record { shape = []; strides = []; values = []; numel = 0; device = cpu; dtype = f32 };
  buffer = [];
}

unfoldable pub make_cache : {F : Type 0} → ℕ → ℕ → ℕ → CudaKvCache F
make_cache num_layers n_kv_heads head_dim = record {
  n_kv_heads = n_kv_heads;
  head_dim = head_dim;
  k = replicate num_layers nothing;
  v = replicate num_layers nothing;
  filled = 0;
}

unfoldable pub advance : {F : Type 0} → ℕ → CudaKvCache F → CudaKvCache F
advance t c = record c { filled = c.filled + t }

module _ (fp : FloatOps) (g : Gpu fp.Float) where
  open fp use {Float}

  -- For each head the old rows and then the new ones; a first append copies the new tensor. The result
  -- is in buffer `number`.
  unfoldable pub cat_seq : ℕ → DeviceTensor Float → DeviceTensor Float → DeviceTensor Float
  unfolding device_alloc memcpy
  cat_seq number a b =
      let nkv = size b.header 0 in
      let t = size b.header 1 in
      let hd = size b.header 2 in
      if a.header.numel == 0
      then (let out = device_alloc fp g number (nkv ∷ t ∷ hd ∷ []) f32 in
          record out { buffer = memcpy fp out.buffer 0 b.buffer 0 b.header.numel })
      else let old = size a.header 1 in
        let new = old + t in
        let out = device_alloc fp g number (nkv ∷ new ∷ hd ∷ []) f32 in
        record out {
          buffer =
              for_range nkv 0
                (λ h o.
                  memcpy fp (memcpy fp o (h * new * hd) a.buffer (h * old * hd) (old * hd))
                    ((h * new + old) * hd) b.buffer (h * t * hd) (t * hd))
                out.buffer;
        }

  unfoldable pub attend :
      CudaPolicy
      → ℕ
      → DeviceTensor Float
      → DeviceTensor Float
      → DeviceTensor Float
      → ℕ
      → Bool
      → ℕ
      → Method (CudaKvCache Float) (DeviceTensor Float)
  unfolding cat_seq repeat_kv attention
  attend policy layer q k v n_rep causal query_offset c =
      let kh = cat_seq 1 (get_or c.k layer nothing) k in
      let vh = cat_seq 2 (get_or c.v layer nothing) v in
      (
        do
          kk ← repeat_kv fp g kh n_rep
          vv ← repeat_kv fp g vh n_rep
          attention fp g policy q kk vv causal query_offset,
        record c { k = set c.k layer kh; v = set c.v layer vh },
      )

  -- The first `n` of the `old` rows of each head.
  unfoldable pub shorten : ℕ → ℕ → ℕ → ℕ → ℕ → DeviceTensor Float → DeviceTensor Float
  unfolding device_alloc memcpy
  shorten number n_kv_heads n old hd x =
      let out = device_alloc fp g number (n_kv_heads ∷ n ∷ hd ∷ []) f32 in
      record out {
        buffer =
            for_range n_kv_heads 0
              (λ h o. memcpy fp o (h * n * hd) x.buffer (h * old * hd) (n * hd)) out.buffer;
      }

  -- One round of the loop over layers.
  unfoldable pub truncate_layer : ℕ → ℕ → CudaKvCache Float → CudaKvCache Float
  unfolding shorten
  truncate_layer n l c =
      let kl = get_or c.k l nothing in
      let vl = get_or c.v l nothing in
      let old = size kl.header 1 in
      if kl.header.numel == 0
      then c
      else if n == 0
      then record c { k = set c.k l nothing; v = set c.v l nothing }
      else record c {
        k = set c.k l (shorten (2 * l) c.n_kv_heads n old c.head_dim kl);
        v = set c.v l (shorten (2 * l + 1) c.n_kv_heads n old c.head_dim vl);
      }

  unfoldable pub truncate : ℕ → Method (CudaKvCache Float) (Unit {0})
  unfolding truncate_layer
  truncate n c =
      if is_negative n || ltb c.filled n
      then (throw invalid_argument, c)
      else if n == c.filled
      then (ok tt, c)
      else (ok tt, record (for_range (length c.k) 0 (λ l d. truncate_layer n l d) c) { filled = n })
