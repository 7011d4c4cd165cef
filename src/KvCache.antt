-- ===== src/KvCache.antt =====
-- cpp/src/cache.hpp and cache.cpp, class KVCache: the contiguous key/value cache.
pub mod Buffers
pub mod Update
pub mod Contract
pub mod Attend
pub mod Tests
use nanoinfer.Prelude.{
  ℕ, suc, ◌+◌, ◌*◌, Bool, ◌||◌, List, [], ◌∷◌, length, get_or, set, replicate, ltb, leb, ◌==◌,
  if◌then◌else◌, is_negative, Result, ok, throw, invalid_argument, out_of_range, runtime_error,
  Method,
}
use nanoinfer.Prelude.Loops.{for3}
use nanoinfer.Tensor.{Tensor, cpu, make_tensor, size, at3, set_at3}
use Buffers.{Planes, read, write}

-- `k` and `v` hold one tensor [n_kv_heads, max_seq, head_dim] for each layer; `filled` is `length_`.
pub record KvCache (F : Type 0) : Type 0 where
  pub k : List (Tensor F)
  pub v : List (Tensor F)
  pub n_kv_heads : ℕ
  pub head_dim : ℕ
  pub max_seq : ℕ
  pub filled : ℕ

abbrev pub is_nonpos : ℕ → Bool
is_nonpos n = is_negative n || n == 0

module _ {F : Type 0} (nought : F) where
  unfoldable pub make_cache : ℕ → ℕ → ℕ → ℕ → Result (KvCache F)
  make_cache num_layers n_kv_heads head_dim max_seq =
      if is_nonpos num_layers || (is_nonpos n_kv_heads || (is_nonpos head_dim || is_nonpos max_seq))
      then throw invalid_argument
      else ok (record {
        k = replicate num_layers (make_tensor nought (n_kv_heads ∷ max_seq ∷ head_dim ∷ []) cpu);
        v = replicate num_layers (make_tensor nought (n_kv_heads ∷ max_seq ∷ head_dim ∷ []) cpu);
        n_kv_heads = n_kv_heads;
        head_dim = head_dim;
        max_seq = max_seq;
        filled = 0;
      })

  -- A tensor with no entries, for a layer that is not there.
  abbrev pub absent : Tensor F
  absent = make_tensor nought [] cpu

  -- `k_[layer]` and `v_[layer]`.
  abbrev pub layer_planes : KvCache F → ℕ → Planes F
  layer_planes c layer = (get_or c.k layer absent, get_or c.v layer absent)

  -- `kbuf.at(h, start + i, d) = k.at(h, i, d)` and the same for `v`, for all the new tokens.
  unfoldable pub write_tokens : ℕ → ℕ → ℕ → ℕ → Planes F → Planes F → Planes F
  write_tokens n_kv t hd start new bufs =
      for3 n_kv t hd (λ h i d p. write p h (start + i) d (read nought new h i d)) bufs

  -- Copies of the first `end` positions.
  unfoldable pub read_back : ℕ → ℕ → ℕ → Planes F → Planes F
  read_back n_kv end hd bufs =
      for3 n_kv end hd (λ h s d p. write p h s d (read nought bufs h s d))
        (
          make_tensor nought (n_kv ∷ end ∷ hd ∷ []) cpu,
          make_tensor nought (n_kv ∷ end ∷ hd ∷ []) cpu,
        )

  abbrev pub store_layer : KvCache F → ℕ → Planes F → KvCache F
  store_layer c layer p = record c { k = set c.k layer (p.0); v = set c.v layer (p.1) }

  unfoldable pub update : ℕ → Tensor F → Tensor F → Method (KvCache F) (Planes F)
  unfolding write_tokens read_back
  update layer k v c =
      if is_negative layer || leb (length c.k) layer
      then (throw out_of_range, c)
      else let t = size k 1 in
        let end = c.filled + t in
        if ltb c.max_seq end
        then (throw runtime_error, c)
        else let bufs =
            write_tokens c.n_kv_heads t c.head_dim c.filled (k, v) (layer_planes c layer) in
          (ok (read_back c.n_kv_heads end c.head_dim bufs), store_layer c layer bufs)

module _ {F : Type 0} where
  unfoldable pub advance : ℕ → KvCache F → KvCache F
  advance t c = record c { filled = c.filled + t }

  unfoldable pub truncate : ℕ → Method (KvCache F) (Unit {0})
  truncate n c =
      if is_negative n || ltb c.filled n
      then (throw invalid_argument, c)
      else (ok tt, record c { filled = n })
