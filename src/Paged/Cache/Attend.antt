-- ===== src/Paged/Cache/Attend.antt =====
-- cpp/src/paged.cpp: PagedKVCache::attend, which writes the new tokens into the sequence's blocks and
-- reads keys and values from the blocks.
pub mod Writes
pub mod Growth
pub mod Contract
use nanoinfer.Prelude.{ℕ, ◌+◌, ◌*◌, ◌/◌, ◌%◌, Bool, List, get_or, ok, Method, continue}
use nanoinfer.Prelude.Loops.{for3}
use nanoinfer.Floats.{FloatOps}
use nanoinfer.Tensor.{Tensor, size}
use nanoinfer.KvCache.Buffers.{Planes, read}
use nanoinfer.Ops.Attention.{attend_heads}
use nanoinfer.Paged.Pool.{BlockPool, k_at}
use nanoinfer.Paged.Pool.Memory.{cell, store}
use nanoinfer.Paged.Cache.{Session, with_pool, ensure_capacity}

-- `k_at(layer, block_table_[pos / bs], h, pos % bs)`
unfoldable pub slot : {F : Type 0} → BlockPool F → List ℕ → ℕ → ℕ → ℕ
slot p table h pos = k_at p (get_or table (pos / p.block_size) 0) h (pos % p.block_size)

module _ {F : Type 0} (nought : F) where
  -- `kp[d] = k.at(h, i, d); vp[d] = v.at(h, i, d)` for all the new tokens. The dimensions of the pool
  -- never change, so the places are those of the pool before.
  unfoldable pub write_blocks : List ℕ → ℕ → ℕ → ℕ → Planes F → BlockPool F → BlockPool F
  write_blocks table start t layer new p =
      for3 t p.n_kv_heads p.head_dim
        (λ i h d q. store q layer (slot p table h (start + i) + d) (read nought new h i d)) p

module _ (fp : FloatOps) where
  open fp use {Float, zero_f}

  -- What the sequence holds at a position.
  abbrev pub block_entry : BlockPool Float → List ℕ → ℕ → ℕ → ℕ → ℕ → Float × Float
  block_entry p table layer h pos d = cell zero_f p layer (slot p table h pos + d)

  unfoldable pub attend :
      ℕ
      → Tensor Float
      → Tensor Float
      → Tensor Float
      → ℕ
      → Bool
      → ℕ
      → Method (Session Float) (Tensor Float)
  unfolding write_blocks
  attend layer q k v n_rep causal query_offset s =
      let t = size k 1 in
      let start = s.cache.filled in
      let end = start + t in
      continue (ensure_capacity end s) λ _ grown.
        let table = grown.cache.block_table in
        let pool = write_blocks zero_f table start t layer (k, v) grown.pool in
        (
          ok (
              attend_heads fp q (λ h j x. (block_entry pool table layer (h / n_rep) j x).0)
                (λ h j x. (block_entry pool table layer (h / n_rep) j x).1) end causal
                query_offset),
          with_pool grown pool,
        )
