-- ===== src/Cuda/Attention/Tiled.antt =====
-- cpp/src/cuda/cuda_backend.cu: the attention kernels that stage tiles of 32 keys in shared memory. A
-- block has eight warps, one for each of eight queries of a head.
pub mod Laws
pub mod Output
use nanoinfer.Prelude.{ℕ, ◌+◌, ◌-◌, ◌*◌, ◌/◌, ◌%◌, Bool, not, ◌&&◌, List, set, ltb, if◌then◌else◌}
use nanoinfer.Prelude.Loops.{for_range}
use nanoinfer.Prelude.Tabulate.{tabulate}
use nanoinfer.Floats.{FloatOps}
use nanoinfer.Cuda.Device.{Gpu}
use nanoinfer.Cuda.Elementwise.{load}
use nanoinfer.Cuda.Attention.{Lane, online, fresh, normalized, merge_lanes, store_row}
use nanoinfer.Cuda.Attention.Kernels.{Inputs, limit_of, query}

-- The shared memory of a block, and the lanes of its warps.
pub record Block (F : Type 0) : Type 0 where
  pub ks : List F
  pub vs : List F
  pub lanes : ℕ → ℕ → Lane F

module _ (fp : FloatOps) where
  open fp use {Float, zero_f}

  -- The threads of the block copy `n` entries.
  unfoldable pub stage : ℕ → (ℕ → Float) → List Float → List Float
  stage n src old = for_range n 0 (λ idx s. set s idx (src idx)) old

  module _ (a : Inputs Float) where
    open a use {heads, sq, keys, dim, causal, query_offset, scale, key_tile, value_tile}

    -- The keys that the query of warp `w` sees; none, if the warp has no query.
    abbrev pub warp_limit : ℕ → ℕ → ℕ
    warp_limit q0 w = if ltb (q0 + w) sq then limit_of causal query_offset (q0 + w) keys else 0

    -- The last key that a query of the block sees, and one.
    abbrev pub block_limit : ℕ → ℕ
    block_limit q0 = limit_of causal query_offset (if ltb (q0 + 7) sq then q0 + 7 else sq - 1) keys

    -- Lane `t` of warp `w` reads key `base + t` from the tile.
    unfoldable pub tile_lane : ℕ → ℕ → ℕ → Block Float → ℕ → ℕ → Lane Float
    unfolding online
    tile_lane h q0 base b w t =
        if ltb (q0 + w) sq && ltb (base + t) (warp_limit q0 w)
        then online fp (query fp a h (q0 + w)) dim scale (λ d. load fp b.ks (t * dim + d))
            (λ d. load fp b.vs (t * dim + d)) (b.lanes w t)
        else b.lanes w t

    -- The body of the loop over tiles.
    unfoldable pub tile_round : ℕ → ℕ → ℕ → Block Float → Block Float
    unfolding stage tile_lane
    tile_round h q0 base b =
        let valid = if ltb (keys - base) 32 then keys - base else 32 in
        let staged : Block Float = record b {
          ks = stage (valid * dim) (key_tile h base) b.ks;
          vs = stage (valid * dim) (value_tile h base) b.vs;
        } in
        record staged { lanes = tile_lane h q0 base staged }

    -- `for (base = 0; base < block_limit; base += 32)`
    unfoldable pub tile_loop : ℕ → ℕ → Block Float → Block Float
    unfolding tile_round
    tile_loop h q0 b = for_range ((block_limit q0 + 31) / 32) 0 (λ r. tile_round h q0 (32 * r)) b

    -- Block `b` of the grid of `tiles` tiles of queries for each head. `stale` is in the shared memory.
    unfoldable pub attention_warp_tiled_kernel : Gpu Float → ℕ → ℕ → List Float → List Float
    unfolding tile_loop merge_lanes store_row
    attention_warp_tiled_kernel g tiles b out =
        let h = b / tiles in
        let q0 = b % tiles * 8 in
        let start : Block Float = record {
          ks = tabulate (32 * dim) (g.stale 1);
          vs = tabulate (32 * dim) (g.stale 2);
          lanes = λ w t. fresh fp dim;
        } in
        let done = tile_loop h q0 start in
        for_range 8 0
          (λ w o.
            if ltb (q0 + w) sq
            then store_row fp ((h * sq + (q0 + w)) * dim) dim
                (normalized fp (merge_lanes fp dim (done.lanes w))) o
            else o)
          out
