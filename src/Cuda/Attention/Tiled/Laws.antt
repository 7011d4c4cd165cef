-- ===== src/Cuda/Attention/Tiled/Laws.antt =====
-- cpp/src/cuda/cuda_backend.cu: the tiles bring each lane the keys of the loop over all keys, in order.
use nanoinfer.Prelude.{
  ℕ, ◌+◌, ◌-◌, ◌*◌, ◌/◌, ◌≤◌, ◌<◌, ◌≡◌, min, refl, sym, ap, ◌∙◌, false, inl, inr, Bool-cases, List,
  arith, length, length-set, get_or-set_self, get_or-set_ne, ltb, lt→ltb, ltb→lt, if◌then◌else◌,
}
use nanoinfer.Prelude.Arith.{row_bound}
use nanoinfer.Prelude.Loops.{
  for_range, for_range-keep, for_range-hit, for_range-count, for_range-last, for_range_none,
}
use nanoinfer.Floats.{FloatOps}
use nanoinfer.Cuda.Elementwise.{load}
use nanoinfer.Cuda.Attention.{Lane, online, fresh, rounds, lane_pass}
use nanoinfer.Cuda.Attention.Agreement.{online-cong}
use nanoinfer.Cuda.Attention.Kernels.{Inputs, query, limit}
use nanoinfer.Cuda.Attention.Tiled.{Block, stage, block_limit, tile_lane, tile_round, tile_loop}

not_below : (a b : ℕ) → ltb a b ≡ false → b ≤ a
not_below a b h = ground arith

module _ (fp : FloatOps) where
  open fp use {Float, zero_f}

  length-stage :
      (n : ℕ) (src : ℕ → Float) (old : List Float) → length (stage fp n src old) ≡ length old
  unfolding stage
  length-stage n src old =
      for_range-keep (λ s. length s ≡ length old) _ (λ i s e. length-set s i (src i) ∙ e) n 0 old
        refl

  load-stage :
      (n : ℕ) (src : ℕ → Float) (old : List Float) (i : ℕ)
      → i < n
      → i < length old
      → load fp (stage fp n src old) i ≡ src i
  unfolding stage
  load-stage n src old i h room =
      for_range-hit (λ s. length s ≡ length old) _ (λ i s e. length-set s i (src i) ∙ e)
        (λ s. load fp s i) i (src i) n 0 old (omega arith) (omega arith)
        (λ s e. get_or-set_self s i (src i) zero_f (omega (arith, e)))
        (λ k s lo hi ne e. get_or-set_ne s k i (src k) zero_f ne) refl

  module _ (a : Inputs Float) where
    open a use {heads, sq, keys, dim, causal, query_offset, scale, key, value, key_tile, value_tile}

    -- The tiles hold the keys and values that the other kernels read.
    pub record AreTiles : Type 0 where
      pub keys_there :
          (h base j d : ℕ) → d < dim → key_tile h base (j * dim + d) ≡ key h (base + j) d
      pub values_there :
          (h base j d : ℕ) → d < dim → value_tile h base (j * dim + d) ≡ value h (base + j) d

    module _ (h q0 w t : ℕ) (tiles : AreTiles) (active : q0 + w < sq) (in_warp : t < 32)
        (inside : limit fp a (q0 + w) ≤ keys) where
      top : ℕ
      top = limit fp a (q0 + w)

      -- The keys that the lane takes in the loop over all keys.
      step : ℕ → Lane Float → Lane Float
      step r =
          online fp (query fp a h (q0 + w)) dim scale (key h (t + 32 * r)) (value h (t + 32 * r))

      record IsAt (r : ℕ) (b : Block Float) : Type 0 where
        ks_room : length b.ks ≡ 32 * dim
        vs_room : length b.vs ≡ 32 * dim
        lane : b.lanes w t ≡ for_range (min r (rounds t top)) 0 step (fresh fp dim)

      -- An entry of a staged row.
      staged_at :
          (r : ℕ) (src : ℕ → Float) (old : List Float) (d : ℕ)
          → 32 * r + t < top
          → length old ≡ 32 * dim
          → d < dim
          → load fp
              (stage fp ((if ltb (keys - 32 * r) 32 then keys - 32 * r else 32) * dim) src old)
              (t * dim + d)
            ≡ src (t * dim + d)
      unfolding top
      staged_at r src old d seen room hd =
          let valid : ℕ = if ltb (keys - 32 * r) 32 then keys - 32 * r else 32 in
          let ht : t < valid = ground arith in
          load-stage (valid * dim) src old (t * dim + d) (row_bound dim valid t d ht hd)
            (rw room (row_bound dim 32 t d in_warp hd))

      seen-step :
          (r : ℕ) (b : Block Float)
          → IsAt r b
          → 32 * r + t < top
          → (tile_round fp a h q0 (32 * r) b).lanes w t ≡ step r (b.lanes w t)
      unfolding tile_round tile_lane step top
      seen-step r b v seen =
          rw (lt→ltb (q0 + w) sq active, lt→ltb (32 * r + t) top seen)
            (online-cong fp (query fp a h (q0 + w)) dim scale _ _ _ _ (b.lanes w t)
              (λ d hd.
                staged_at r (key_tile h (32 * r)) b.ks d seen v.ks_room hd
                ∙ tiles.keys_there h (32 * r) t d hd
                ∙ ap (λ j. key h j d) (omega arith))
              (λ d hd.
                staged_at r (value_tile h (32 * r)) b.vs d seen v.vs_room hd
                ∙ tiles.values_there h (32 * r) t d hd
                ∙ ap (λ j. value h j d) (omega arith)))

      past-step :
          (r : ℕ) (b : Block Float)
          → ltb (32 * r + t) top ≡ false
          → (tile_round fp a h q0 (32 * r) b).lanes w t ≡ b.lanes w t
      unfolding tile_round tile_lane top
      past-step r b past = rw (lt→ltb (q0 + w) sq active, past)

      tile_round-IsAt :
          (r : ℕ) (b : Block Float) → IsAt r b → IsAt (r + 1) (tile_round fp a h q0 (32 * r) b)
      unfolding tile_round
      tile_round-IsAt r b v = record {
        ks_room = length-stage _ (key_tile h (32 * r)) b.ks ∙ v.ks_room;
        vs_room = length-stage _ (value_tile h (32 * r)) b.vs ∙ v.vs_room;
        lane = elim (Bool-cases (ltb (32 * r + t) top)) [
          | inl seen ↦
              let lt : 32 * r + t < top = ltb→lt (32 * r + t) top seen in
              seen-step r b v lt
              ∙ ap (step r) (v.lane ∙ ap (λ n. for_range n 0 step (fresh fp dim)) (omega arith))
              ∙ ap (λ k. step k (for_range r 0 step (fresh fp dim))) (omega arith)
              ∙ sym (for_range-last step r 0 (fresh fp dim))
              ∙ ap (λ n. for_range n 0 step (fresh fp dim)) (omega arith)
          | inr past ↦
              past-step r b past
              ∙ v.lane
              ∙ ap (λ n. for_range n 0 step (fresh fp dim))
                  (omega (arith, not_below (32 * r + t) top past))
        ];
      }

      -- After the tiles the lane is where the loop over all keys ends.
      pub tile_loop-lane :
          (b : Block Float)
          → limit fp a (q0 + w) ≤ block_limit fp a q0
          → length b.ks ≡ 32 * dim
          → length b.vs ≡ 32 * dim
          → b.lanes w t ≡ fresh fp dim
          → (tile_loop fp a h q0 b).lanes w t
            ≡ lane_pass fp
                (query fp a h (q0 + w))
                dim
                scale
                (key h)
                (value h)
                t
                (limit fp a (q0 + w))
      unfolding tile_loop lane_pass step top
      tile_loop-lane b enough ks_room vs_room start =
          let n = (block_limit fp a q0 + 31) / 32 in
          let done : IsAt (0 + n) (tile_loop fp a h q0 b) =
            for_range-count IsAt (λ r. tile_round fp a h q0 (32 * r)) n 0 b
              (λ k u _ _. tile_round-IsAt k u)
              (record {
                ks_room = ks_room;
                vs_room = vs_room;
                lane =
                    start
                    ∙ sym
                        (for_range_none step (min 0 (rounds t top)) 0 (fresh fp dim) (omega arith));
              }) in
          done.lane ∙ ap (λ n. for_range n 0 step (fresh fp dim)) (omega arith)
