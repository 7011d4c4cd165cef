-- ===== src/Cuda/Attention/Tiled/Output.antt =====
-- cpp/src/cuda/cuda_backend.cu: the kernel that stages tiles writes the rows of the kernel with one warp for
-- each query.
use native.Mathlib.Nat.{div-add-mod', mod-lt}
use nanoinfer.Prelude.{
  ℕ, ◌+◌, ◌*◌, ◌/◌, ◌%◌, ◌^◌, ◌≤◌, ◌<◌, ◌≡◌, ◌≢◌, refl, sym, ap, ap₂, subst, ◌∙◌, false, List,
  arith, length, get_or, ltb, lt→ltb, ltb→lt, ◌==◌, ne→==, if◌then◌else◌, ok, inl, inr, Bool-cases,
}
use nanoinfer.Prelude.Arith.{div_row, mod_row, row_bound, div-lt_of_lt_mul}
use nanoinfer.Prelude.Loops.{
  for_range, for_range-cong, for_range-keep, for_range-hit, for_range-miss,
}
use nanoinfer.Prelude.Tabulate.{tabulate, length-tabulate}
use nanoinfer.Floats.{FloatOps}
use nanoinfer.Cuda.Launch.{Order, IsOrder, launch}
use nanoinfer.Cuda.Launch.Owners.{IsShared, run_threads-IsShared}
use nanoinfer.Cuda.Device.{Gpu}
use nanoinfer.Cuda.Attention.{
  Lane, combine, merge_round, merge_lanes, warp_pass, normalized, fresh, store_row,
}
use nanoinfer.Cuda.Attention.Kernels.{Inputs, limit, attention_warp_kernel}
use nanoinfer.Cuda.Attention.Method.{warp_blocks}
use nanoinfer.Cuda.Attention.Rows.{
  length-store_row, store_row_new, store_row_old, row, entry, warp_launch,
}
use nanoinfer.Cuda.Attention.Tiled.{Block, block_limit, attention_warp_tiled_kernel}
use nanoinfer.Cuda.Attention.Tiled.Laws.{AreTiles, tile_loop-lane}

module _ (fp : FloatOps) where
  open fp use {Float, zero_f}

  -- The merge reads the 32 lanes of the warp.
  module _ (dim : ℕ) where
    AreLanes : (ℕ → Lane Float) → (ℕ → Lane Float) → Type 0
    AreLanes x y = (t : ℕ) → t < 32 → x t ≡ y t

    merge_round-cong :
        (off : ℕ) (x y : ℕ → Lane Float)
        → AreLanes x y
        → AreLanes (merge_round fp dim off x) (merge_round fp dim off y)
    unfolding merge_round AreLanes
    merge_round-cong off x y same t h =
        ap₂ (combine fp dim) (same t h) (elim (Bool-cases (ltb (t + off) 32)) [
          | inl e ↦ rw e (same (t + off) (ground arith))
          | inr e ↦ rw e (same t h)
        ])

    merge_lanes-cong :
        (x y : ℕ → Lane Float) → AreLanes x y → merge_lanes fp dim x ≡ merge_lanes fp dim y
    unfolding merge_lanes AreLanes
    merge_lanes-cong x y same =
        let at16 = merge_round-cong 16 x y same in
        let at8 = merge_round-cong 8 _ _ at16 in
        let at4 = merge_round-cong 4 _ _ at8 in
        let at2 = merge_round-cong 2 _ _ at4 in merge_round-cong 1 _ _ at2 0 (omega arith)

  module _ (a : Inputs Float) where
    open a use {heads, sq, keys, dim, causal, query_offset, scale, key, value}

    -- What warp `w` of a block stores.
    warp_row : ℕ → ℕ → ℕ → List Float → List Float
    warp_row h q0 w o =
        if ltb (q0 + w) sq
        then store_row fp ((h * sq + (q0 + w)) * dim) dim (row fp a h (q0 + w)) o
        else o

    block_rows : ℕ → ℕ → List Float → List Float
    block_rows h q0 o = for_range 8 0 (warp_row h q0) o

    length-warp_row : (h q0 w : ℕ) (o : List Float) → length (warp_row h q0 w o) ≡ length o
    unfolding warp_row
    length-warp_row h q0 w o = elim (Bool-cases (ltb (q0 + w) sq)) [
      | inl e ↦ rw e (length-store_row fp ((h * sq + (q0 + w)) * dim) dim (row fp a h (q0 + w)) o)
      | inr e ↦ rw e
    ]

    length-block_rows : (h q0 : ℕ) (o : List Float) → length (block_rows h q0 o) ≡ length o
    unfolding block_rows
    length-block_rows h q0 o =
        for_range-keep (λ u. length u ≡ length o) _ (λ w u e. length-warp_row h q0 w u ∙ e) 8 0 o
          refl

    -- A warp keeps the other rows.
    warp_row_old :
        (h q0 w p : ℕ) (o : List Float)
        → (q0 + w < sq → h * sq + (q0 + w) ≢ p / dim)
        → get_or (warp_row h q0 w o) p zero_f ≡ get_or o p zero_f
    unfolding warp_row
    warp_row_old h q0 w p o away = elim (Bool-cases (ltb (q0 + w) sq)) [
      | inl e ↦ rw e (
          store_row_old fp ((h * sq + (q0 + w)) * dim) dim (row fp a h (q0 + w)) o p λ d hd at.
            away (ltb→lt (q0 + w) sq e)
              (sym (div_row dim (h * sq + (q0 + w)) d hd) ∙ ap (λ x. x / dim) at))
      | inr e ↦ rw e
    ]

    block_rows_old :
        (h q0 p : ℕ) (o : List Float)
        → ((w : ℕ) → w < 8 → q0 + w < sq → h * sq + (q0 + w) ≢ p / dim)
        → get_or (block_rows h q0 o) p zero_f ≡ get_or o p zero_f
    unfolding block_rows
    block_rows_old h q0 p o away =
        for_range-miss (λ u. Unit {0}) _ (λ w u e. tt) (λ u. get_or u p zero_f) 8 0 o
          (λ w u lo hi e. warp_row_old h q0 w p u (away w (omega arith))) tt

    warp_row_new :
        (h q0 w d : ℕ) (o : List Float)
        → q0 + w < sq
        → d < dim
        → (h * sq + (q0 + w)) * dim + d < length o
        → get_or (warp_row h q0 w o) ((h * sq + (q0 + w)) * dim + d) zero_f ≡ row fp a h (q0 + w) d
    unfolding warp_row
    warp_row_new h q0 w d o active hd room =
        rw (lt→ltb (q0 + w) sq active)
          (store_row_new fp ((h * sq + (q0 + w)) * dim) dim (row fp a h (q0 + w)) o d hd room)

    block_rows_new :
        (h q0 w d : ℕ) (o : List Float)
        → w < 8
        → q0 + w < sq
        → d < dim
        → (h * sq + (q0 + w)) * dim + d < length o
        → get_or (block_rows h q0 o) ((h * sq + (q0 + w)) * dim + d) zero_f ≡ row fp a h (q0 + w) d
    unfolding block_rows
    block_rows_new h q0 w d o hw active hd room =
        let p = (h * sq + (q0 + w)) * dim + d in
        for_range-hit (λ u. length u ≡ length o) _ (λ k u e. length-warp_row h q0 k u ∙ e)
          (λ u. get_or u p zero_f) w (row fp a h (q0 + w) d) 8 0 o (omega arith) (omega arith)
          (λ u e. warp_row_new h q0 w d u active hd (omega (arith, e)))
          (λ k u lo hi ne e.
            warp_row_old h q0 k p u
              λ far eq. ne (omega (arith, eq, div_row dim (h * sq + (q0 + w)) d hd)))
          refl

    -- The head and the query that an entry belongs to.
    entry_inside : (p : ℕ) → p < heads * sq * dim → (p / dim / sq < heads) × (p / dim % sq < sq)
    entry_inside p h =
        let near : p / dim < heads * sq = div-lt_of_lt_mul dim p (heads * sq) h in
        let some : 0 < sq = grind arith in
        (div-lt_of_lt_mul sq (p / dim) heads near, mod-lt (p / dim) some)

    block_hit :
        (p : ℕ) (o : List Float)
        → 0 < dim
        → p < heads * sq * dim
        → length o ≡ heads * sq * dim
        → get_or (block_rows (p / dim / sq) (p / dim % sq / 8 * 8) o) p zero_f ≡ entry fp a p
    unfolding entry
    block_hit p o pos h e =
        let hd = p / dim / sq in
        let i = p / dim % sq in
        let query_at : i / 8 * 8 + i % 8 ≡ i = div-add-mod' i 8 in
        let row_at : hd * sq + i ≡ p / dim = div-add-mod' (p / dim) sq in
        let at : (hd * sq + (i / 8 * 8 + i % 8)) * dim + p % dim ≡ p =
          ap (λ x. (hd * sq + x) * dim + p % dim) query_at
          ∙ ap (λ x. x * dim + p % dim) row_at
          ∙ div-add-mod' p dim in
        subst (λ x. get_or (block_rows hd (i / 8 * 8) o) x zero_f ≡ row fp a hd i (p % dim)) at
          (block_rows_new hd (i / 8 * 8) (i % 8) (p % dim) o (omega arith)
              (omega (arith, query_at, (entry_inside p h).1)) (mod-lt p pos)
              (omega (arith, at, h, e))
            ∙ ap (λ x. row fp a hd x (p % dim)) query_at)

    -- The tiles of a block reach what each of its warps sees.
    block_sees : (q0 w : ℕ) → w < 8 → q0 + w < sq → limit fp a (q0 + w) ≤ block_limit fp a q0
    block_sees q0 w hw active = elim (Bool-cases causal) [
      | inl e ↦ rw e (ground arith)
      | inr e ↦ rw e (omega arith)
    ]

    module _ (g : Gpu Float) (tiles : AreTiles fp a)
        (inside : (i : ℕ) → i < sq → limit fp a i ≤ keys) where
      -- A block of the kernel.
      kernel_block :
          (count b : ℕ) (o : List Float)
          → attention_warp_tiled_kernel fp a g count b o ≡ block_rows (b / count) (b % count * 8) o
      unfolding attention_warp_tiled_kernel block_rows warp_row row warp_pass AreLanes
      kernel_block count b o =
          let h = b / count in
          let q0 = b % count * 8 in
          let start : Block Float = record {
            ks = tabulate (32 * dim) (g.stale 1);
            vs = tabulate (32 * dim) (g.stale 2);
            lanes = λ w t. fresh fp dim;
          } in
          for_range-cong _ _ 8 0 o λ w u lo hi. elim (Bool-cases (ltb (q0 + w) sq)) [
            | inl e ↦ rw e (
                let active : q0 + w < sq = ltb→lt (q0 + w) sq e in
                ap (λ x. store_row fp ((h * sq + (q0 + w)) * dim) dim (normalized fp x) u)
                  (merge_lanes-cong dim _ _ λ t ht.
                    tile_loop-lane fp a h q0 w t tiles active ht (inside (q0 + w) active) start
                      (block_sees q0 w (omega arith) active)
                      (length-tabulate (32 * dim) (g.stale 1))
                      (length-tabulate (32 * dim) (g.stale 2)) refl))
            | inr e ↦ rw e
          ]

      -- The output has one block for each eight queries of a head.
      tiled-IsShared :
          0 < dim
          → IsShared zero_f
              ((sq + 7) / 8 * heads)
              (heads * sq * dim)
              (attention_warp_tiled_kernel fp a g ((sq + 7) / 8))
              (λ p. p / dim / sq * ((sq + 7) / 8) + p / dim % sq / 8)
              (entry fp a)
      tiled-IsShared pos =
          let n : ℕ = (sq + 7) / 8 in
          let tile : (p : ℕ) → p < heads * sq * dim → p / dim % sq / 8 < n =
            λ p h. omega (arith, (entry_inside p h).1) in
          record {
            owned = λ p h.
                subst (λ x. p / dim / sq * n + p / dim % sq / 8 < x) (grind arith)
                  (row_bound n heads (p / dim / sq) (p / dim % sq / 8) ((entry_inside p h).0)
                    (tile p h));
            keeps = λ b o. ap length (kernel_block n b o) ∙ length-block_rows _ _ o;
            hits = λ p o h e.
                ap (λ u. get_or u p zero_f) (kernel_block n (p / dim / sq * n + p / dim % sq / 8) o)
                ∙ ap₂ (λ x y. get_or (block_rows x (y * 8) o) p zero_f)
                    (div_row n (p / dim / sq) (p / dim % sq / 8) (tile p h))
                    (mod_row n (p / dim / sq) (p / dim % sq / 8) (tile p h))
                ∙ block_hit p o pos h e;
            misses = λ b p o h ne e.
                ap (λ u. get_or u p zero_f) (kernel_block n b o)
                ∙ block_rows_old _ _ p o λ w hw active at.
                  let head : b / n ≡ p / dim / sq =
                    sym (div_row sq (b / n) (b % n * 8 + w) active) ∙ ap (λ x. x / sq) at in
                  let asked : b % n * 8 + w ≡ p / dim % sq =
                    sym (mod_row sq (b / n) (b % n * 8 + w) active) ∙ ap (λ x. x % sq) at in
                  ne (sym (div-add-mod' b n) ∙ ap₂ (λ x y. x * n + y) head (omega (arith, asked)));
          }

      -- A launch of the attention kernel that stages tiles of keys gives, to the bit and in every
      -- order of blocks, what a launch of the kernel with one warp for each query gives, if the
      -- tiles hold the keys and values, no query sees past the keys, there is a query and at most
      -- 2^32 of them, and heads have a positive dimension.
      pub tiled_launch :
          (order : Order) (out out' : List Float)
          → IsOrder order
          → 0 < dim
          → 0 < heads * sq
          → heads * sq ≤ 2 ^ 32
          → length out ≡ heads * sq * dim
          → length out' ≡ heads * sq * dim
          → launch order
              ((sq + 7) / 8 * heads)
              1
              (attention_warp_tiled_kernel fp a g ((sq + 7) / 8))
              out
            ≡ launch order (warp_blocks (heads * sq)) 8 (attention_warp_kernel fp a) out'
      unfolding launch
      tiled_launch order out out' w pos some small room room' =
          let n : ℕ = (sq + 7) / 8 in
          let queries : 0 < sq = grind arith in
          let some_heads : 0 < heads = grind arith in
          let blocks : 0 * n + 0 < heads * n = row_bound n heads 0 0 some_heads (omega arith) in
          let there : (n * heads == 0) ≡ false = ne→== (n * heads) 0 (λ e. grind arith) in
          rw there (
            ap ok (
              run_threads-IsShared zero_f (n * heads) (heads * sq * dim) _ _ (entry fp a)
                (tiled-IsShared pos) order (n * heads * 1) out w (omega arith) room))
          ∙ sym (warp_launch fp a order out' w pos some small room')
