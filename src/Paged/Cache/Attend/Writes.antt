-- ===== src/Paged/Cache/Attend/Writes.antt =====
-- cpp/src/paged.cpp, PagedKVCache::attend: which entries the write loop sets and which it keeps.
use native.Mathlib.Nat.{div-add-mod'}
use nanoinfer.Prelude.{
  ℕ, ◌+◌, ◌*◌, ◌/◌, ◌%◌, ◌≤◌, ◌<◌, ◌≡◌, refl, sym, ap, ◌∙◌, List, ◌++◌, arith, length, get_or,
  count, count-append, count-get_or, get_or-ne_of_count, ℕ_discrete,
}
use nanoinfer.Prelude.Arith.{div-lt_of_lt_mul}
use nanoinfer.Prelude.Loops.{for3-hit, for3-miss, for3-keep}
use nanoinfer.KvCache.Buffers.{Planes, read}
use nanoinfer.Paged.Pool.{BlockPool, k_at}
use nanoinfer.Paged.Pool.Memory.{
  cell, store, IsStore, room_of, k_at-lt, k_at_inj, store-IsStore, cell-store_self, cell-store_ne,
}
use nanoinfer.Paged.Pool.Frames.{frame_of}
use nanoinfer.Paged.Cache.Attend.{slot, write_blocks}

-- A block table into which `t` tokens can be written from position `start` on: it reaches far enough,
-- its blocks exist, and the blocks that are written are held once, by this sequence.
pub record IsWritable {F : Type 0} (others : List ℕ) (p : BlockPool F) (table : List ℕ)
    (start t : ℕ) : Type 0 where
  pub positive : 0 < p.block_size
  pub covers : start + t ≤ length table * p.block_size
  pub inside : (i : ℕ) → i < length table → get_or table i 0 < p.num_blocks
  pub exclusive :
      (i : ℕ)
      → start / p.block_size ≤ i
      → i < length table
      → count (get_or table i 0) (table ++ others) ≡ 1

div_mono : (d m n : ℕ) → m ≤ n → m / d ≤ n / d
div_mono d m n h = grind (arith, div-add-mod')

same_position : (d m n : ℕ) → m / d ≡ n / d → m % d ≡ n % d → m ≡ n
same_position d m n e f =
    sym (div-add-mod' m d)
    ∙ ap (λ x. x * d + m % d) e
    ∙ ap (λ x. n / d * d + x) f
    ∙ div-add-mod' n d

-- The write loop touches nothing but keys and values.
pub write_blocks-frame :
    {F : Type 0} (nought : F) (table : List ℕ) (start t layer : ℕ) (new : Planes F)
    (p : BlockPool F)
    → frame_of (write_blocks nought table start t layer new p) ≡ frame_of p
unfolding write_blocks
write_blocks-frame nought table start t layer new p =
    for3-miss (λ q. Unit {0}) _ (λ i h d q v. tt) t p.n_kv_heads p.head_dim frame_of p
      (λ i h d q hi hh hd v. refl) tt

module _ {F : Type 0} (nought : F) (others : List ℕ) (layers : ℕ) (p : BlockPool F) (table : List ℕ)
    (start t layer : ℕ) (new : Planes F) (memory : IsStore layers (room_of p) p)
    (w : IsWritable others p table start t) (in_layers : layer < layers) where
  body : ℕ → ℕ → ℕ → BlockPool F → BlockPool F
  body i h d q = store q layer (slot p table h (start + i) + d) (read nought new h i d)

  keeps :
      (i h d : ℕ) (q : BlockPool F)
      → IsStore layers (room_of p) q
      → IsStore layers (room_of p) (body i h d q)
  unfolding body
  keeps i h d q v = store-IsStore layers (room_of p) q layer _ _ v

  pub write_blocks-IsStore :
      IsStore layers (room_of p) (write_blocks nought table start t layer new p)
  unfolding write_blocks body
  write_blocks-IsStore =
      for3-keep (IsStore layers (room_of p)) body keeps t p.n_kv_heads p.head_dim p memory

  index-lt : (pos : ℕ) → pos < start + t → pos / p.block_size < length table
  index-lt pos h = div-lt_of_lt_mul p.block_size pos (length table) (omega (arith, w.covers))

  offset-lt : (pos : ℕ) → pos % p.block_size < p.block_size
  offset-lt pos = omega (arith, w.positive)

  -- A place that no new token is written to keeps what it holds.
  pub unwritten :
      (other to : ℕ)
      → ((i h d : ℕ)
          → i < t
          → h < p.n_kv_heads
          → d < p.head_dim
          → ¬ ((layer ≡ other) × (slot p table h (start + i) + d ≡ to)))
      → cell nought (write_blocks nought table start t layer new p) other to
        ≡ cell nought p other to
  unfolding write_blocks body
  unwritten other to apart =
      for3-miss (IsStore layers (room_of p)) body keeps t p.n_kv_heads p.head_dim
        (λ q. cell nought q other to) p
        (λ i h d q hi hh hd v.
          cell-store_ne nought layers (room_of p) q layer _ other to _ v in_layers
            (apart i h d hi hh hd))
        memory

  -- A position from `start` on shares its place with no other position of the sequence.
  slot_inj :
      (pos h d pos' h' d' : ℕ)
      → start ≤ pos
      → pos < start + t
      → pos' < start + t
      → h < p.n_kv_heads
      → d < p.head_dim
      → h' < p.n_kv_heads
      → d' < p.head_dim
      → slot p table h pos + d ≡ slot p table h' pos' + d'
      → (pos ≡ pos') × (h ≡ h') × (d ≡ d')
  unfolding slot
  slot_inj pos h d pos' h' d' from hp hp' hh hd hh' hd' e =
      let (eb, eh, eo, ed) =
        k_at_inj p (get_or table (pos / p.block_size) 0) h (pos % p.block_size) d
          (get_or table (pos' / p.block_size) 0) h' (pos' % p.block_size) d' hh (offset-lt pos) hd
          hh' (offset-lt pos') hd' e in
      (same_position p.block_size pos pos' (same_index eb) eo, eh, ed)
    where
      once : count (get_or table (pos / p.block_size) 0) table ≡ 1
      once = omega (
        arith,
        w.exclusive (pos / p.block_size) (div_mono p.block_size start pos from) (index-lt pos hp),
        count-append (get_or table (pos / p.block_size) 0) table others,
        count-get_or table (pos / p.block_size) 0 (index-lt pos hp),
      )

      same_index :
          get_or table (pos / p.block_size) 0 ≡ get_or table (pos' / p.block_size) 0
          → pos / p.block_size ≡ pos' / p.block_size
      same_index eb = elim (ℕ_discrete (pos / p.block_size) (pos' / p.block_size)) [
        | yes same ↦ same
        | no ne ↦ absurd (
            get_or-ne_of_count table (pos / p.block_size) (pos' / p.block_size) (index-lt pos hp)
              (index-lt pos' hp') ne once (sym eb))
      ]

  -- The new tokens stand from position `start` on.
  pub write_blocks_new :
      (h i d : ℕ)
      → h < p.n_kv_heads
      → i < t
      → d < p.head_dim
      → cell nought
          (write_blocks nought table start t layer new p)
          layer
          (slot p table h (start + i) + d)
        ≡ read nought new h i d
  unfolding write_blocks body
  write_blocks_new h i d hh hi hd =
      for3-hit (IsStore layers (room_of p)) body keeps t p.n_kv_heads p.head_dim
        (λ q. cell nought q layer (slot p table h (start + i) + d)) i h d _ p hi hh hd
        (λ q v.
          cell-store_self nought layers (room_of p) q layer _ _ v in_layers
            (place-lt (start + i) h d (omega arith) hh hd))
        (λ i' h' d' q hi' hh' hd' ne v.
          cell-store_ne nought layers (room_of p) q layer _ layer _ _ v in_layers λ e.
            let (ep, eh, ed) =
              slot_inj (start + i') h' d' (start + i) h d (omega arith) (omega arith) (omega arith)
                hh' hd' hh hd e.1 in
            ne (omega (arith, ep), eh, ed))
        memory
    where
      place-lt :
          (pos h d : ℕ)
          → pos < start + t
          → h < p.n_kv_heads
          → d < p.head_dim
          → slot p table h pos + d < room_of p
      place-lt pos h d hp hh hd =
          unfold slot in
          k_at-lt p (get_or table (pos / p.block_size) 0) h (pos % p.block_size) d
            (w.inside (pos / p.block_size) (index-lt pos hp)) hh (offset-lt pos) hd

  -- Earlier positions keep what they held, in every layer.
  pub write_blocks_old :
      (l h pos d : ℕ)
      → h < p.n_kv_heads
      → pos < start
      → d < p.head_dim
      → cell nought (write_blocks nought table start t layer new p) l (slot p table h pos + d)
        ≡ cell nought p l (slot p table h pos + d)
  write_blocks_old l h pos d hh hp hd = unwritten l (slot p table h pos + d) λ i h' d' hi hh' hd' e.
      let (ep, _, _) =
        slot_inj (start + i) h' d' pos h d (omega arith) (omega arith) (omega arith) hh' hd' hh hd
          e.1 in
      omega (arith, ep)

  -- So does every block that somebody else holds.
  pub write_blocks_others :
      (other b h o d : ℕ)
      → 0 < count b others
      → h < p.n_kv_heads
      → o < p.block_size
      → d < p.head_dim
      → cell nought (write_blocks nought table start t layer new p) other (k_at p b h o + d)
        ≡ cell nought p other (k_at p b h o + d)
  unfolding slot
  write_blocks_others other b h o d held hh ho hd =
      unwritten other (k_at p b h o + d) λ i h' d' hi hh' hd' e.
        let pos : ℕ = start + i in
        let index : ℕ = pos / p.block_size in
        let (eb, _, _, _) =
          k_at_inj p (get_or table index 0) h' (pos % p.block_size) d' b h o d hh' (offset-lt pos)
            hd' hh ho hd e.1 in
        omega (
          arith,
          w.exclusive index (div_mono p.block_size start pos (omega arith))
              (index-lt pos (omega arith)),
          count-append (get_or table index 0) table others,
          count-get_or table index 0 (index-lt pos (omega arith)),
          ap (λ a. count a others) eb,
        )
