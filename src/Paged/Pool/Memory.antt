-- ===== src/Paged/Pool/Memory.antt =====
-- cpp/src/paged.hpp and paged.cpp, class BlockPool: the stored keys and values, and where `k_at` and
-- `v_at` point.
use nanoinfer.Prelude.{
  ℕ, ◌+◌, ◌*◌, ◌<◌, ◌≡◌, sym, ap, ap₂, subst, ◌∙◌, List, [], length, get_or, set, length-set,
  get_or-set_self, get_or-set_ne, ℕ_discrete,
}
use nanoinfer.Prelude.Arith.{row_bound, row_inj}
use nanoinfer.Paged.Pool.{BlockPool, k_at}

module _ {F : Type 0} (nought : F) where
  -- The key and the value at a position of a layer's buffers.
  abbrev pub cell : BlockPool F → ℕ → ℕ → F × F
  cell p layer at = (get_or (get_or p.k layer []) at nought, get_or (get_or p.v layer []) at nought)

module _ {F : Type 0} where
  -- `kp[d] = x; vp[d] = y`
  abbrev pub store : BlockPool F → ℕ → ℕ → F × F → BlockPool F
  store p layer at x = record p {
    k = set p.k layer (set (get_or p.k layer []) at (x.0));
    v = set p.v layer (set (get_or p.v layer []) at (x.1));
  }

  -- Every layer has its buffers, with room for all blocks.
  pub record IsStore (layers room : ℕ) (p : BlockPool F) : Type 0 where
    pub keys : length p.k ≡ layers
    pub values : length p.v ≡ layers
    pub key_room : (l : ℕ) → l < layers → length (get_or p.k l []) ≡ room
    pub value_room : (l : ℕ) → l < layers → length (get_or p.v l []) ≡ room

  abbrev pub room_of : BlockPool F → ℕ
  room_of p = p.num_blocks * p.n_kv_heads * p.block_size * p.head_dim

  -- A position within the dimensions points into the buffer.
  pub k_at-lt :
      (p : BlockPool F) (b h o d : ℕ)
      → b < p.num_blocks
      → h < p.n_kv_heads
      → o < p.block_size
      → d < p.head_dim
      → k_at p b h o + d < room_of p
  unfolding k_at
  k_at-lt p b h o d hb hh ho hd =
      row_bound p.head_dim (p.num_blocks * p.n_kv_heads * p.block_size) _ d
        (row_bound p.block_size (p.num_blocks * p.n_kv_heads) _ o
          (row_bound p.n_kv_heads p.num_blocks b h hb hh) ho)
        hd

  -- Different positions point to different places.
  pub k_at_inj :
      (p : BlockPool F) (b h o d b' h' o' d' : ℕ)
      → h < p.n_kv_heads
      → o < p.block_size
      → d < p.head_dim
      → h' < p.n_kv_heads
      → o' < p.block_size
      → d' < p.head_dim
      → k_at p b h o + d ≡ k_at p b' h' o' + d'
      → (b ≡ b') × (h ≡ h') × (o ≡ o') × (d ≡ d')
  unfolding k_at
  k_at_inj p b h o d b' h' o' d' hh ho hd hh' ho' hd' e =
      let (e1, ed) = row_inj p.head_dim _ d _ d' hd hd' e in
      let (e2, eo) = row_inj p.block_size _ o _ o' ho ho' e1 in
      let (eb, eh) = row_inj p.n_kv_heads b h b' h' hh hh' e2 in (eb, eh, eo, ed)

  set_rows-room :
      (xs : List (List F)) (layer at room layers : ℕ) (x : F)
      → length xs ≡ layers
      → ((l : ℕ) → l < layers → length (get_or xs l []) ≡ room)
      → (l : ℕ) → l < layers
      → length (get_or (set xs layer (set (get_or xs layer []) at x)) l []) ≡ room
  set_rows-room xs layer at room layers x e h l hl = elim (ℕ_discrete layer l) [
    | yes same ↦
        subst (λ i. length (get_or (set xs layer (set (get_or xs layer []) at x)) i []) ≡ room) same
          (ap length (
              get_or-set_self xs layer (set (get_or xs layer []) at x) []
                (subst (λ i. i < length xs) (sym same) (rw e hl)))
            ∙ length-set (get_or xs layer []) at x
            ∙ h layer (subst (λ i. i < layers) (sym same) hl))
    | no ne ↦ ap length (get_or-set_ne xs layer l (set (get_or xs layer []) at x) [] ne) ∙ h l hl
  ]

  pub store-IsStore :
      (layers room : ℕ) (p : BlockPool F) (layer at : ℕ) (x : F × F)
      → IsStore layers room p
      → IsStore layers room (store p layer at x)
  store-IsStore layers room p layer at x v = record {
    keys = length-set p.k layer _ ∙ v.keys;
    values = length-set p.v layer _ ∙ v.values;
    key_room = set_rows-room p.k layer at room layers (x.0) v.keys v.key_room;
    value_room = set_rows-room p.v layer at room layers (x.1) v.values v.value_room;
  }

module _ {F : Type 0} (nought : F) where
  row_self :
      (xs : List (List F)) (layer at : ℕ) (x : F)
      → layer < length xs
      → at < length (get_or xs layer [])
      → get_or (get_or (set xs layer (set (get_or xs layer []) at x)) layer []) at nought ≡ x
  row_self xs layer at x h k =
      ap (λ (r : List F). get_or r at nought)
        (get_or-set_self xs layer (set (get_or xs layer []) at x) [] h)
      ∙ get_or-set_self (get_or xs layer []) at x nought k

  row_ne :
      (xs : List (List F)) (layer at other to : ℕ) (x : F)
      → layer < length xs
      → ¬ ((layer ≡ other) × (at ≡ to))
      → get_or (get_or (set xs layer (set (get_or xs layer []) at x)) other []) to nought
        ≡ get_or (get_or xs other []) to nought
  row_ne xs layer at other to x h ne = elim (ℕ_discrete layer other) [
    | yes e ↦
        subst
          (λ l.
            get_or (get_or (set xs layer (set (get_or xs layer []) at x)) l []) to nought
            ≡ get_or (get_or xs l []) to nought)
          e
          (ap (λ (r : List F). get_or r to nought)
              (get_or-set_self xs layer (set (get_or xs layer []) at x) [] h)
            ∙ get_or-set_ne (get_or xs layer []) at to x nought (λ k. ne (e, k)))
    | no other_layer ↦
        ap (λ (r : List F). get_or r to nought)
          (get_or-set_ne xs layer other (set (get_or xs layer []) at x) [] other_layer)
  ]

  pub cell-store_self :
      (layers room : ℕ) (p : BlockPool F) (layer at : ℕ) (x : F × F)
      → IsStore layers room p
      → layer < layers
      → at < room
      → cell nought (store p layer at x) layer at ≡ x
  cell-store_self layers room p layer at x v h k =
      ap₂ (λ (y z : F). let q : F × F = (y, z) in q)
        (row_self p.k layer at (x.0) (rw v.keys h) (rw (v.key_room layer h) k))
        (row_self p.v layer at (x.1) (rw v.values h) (rw (v.value_room layer h) k))

  pub cell-store_ne :
      (layers room : ℕ) (p : BlockPool F) (layer at other to : ℕ) (x : F × F)
      → IsStore layers room p
      → layer < layers
      → ¬ ((layer ≡ other) × (at ≡ to))
      → cell nought (store p layer at x) other to ≡ cell nought p other to
  cell-store_ne layers room p layer at other to x v h ne =
      ap₂ (λ (y z : F). let q : F × F = (y, z) in q)
        (row_ne p.k layer at other to (x.0) (rw v.keys h) ne)
        (row_ne p.v layer at other to (x.1) (rw v.values h) ne)
