-- ===== src/KvCache/Contract.antt =====
-- cpp/src/cache.cpp, class KVCache: what each method promises, on every branch.
use nanoinfer.Prelude.{
  ℕ, ◌^◌, ◌+◌, ◌≤◌, ◌<◌, ◌≡◌, ◌≢◌, refl, sym, ap, ap₂, subst, ◌∙◌, ◌⊎◌, inl, inr, true, false, ◌||◌,
  arith, length, length-set, get_or-set_self, get_or-set_ne, ltb, leb, is_negative, Bool-cases,
  Result, ok, throw, out_of_range, runtime_error, invalid_argument, ℕ_discrete,
}
use native.Mathlib.Nat.{le_trans}
use nanoinfer.Tensor.{Tensor, size}
use nanoinfer.KvCache.{
  KvCache, absent, layer_planes, store_layer, write_tokens, read_back, update, truncate,
}
use nanoinfer.KvCache.Buffers.{Planes, read, ArePlanes}
use nanoinfer.KvCache.Update.{
  IsCache, entry, write_tokens-ArePlanes, write_tokens_new, write_tokens_old, read_back-ArePlanes,
  read-read_back,
}

present :
    (layer layers : ℕ)
    → layer < layers
    → layer < 2 ^ 63
    → (is_negative layer || leb layers layer) ≡ false
present layer layers h small = ground arith

fits : (a b : ℕ) → b ≤ a → ltb a b ≡ false
fits a b h = ground arith

within : (n filled : ℕ) → (is_negative n || ltb filled n) ≡ false → n ≤ filled
within n filled h = ground arith

module _ {F : Type 0} (nought : F) where
  layer-store_self :
      (c : KvCache F) (layer : ℕ) (p : Planes F)
      → length c.v ≡ length c.k
      → layer < length c.k
      → layer_planes nought (store_layer nought c layer p) layer ≡ p
  layer-store_self c layer p e h =
      ap₂ (λ (y z : Tensor F). let q : Planes F = (y, z) in q)
        (get_or-set_self c.k layer (p.0) (absent nought) h)
        (get_or-set_self c.v layer (p.1) (absent nought) (rw e h))

  layer-store_ne :
      (c : KvCache F) (layer other : ℕ) (p : Planes F)
      → layer ≢ other
      → layer_planes nought (store_layer nought c layer p) other ≡ layer_planes nought c other
  layer-store_ne c layer other p ne =
      ap₂ (λ (y z : Tensor F). let q : Planes F = (y, z) in q)
        (get_or-set_ne c.k layer other (p.0) (absent nought) ne)
        (get_or-set_ne c.v layer other (p.1) (absent nought) ne)

  store_layer-IsCache :
      (c : KvCache F) (layer : ℕ) (p : Planes F)
      → IsCache nought c
      → ArePlanes c.n_kv_heads c.max_seq c.head_dim p
      → IsCache nought (store_layer nought c layer p)
  store_layer-IsCache c layer p v w = record {
    values = length-set c.v layer (p.1) ∙ v.values ∙ sym (length-set c.k layer (p.0));
    bounded = v.bounded;
    planes = λ l h.
        let h' : l < length c.k = omega (arith, length-set c.k layer (p.0)) in
        elim (ℕ_discrete layer l) [
          | yes e ↦
              subst (ArePlanes c.n_kv_heads c.max_seq c.head_dim)
                (sym (
                  ap (layer_planes nought (store_layer nought c layer p)) (sym e)
                  ∙ layer-store_self c layer p v.values (subst (λ i. i < length c.k) (sym e) h')))
                w
          | no ne ↦
              subst (ArePlanes c.n_kv_heads c.max_seq c.head_dim)
                (sym (layer-store_ne c layer l p ne)) (v.planes l h')
        ];
  }

  -- After a successful `update` of a layer with `t` new tokens.
  pub record IsUpdated (layer t : ℕ) (new : Planes F) (c c' : KvCache F) (out : Planes F)
      : Type 0 where
    pub valid : IsCache nought c'
    pub room : c.filled + t ≤ c.max_seq
    pub same_filled : c'.filled ≡ c.filled
    pub same_heads : c'.n_kv_heads ≡ c.n_kv_heads
    pub same_dim : c'.head_dim ≡ c.head_dim
    pub same_capacity : c'.max_seq ≡ c.max_seq
    pub same_layers : length c'.k ≡ length c.k
    pub stored :
        (h i d : ℕ)
        → h < c.n_kv_heads
        → i < t
        → d < c.head_dim
        → entry nought c' layer h (c.filled + i) d ≡ read nought new h i d
    pub kept :
        (h s d : ℕ)
        → s < c.filled
        → d < c.head_dim
        → entry nought c' layer h s d ≡ entry nought c layer h s d
    pub others : (l : ℕ) → layer ≢ l → layer_planes nought c' l ≡ layer_planes nought c l
    pub shaped : ArePlanes c.n_kv_heads (c.filled + t) c.head_dim out
    pub returned :
        (h s d : ℕ)
        → h < c.n_kv_heads
        → s < c.filled + t
        → d < c.head_dim
        → read nought out h s d ≡ entry nought c' layer h s d

  abbrev pub Updated : ℕ → Tensor F → Tensor F → KvCache F → Result (Planes F) × KvCache F → Type 0
  Updated layer k v c (ok out, c') =
      (layer < length c.k) × IsUpdated layer (size k 1) (k, v) c c' out
  Updated layer k v c (throw e, c') =
      (c' ≡ c)
      × (((e ≡ out_of_range) × ((is_negative layer || leb (length c.k) layer) ≡ true))
          ⊎ ((e ≡ runtime_error) × (c.max_seq < c.filled + size k 1)))

  stored_update :
      (layer t : ℕ) (new : Planes F) (c : KvCache F)
      → IsCache nought c
      → layer < length c.k
      → c.filled + t ≤ c.max_seq
      → let bufs =
          write_tokens nought c.n_kv_heads t c.head_dim c.filled new
            (layer_planes nought c layer) in
        IsUpdated layer t new c
          (store_layer nought c layer bufs)
          (read_back nought c.n_kv_heads (c.filled + t) c.head_dim bufs)
  stored_update layer t new c v h room =
      let before = layer_planes nought c layer in
      let bufs = write_tokens nought c.n_kv_heads t c.head_dim c.filled new before in
      let shape = v.planes layer h in
      let self = layer-store_self c layer bufs v.values h in
      record {
        valid = store_layer-IsCache c layer bufs v (
            write_tokens-ArePlanes nought c.n_kv_heads t c.head_dim c.filled c.max_seq new before
              shape room);
        room = room;
        same_filled = refl;
        same_heads = refl;
        same_dim = refl;
        same_capacity = refl;
        same_layers = length-set c.k layer (bufs.0);
        stored = λ x i d hx hi hd.
            ap (λ p. read nought p x (c.filled + i) d) self
            ∙ write_tokens_new nought c.n_kv_heads t c.head_dim c.filled c.max_seq new before shape
                room x i d hx hi hd;
        kept = λ x s d hs hd.
            ap (λ p. read nought p x s d) self
            ∙ write_tokens_old nought c.n_kv_heads t c.head_dim c.filled c.max_seq new before shape
                room x s d hs hd;
        others = λ l ne. layer-store_ne c layer l bufs ne;
        shaped = read_back-ArePlanes nought c.n_kv_heads (c.filled + t) c.head_dim bufs;
        returned = λ x s d hx hs hd.
            read-read_back nought c.n_kv_heads (c.filled + t) c.head_dim bufs x s d hx hs hd
            ∙ sym (ap (λ p. read nought p x s d) self);
      }

  -- `update` stores the new tokens behind the filled positions of the layer and returns the layer's
  -- whole history, or it throws and changes nothing.
  pub update-Updated :
      (layer : ℕ) (k v : Tensor F) (c : KvCache F)
      → IsCache nought c
      → Updated layer k v c (update nought layer k v c)
  unfolding update
  update-Updated layer k v c w = elim (Bool-cases (is_negative layer || leb (length c.k) layer)) [
    | inl bad ↦ simp bad (refl, inl (refl, refl))
    | inr good ↦ elim (Bool-cases (ltb c.max_seq (c.filled + size k 1))) [
      | inl full ↦ simp (good, full) (refl, inr (refl, ground arith))
      | inr fits ↦
          simp (good, fits)
            (ground arith, stored_update layer (size k 1) (k, v) c w (ground arith) (ground arith))
    ]
  ]

  -- With the layer there and room left, `update` succeeds.
  pub update_total :
      (layer : ℕ) (k v : Tensor F) (c : KvCache F)
      → IsCache nought c
      → layer < length c.k
      → layer < 2 ^ 63
      → c.filled + size k 1 ≤ c.max_seq
      → (out : Planes F) × (c' : KvCache F) × (update nought layer k v c ≡ (ok out, c'))
        × IsUpdated layer (size k 1) (k, v) c c' out
  unfolding update
  update_total layer k v c w h small room =
      let bufs =
        write_tokens nought c.n_kv_heads (size k 1) c.head_dim c.filled (k, v)
          (layer_planes nought c layer) in
      (
        read_back nought c.n_kv_heads (c.filled + size k 1) c.head_dim bufs,
        store_layer nought c layer bufs,
        simp (present layer (length c.k) h small, fits c.max_seq (c.filled + size k 1) room) refl,
        stored_update layer (size k 1) (k, v) c w h room,
      )

  -- On either outcome of `truncate n`.
  abbrev pub Shortened : ℕ → KvCache F → Result (Unit {0}) × KvCache F → Type 0
  Shortened n c (ok _, c') =
      IsCache nought c'
      × (n ≤ c.filled)
      × (c'.filled ≡ n)
      × ((layer : ℕ) → layer_planes nought c' layer ≡ layer_planes nought c layer)
  Shortened n c (throw e, c') =
      (c' ≡ c) × (e ≡ invalid_argument) × ((is_negative n || ltb c.filled n) ≡ true)

  -- `truncate` moves the filled length back and keeps every entry, or refuses a length outside
  -- [0, length] and changes nothing.
  pub truncate-Shortened : (n : ℕ) (c : KvCache F) → IsCache nought c → Shortened n c (truncate n c)
  unfolding truncate
  truncate-Shortened n c v = elim (Bool-cases (is_negative n || ltb c.filled n)) [
    | inl bad ↦ simp bad (refl, refl, refl)
    | inr good ↦ simp good (
      record {
        values = v.values;
        bounded = le_trans (within n c.filled good) v.bounded;
        planes = v.planes;
      },
      within n c.filled good,
      refl,
      λ _. refl,
    )
  ]
