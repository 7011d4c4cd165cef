-- ===== src/Paged/Pool/Accounting.antt =====
-- cpp/src/paged.cpp, class BlockPool: reference counts against the references that are held.
use nanoinfer.Prelude.{
  ℕ, zero, suc, ◌+◌, ◌-◌, ◌^◌, ◌≤◌, ◌<◌, ◌≡◌, refl, ap, sym, Bool, true, false, ◌∙◌, inl, inr, ◌&&◌,
  List, [], ◌∷◌, arith, length, get_or, set, count, count-cons, count-nil, length-set, erase,
  count-erase, Bool-cases, ◌||◌, leb, is_negative, get_or-set, get_or-above, length-replicate,
  get_or-replicate, ltb, ◌==◌, if◌then◌else◌, Result, ok, throw, runtime_error, invalid_argument,
}
use nanoinfer.Paged.Pool.{
  BlockPool, ill_sized, make_pool, push_ids, allocate, pop_free, holders, incref, free, free_blocks,
  used_blocks,
}

-- The pool less its accounts: dimensions and stored keys and values.
abbrev pub store_of : {F : Type 0} → BlockPool F → BlockPool F
store_of p = record p { free_list = []; refcount = [] }

-- `held` lists every reference to a block that somebody holds, once for each.
pub record Accounts {F : Type 0} (p : BlockPool F) (held : List ℕ) : Type 0 where
  pub addressable : p.num_blocks ≤ 2 ^ 63
  pub sized : length p.refcount ≡ p.num_blocks
  pub accounted : (b : ℕ) → holders p b ≡ count b held
  pub recycled :
      (b : ℕ) → count b p.free_list ≡ (if ltb b p.num_blocks && holders p b == 0 then 1 else 0)

count-push_ids :
    (a n : ℕ) (ids : List ℕ) → count a (push_ids n ids) ≡ (if ltb a n then 1 else 0) + count a ids
unfolding push_ids
count-push_ids a zero ids = ground arith
count-push_ids a (suc n) ids = ground (arith, count-push_ids a n (n ∷ ids), count-cons a n ids)

length-push_ids : (n : ℕ) (ids : List ℕ) → length (push_ids n ids) ≡ n + length ids
unfolding push_ids
length-push_ids zero ids = omega arith
length-push_ids (suc n) ids = omega (arith, length-push_ids n (n ∷ ids))

module _ {F : Type 0} where
  pub held-lt :
      {p : BlockPool F} {held : List ℕ}
      → Accounts p held
      → (b : ℕ) → 0 < count b held
      → b < p.num_blocks
  held-lt {p} {held} v b h = ground (arith, v.sized, v.accounted b, get_or-above p.refcount b 0)

  inside :
      (b : ℕ) (p : BlockPool F) → (is_negative b || leb p.num_blocks b) ≡ false → b < p.num_blocks
  inside b p h = ground arith

  outside :
      {p : BlockPool F} {held : List ℕ} (b : ℕ)
      → Accounts p held
      → (is_negative b || leb p.num_blocks b) ≡ true
      → count b held ≡ 0
  outside {p} b v h =
      ground (arith, v.addressable, v.sized, v.accounted b, get_or-above p.refcount b 0)

  -- What `allocate` does on either branch.
  abbrev pub Allocated : BlockPool F → List ℕ → Result ℕ × BlockPool F → Type 0
  Allocated p held (ok b, q) =
      Accounts q (b ∷ held)
      × (count b held ≡ 0)
      × (b < p.num_blocks)
      × (length q.free_list + 1 ≡ length p.free_list)
      × (store_of q ≡ store_of p)
  Allocated p held (throw e, q) = (e ≡ runtime_error) × (q ≡ p) × (p.free_list ≡ [])

  -- The block on top of the free list is free, and stands there once.
  head_free :
      {p : BlockPool F} {held : List ℕ} (b : ℕ) (rest : List ℕ)
      → Accounts p held
      → p.free_list ≡ b ∷ rest
      → (b < p.num_blocks) × (holders p b ≡ 0) × (count b rest ≡ 0)
  head_free b rest v e = ground (arith, v.recycled b, ap (count b) e, count-cons b b rest)

  -- The accounts after a write to the reference count of `b`.
  write_count :
      {p : BlockPool F} {held : List ℕ} (b n : ℕ)
      → Accounts p held
      → b < p.num_blocks
      → (a : ℕ) → get_or (set p.refcount b n) a 0 ≡ (if b == a then n else holders p a)
  write_count {p} b n v h a = get_or-set p.refcount b a n 0 (rw v.sized h)

  pop_free-Accounts :
      (p : BlockPool F) (held fl : List ℕ)
      → p.free_list ≡ fl
      → Accounts p held
      → Allocated p held (pop_free fl p)
  unfolding pop_free
  pop_free-Accounts p held [] e v = (refl, refl, e)
  pop_free-Accounts p held (b ∷ rest) e v =
      let (small, unheld, once) = head_free b rest v e in
      (
        record {
          addressable = v.addressable;
          sized = length-set p.refcount b 1 ∙ v.sized;
          accounted = λ a.
              ground (
                arith,
                v.accounted a,
                v.accounted b,
                write_count b 1 v small a,
                count-cons a b held,
              );
          recycled = λ a.
              ground (
                arith,
                v.recycled a,
                write_count b 1 v small a,
                ap (count a) e,
                count-cons a b rest,
              );
        },
        omega (arith, v.accounted b),
        small,
        omega (arith, ap length e),
        refl,
      )

  -- `allocate` hands out a block that nobody holds, or throws on an empty free list.
  pub allocate-Accounts :
      (p : BlockPool F) (held : List ℕ) → Accounts p held → Allocated p held (allocate p)
  unfolding allocate
  allocate-Accounts p held v = pop_free-Accounts p held p.free_list refl v

  -- What `incref` does on each branch.
  abbrev pub Increfed : ℕ → BlockPool F → List ℕ → Result (Unit {0}) × BlockPool F → Type 0
  Increfed b p held (ok _, q) =
      Accounts q (b ∷ held)
      × (0 < count b held)
      × (q.free_list ≡ p.free_list)
      × (store_of q ≡ store_of p)
  Increfed b p held (throw e, q) = (q ≡ p) × (count b held ≡ 0)

  -- `incref` adds one holder to a block that is held, and fails exactly for a block that nobody holds.
  pub incref-Accounts :
      (b : ℕ) (p : BlockPool F) (held : List ℕ) → Accounts p held → Increfed b p held (incref b p)
  unfolding incref
  incref-Accounts b p held v = elim (Bool-cases (is_negative b || leb p.num_blocks b)) [
    | inl bad ↦ rw bad (refl, outside b v bad)
    | inr good ↦ elim (Bool-cases (holders p b == 0)) [
      | inl z ↦ rw (good, z) (refl, ground (arith, v.accounted b))
      | inr nz ↦
          rw (good, nz)
            (
              record {
                addressable = v.addressable;
                sized = length-set p.refcount b _ ∙ v.sized;
                accounted = λ a. ground (
                  arith,
                  v.accounted a,
                  write_count b (holders p b + 1) v (inside b p good) a,
                  count-cons a b held,
                );
                recycled = λ a.
                    ground
                      (arith, v.recycled a, write_count b (holders p b + 1) v (inside b p good) a);
              },
              ground (arith, v.accounted b),
              refl,
              refl,
            )
    ]
  ]

  -- What `free` does on each branch.
  abbrev pub Freed : ℕ → BlockPool F → List ℕ → Result (Unit {0}) × BlockPool F → Type 0
  Freed b p held (ok _, q) =
      Accounts q (erase b held)
      × (0 < count b held)
      × (length q.free_list ≡ length p.free_list + (if count b held == 1 then 1 else 0))
      × (store_of q ≡ store_of p)
  Freed b p held (throw e, q) = (q ≡ p) × (count b held ≡ 0)

  -- `free` drops one holder of a block, recycles it when none is left, and fails exactly for a block that
  -- nobody holds.
  pub free-Accounts :
      (b : ℕ) (p : BlockPool F) (held : List ℕ) → Accounts p held → Freed b p held (free b p)
  unfolding free
  free-Accounts b p held v = elim (Bool-cases (is_negative b || leb p.num_blocks b)) [
    | inl bad ↦ rw bad (refl, outside b v bad)
    | inr good ↦ elim (Bool-cases (holders p b == 0)) [
      | inl z ↦ rw (good, z) (refl, ground (arith, v.accounted b))
      | inr nz ↦
          rw (good, nz)
            (
              record {
                addressable = v.addressable;
                sized = length-set p.refcount b _ ∙ v.sized;
                accounted = λ a. ground (
                  arith,
                  v.accounted a,
                  write_count b (holders p b - 1) v (inside b p good) a,
                  count-erase a b held,
                );
                recycled = λ a. ground (
                  arith,
                  v.recycled a,
                  write_count b (holders p b - 1) v (inside b p good) a,
                  count-cons a b p.free_list,
                );
              },
              ground (arith, v.accounted b),
              ground (arith, v.accounted b),
              refl,
            )
    ]
  ]

  -- What the constructor does: it throws exactly when a dimension is not positive.
  abbrev pub Made : Bool → ℕ → Result (BlockPool F) → Type 0
  Made bad n (ok p) =
      (bad ≡ false) × Accounts p [] × (p.num_blocks ≡ n) × (free_blocks p ≡ n) × (used_blocks p ≡ 0)
  Made bad n (throw e) = (bad ≡ true) × (e ≡ invalid_argument)

  -- The constructor makes a pool whose blocks are all free and that nobody holds, or throws exactly when
  -- a dimension is not positive.
  pub make_pool-Accounts :
      (nought : F) (num_layers n_kv_heads head_dim block_size num_blocks : ℕ)
      → Made
          (ill_sized num_layers n_kv_heads head_dim block_size num_blocks)
          num_blocks
          (make_pool nought num_layers n_kv_heads head_dim block_size num_blocks)
  unfolding make_pool used_blocks free_blocks
  make_pool-Accounts nought l h d s n = elim (Bool-cases (ill_sized l h d s n)) [
    | inl bad ↦ rw bad (refl, refl)
    | inr good ↦ rw good (
      refl,
      record {
        addressable = ground arith;
        sized = length-replicate {A = ℕ} n 0;
        accounted = λ b. get_or-replicate {A = ℕ} n b 0 ∙ sym (count-nil b);
        recycled =
            λ b. ground (arith, count-push_ids b n [], count-nil b, get_or-replicate {A = ℕ} n b 0);
      },
      refl,
      length-push_ids n [] ∙ omega arith,
      omega (arith, length-push_ids n []),
    )
  ]
