-- ===== src/Paged/Cache/References.antt =====
-- cpp/src/paged.cpp, class PagedKVCache: each method keeps the pool's accounts and covers the filled
-- positions by blocks.
use mathlib.Core.List.{append-nil, append_assoc}
use nanoinfer.Prelude.{
  ℕ, zero, suc, ◌+◌, ◌*◌, ◌≤◌, ◌<◌, ◌≡◌, refl, sym, ap, subst, ◌∙◌, inl, inr, true, List, [], ◌∷◌,
  ◌++◌, arith, length, count, count-cons, count-nil, count-append, length-append, ltb, Bool-cases,
  Result, ok, throw, runtime_error, continue, lift,
}
use nanoinfer.Paged.Pool.{BlockPool, allocate}
use nanoinfer.Paged.Pool.Accounting.{Accounts, store_of, Allocated, allocate-Accounts}
use nanoinfer.Paged.Cache.{Session, free_all, release, push_block, grow, ensure_capacity, with_pool}
use nanoinfer.Paged.Cache.Accounting.{Accounts-recount, FreedAll, free_all-Accounts}

-- The sequence's own references and the `others` are all that is held, and every filled position has
-- a block.
pub record IsBacked {F : Type 0} (others : List ℕ) (s : Session F) : Type 0 where
  pub accounts : Accounts s.pool (s.cache.block_table ++ others)
  pub covered : s.cache.filled ≤ length s.cache.block_table * s.pool.block_size

module _ {F : Type 0} (others : List ℕ) where
  abbrev pub Released : Result (Unit {0}) × Session F → Type 0
  Released (ok _, t) = Accounts t.pool others × (t.cache.block_table ≡ []) × (t.cache.filled ≡ 0)
  Released (throw _, t) = ⊥

  release_of_freed :
      (s : Session F) (r : Result (Unit {0}) × BlockPool F)
      → FreedAll s.pool others r
      → Released (
          continue
            (lift (with_pool s) r)
            λ _ t. (ok tt, record t { cache = record (t.cache) { block_table = []; filled = 0 } }))
  release_of_freed s (ok _, q) h = (h.0, refl, refl)
  release_of_freed s (throw _, q) h = h

  -- `release` gives back exactly the references of the sequence, and never throws.
  pub release-Released :
      (s : Session F)
      → s.cache.attached ≡ true
      → Accounts s.pool (s.cache.block_table ++ others)
      → Released (release s)
  unfolding release
  release-Released s on v = simp on (
      release_of_freed s (free_all s.cache.block_table s.pool)
        (free_all-Accounts s.cache.block_table others s.pool v))

  -- The state after a round or the whole loop: the table is longer by blocks that nobody held.
  pub record IsGrown (s t : Session F) : Type 0 where
    pub accounts : Accounts t.pool (t.cache.block_table ++ others)
    pub store : store_of t.pool ≡ store_of s.pool
    pub filled : t.cache.filled ≡ s.cache.filled
    pub attached : t.cache.attached ≡ s.cache.attached
    pub fresh : List ℕ
    pub table : t.cache.block_table ≡ s.cache.block_table ++ fresh
    pub conserved :
        length t.cache.block_table + length t.pool.free_list
        ≡ length s.cache.block_table + length s.pool.free_list
    pub unheld :
        (b : ℕ)
        → 0 < count b fresh
        → (count b fresh ≡ 1) × (count b (s.cache.block_table ++ others) ≡ 0)

  IsGrown-refl : (s : Session F) → Accounts s.pool (s.cache.block_table ++ others) → IsGrown s s
  IsGrown-refl s v = record {
    accounts = v;
    store = refl;
    filled = refl;
    attached = refl;
    fresh = [];
    table = sym (append-nil s.cache.block_table);
    conserved = refl;
    unheld = λ b h. ground (arith, count-nil b);
  }

  IsGrown-trans : (s t u : Session F) → IsGrown s t → IsGrown t u → IsGrown s u
  IsGrown-trans s t u g h = record {
    accounts = h.accounts;
    store = h.store ∙ g.store;
    filled = h.filled ∙ g.filled;
    attached = h.attached ∙ g.attached;
    fresh = g.fresh ++ h.fresh;
    table =
        h.table
        ∙ ap (λ xs. xs ++ h.fresh) g.table
        ∙ append_assoc s.cache.block_table g.fresh h.fresh;
    conserved = h.conserved ∙ g.conserved;
    unheld = λ b p. ground (
      arith,
      g.unheld b,
      h.unheld b,
      ap (count b) g.table,
      count-append b g.fresh h.fresh,
      count-append b s.cache.block_table g.fresh,
      count-append b s.cache.block_table others,
      count-append b t.cache.block_table others,
    );
  }

  abbrev Pushed : Session F → Result (Unit {0}) × Session F → Type 0
  Pushed s (ok _, t) =
      IsGrown s t
      × (length t.cache.block_table ≡ length s.cache.block_table + 1)
      × (length t.pool.free_list + 1 ≡ length s.pool.free_list)
  Pushed s (throw e, t) = (e ≡ runtime_error) × (t ≡ s) × (s.pool.free_list ≡ [])

  push_of_Allocated :
      (s : Session F) (r : Result ℕ × BlockPool F)
      → Accounts s.pool (s.cache.block_table ++ others)
      → Allocated s.pool (s.cache.block_table ++ others) r
      → Pushed s (
          continue (lift (with_pool s) r) λ b t. (
            ok tt,
            record t { cache = record (t.cache) { block_table = t.cache.block_table ++ b ∷ [] } },
          ))
  push_of_Allocated s (ok b, q) v (w, unheld, small, shorter, same) = (
    record {
      accounts =
          Accounts-recount (b ∷ s.cache.block_table ++ others)
            ((s.cache.block_table ++ b ∷ []) ++ others)
            (λ a. omega (
              arith,
              count-cons a b (s.cache.block_table ++ others),
              count-append a s.cache.block_table others,
              count-append a (s.cache.block_table ++ b ∷ []) others,
              count-append a s.cache.block_table (b ∷ []),
              count-cons a b [],
              count-nil a,
            ))
            w;
      store = same;
      filled = refl;
      attached = refl;
      fresh = b ∷ [];
      table = refl;
      conserved = omega (arith, length-append s.cache.block_table (b ∷ []), shorter);
      unheld = λ a h. ground (arith, count-cons a b [], count-nil a);
    },
    length-append s.cache.block_table (b ∷ []),
    shorter,
  )
  push_of_Allocated s (throw e, q) v (kind, same, empty) = (kind, ap (with_pool s) same, empty)

  push_block-Pushed :
      (s : Session F) → Accounts s.pool (s.cache.block_table ++ others) → Pushed s (push_block s)
  unfolding push_block
  push_block-Pushed s v = push_of_Allocated s (allocate s.pool) v (allocate-Accounts s.pool _ v)

  -- On either outcome of `ensure_capacity`.
  abbrev pub Grown : ℕ → Session F → Result (Unit {0}) × Session F → Type 0
  Grown positions s (ok _, t) =
      IsGrown s t × (positions ≤ length t.cache.block_table * t.pool.block_size)
  Grown positions s (throw e, t) =
      IsGrown s t
      × (e ≡ runtime_error)
      × (t.pool.free_list ≡ [])
      × (length t.cache.block_table * t.pool.block_size < positions)

  Grown-trans :
      (n : ℕ) (s t : Session F) (r : Result (Unit {0}) × Session F)
      → IsGrown s t
      → Grown n t r
      → Grown n s r
  Grown-trans n s t (ok _, u) g h = (IsGrown-trans s t u g h.0, h.1)
  Grown-trans n s t (throw _, u) g h = (IsGrown-trans s t u g h.0, h.1, h.2, h.3)

  grow_of_Pushed :
      (fuel n : ℕ) (s : Session F) (r : Result (Unit {0}) × Session F)
      → Pushed s r
      → Accounts s.pool (s.cache.block_table ++ others)
      → length s.cache.block_table * s.pool.block_size < n
      → length s.pool.free_list < suc fuel
      → ((t : Session F)
          → Accounts t.pool (t.cache.block_table ++ others)
          → length t.pool.free_list < fuel
          → Grown n t (grow fuel n t))
      → Grown n s (continue r λ _ t. grow fuel n t)
  grow_of_Pushed fuel n s (ok _, t) (g, _, shorter) v more h rest =
      Grown-trans n s t (grow fuel n t) g (rest t g.accounts (omega arith))
  grow_of_Pushed fuel n s (throw e, t) (kind, same, empty) v more h rest =
      subst (λ u. Grown n s (throw e, u)) (sym same) (IsGrown-refl s v, kind, empty, more)

  grow-Grown :
      (fuel n : ℕ) (s : Session F)
      → Accounts s.pool (s.cache.block_table ++ others)
      → length s.pool.free_list < fuel
      → Grown n s (grow fuel n s)
  unfolding grow
  grow-Grown zero n s v h = absurd (omega arith)
  grow-Grown (suc fuel) n s v h =
      elim (Bool-cases (ltb (length s.cache.block_table * s.pool.block_size) n)) [
        | inl more ↦
            rw (more, grow)
              (grow_of_Pushed fuel n s (push_block s) (push_block-Pushed s v) v (ground arith) h
                (λ t w b. grow-Grown fuel n t w b))
        | inr done ↦ rw (done, grow) (IsGrown-refl s v, ground arith)
      ]

  -- `ensure_capacity` ends, with enough blocks or on an empty free list.
  pub ensure_capacity-Grown :
      (n : ℕ) (s : Session F)
      → Accounts s.pool (s.cache.block_table ++ others)
      → Grown n s (ensure_capacity n s)
  unfolding ensure_capacity
  ensure_capacity-Grown n s v = grow-Grown (suc (length s.pool.free_list)) n s v (omega arith)
