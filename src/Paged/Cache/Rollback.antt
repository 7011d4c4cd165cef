-- ===== src/Paged/Cache/Rollback.antt =====
-- cpp/src/paged.cpp, PagedKVCache::truncate and share_prefix.
use mathlib.Core.List.{append-nil}
use nanoinfer.Prelude.{
  ℕ, ◌+◌, ◌-◌, ◌*◌, ◌≤◌, ◌<◌, ◌≡◌, refl, ap, subst, ◌≢◌, ◌⊎◌, inl, inr, Bool, true, false, not,
  List, [], ◌∷◌, ◌++◌, arith, length, take, drop, replicate-zero, count, count-append, count-cons,
  ==_refl, length-take, take-append-drop, ltb, ◌==◌, Bool-cases, Result, ok, throw,
  invalid_argument, continue, lift, min, is_negative, ◌||◌,
}
use nanoinfer.Prelude.Arith.{ceil_covers, ceil-le}
use nanoinfer.Paged.Pool.{BlockPool}
use nanoinfer.Paged.Pool.Accounting.{Accounts, store_of}
use nanoinfer.Paged.Cache.{
  Session, free_all, incref_all, truncate, resize, share_prefix, with_pool, blocks_for, is_empty,
}
use nanoinfer.Paged.Cache.Accounting.{
  Accounts-recount, FreedAll, free_all-Accounts, IncrefedAll, incref_all-Accounts,
}
use nanoinfer.Paged.Cache.References.{IsBacked}

resize_shorter : (n : ℕ) (xs : List ℕ) → n ≤ length xs → resize n xs ≡ take n xs
unfolding resize
resize_shorter n xs h =
    let e : n - length xs ≡ 0 = omega arith in rw (e, replicate-zero) (append-nil (take n xs))

count_rotate :
    (a n : ℕ) (xs ys : List ℕ) → count a (xs ++ ys) ≡ count a (drop n xs ++ (take n xs ++ ys))
count_rotate a n xs ys = omega (
  arith,
  ap (count a) (take-append-drop n xs),
  count-append a (take n xs) (drop n xs),
  count-append a xs ys,
  count-append a (drop n xs) (take n xs ++ ys),
  count-append a (take n xs) ys,
)

fresh_table : (xs : List ℕ) (b : Bool) → (not (is_empty xs) || b) ≡ false → xs ≡ []
fresh_table [] b h = refl
fresh_table (x ∷ xs) b h = cc

count_head : (a : ℕ) (xs : List ℕ) → count a (a ∷ xs) ≡ 1 + count a xs
count_head a xs = ground (arith, count-cons a a xs)

is_fresh : (xs : List ℕ) (n : ℕ) → xs ≡ [] → n ≡ 0 → (not (is_empty xs) || not (n == 0)) ≡ false
is_fresh [] n e h = ground arith
is_fresh (x ∷ xs) n e h = cc

min_left : (a b : ℕ) → a ≤ b → min a b ≡ a
min_left a b h = omega arith

module _ {F : Type 0} (others : List ℕ) where
  -- On either outcome of `truncate n`.
  abbrev pub Truncated : ℕ → Session F → Result (Unit {0}) × Session F → Type 0
  Truncated n s (ok _, t) =
      IsBacked others t
      × (n ≤ s.cache.filled)
      × (t.cache.filled ≡ n)
      × (t.cache.block_table ≡ take (blocks_for s.pool.block_size n) s.cache.block_table)
      × (store_of t.pool ≡ store_of s.pool)
  Truncated n s (throw e, t) =
      (t ≡ s) × (e ≡ invalid_argument) × ((is_negative n || ltb s.cache.filled n) ≡ true)

  truncate_of_freed :
      (n : ℕ) (s : Session F) (r : Result (Unit {0}) × BlockPool F)
      → let keep = blocks_for s.pool.block_size n in
        0 < s.pool.block_size
        → s.cache.filled ≤ length s.cache.block_table * s.pool.block_size
        → n ≤ s.cache.filled
        → FreedAll s.pool (take keep s.cache.block_table ++ others) r
        → Truncated n s (
            continue (lift (with_pool s) r) λ _ t. (
              ok tt,
              record t {
                cache = record (t.cache) {
                  block_table = resize keep t.cache.block_table;
                  filled = n;
                };
              },
            ))
  truncate_of_freed n s (ok _, q) pos cov h (v, same) =
      let keep = blocks_for s.pool.block_size n in
      let table = s.cache.block_table in
      let short : keep ≤ length table =
        ceil-le s.pool.block_size n (length table) pos (omega arith) in
      let kept = resize_shorter keep table short in
      let size : q.block_size ≡ s.pool.block_size = ap (λ (p : BlockPool F). p.block_size) same in
      (
        record {
          accounts = rw kept v;
          covered =
              rw (kept, size, length-take keep table, min_left keep (length table) short)
                (ceil_covers s.pool.block_size n pos);
        },
        h,
        refl,
        kept,
        same,
      )
  truncate_of_freed n s (throw _, q) pos cov h f = absurd f

  -- `truncate` within the filled length frees the blocks past ceil(length / block_size) and never
  -- fails; any other length is refused and changes nothing.
  pub truncate-Truncated :
      (n : ℕ) (s : Session F)
      → 0 < s.pool.block_size
      → IsBacked others s
      → Truncated n s (truncate n s)
  unfolding truncate
  truncate-Truncated n s pos v = elim (Bool-cases (is_negative n || ltb s.cache.filled n)) [
    | inl bad ↦ simp bad (refl, refl, refl)
    | inr good ↦ simp good (
        truncate_of_freed n s (free_all (drop keep table) s.pool) pos v.covered (ground arith) (
          free_all-Accounts (drop keep table) (take keep table ++ others) s.pool (
            Accounts-recount (table ++ others) (drop keep table ++ (take keep table ++ others))
              (λ a. count_rotate a keep table others) v.accounts)))
  ]
    where
      table : List ℕ
      table = s.cache.block_table

      keep : ℕ
      keep = blocks_for s.pool.block_size n

  -- The sequence is in use, or the length is not that of the blocks.
  abbrev pub refused : List ℕ → ℕ → Session F → Bool
  refused blocks n s =
      (not (is_empty s.cache.block_table) || not (s.cache.filled == 0))
      || not (n == length blocks * s.pool.block_size)

  -- On either outcome of `share_prefix blocks n`.
  abbrev pub Shared : List ℕ → ℕ → Session F → Result (Unit {0}) × Session F → Type 0
  Shared blocks n s (ok _, t) =
      IsBacked others t
      × (t.cache.block_table ≡ blocks)
      × (t.cache.filled ≡ n)
      × (n ≡ length blocks * s.pool.block_size)
      × ((b : ℕ) → 0 < count b blocks → 0 < count b others)
      × (store_of t.pool ≡ store_of s.pool)
  Shared blocks n s (throw e, t) =
      ((t ≡ s) × (refused blocks n s ≡ true))
      ⊎ ((b : ℕ) × (rest : List ℕ) × (done : List ℕ) × (blocks ≡ done ++ b ∷ rest)
          × (count b others ≡ 0)
          × Accounts t.pool (done ++ others)
          × (t.cache.block_table ≡ blocks))

  abbrev seeded : List ℕ → Session F → Session F
  seeded blocks s = record s { cache = record (s.cache) { block_table = blocks } }

  share_of_increfed :
      (blocks : List ℕ) (n : ℕ) (s : Session F) (r : Result (Unit {0}) × BlockPool F)
      → n ≡ length blocks * s.pool.block_size
      → IncrefedAll s.pool blocks others r
      → Shared blocks n s (
          continue
            (lift (with_pool (seeded blocks s)) r)
            λ _ t. (ok tt, record t { cache = record (t.cache) { filled = n } }))
  share_of_increfed blocks n s (ok _, q) e (v, same, known) =
      let size : q.block_size ≡ s.pool.block_size = ap (λ (p : BlockPool F). p.block_size) same in
      (record { accounts = v; covered = rw (size, e) (omega arith) }, refl, refl, e, known, same)
  share_of_increfed blocks n s (throw _, q) e (b, rest, done, split, unheld, v) =
      inr (b, rest, done, split, unheld, v, refl)

  -- `share_prefix` holds every block of the prefix once more, or it throws: it refuses a used sequence
  -- or a length off the block boundary with no change, and else there is a block that nobody holds.
  pub share_prefix-Shared :
      (blocks : List ℕ) (n : ℕ) (s : Session F)
      → IsBacked others s
      → Shared blocks n s (share_prefix blocks n s)
  unfolding share_prefix
  share_prefix-Shared blocks n s v =
      elim (Bool-cases (not (is_empty s.cache.block_table) || not (s.cache.filled == 0))) [
        | inl used ↦ simp used (inl (refl, refl))
        | inr fresh ↦ elim (Bool-cases (not (n == length blocks * s.pool.block_size))) [
          | inl ragged ↦ simp (fresh, ragged) (inl (refl, refl))
          | inr whole ↦
              simp (fresh, whole)
                (share_of_increfed blocks n s (incref_all blocks s.pool) (ground arith) (
                  incref_all-Accounts blocks others s.pool (
                    subst (λ xs. Accounts s.pool (xs ++ others))
                      (fresh_table s.cache.block_table _ fresh) v.accounts)))
        ]
      ]

  -- The method throws, and the table lists blocks that the sequence does not hold.
  abbrev pub IsDangling : Result (Unit {0}) × Session F → Type 0
  IsDangling (r, t) = (r ≢ ok tt) × ¬ Accounts t.pool (t.cache.block_table ++ others)

  IsDangling-of_increfed :
      (blocks : List ℕ) (n b : ℕ) (s : Session F) (r : Result (Unit {0}) × BlockPool F)
      → IncrefedAll s.pool blocks others r
      → 0 < count b blocks
      → count b others ≡ 0
      → IsDangling (
          continue
            (lift (with_pool (seeded blocks s)) r)
            λ _ t. (ok tt, record t { cache = record (t.cache) { filled = n } }))
  IsDangling-of_increfed blocks n b s (ok _, q) (v, same, known) wanted unheld =
      absurd (omega (arith, known b wanted))
  IsDangling-of_increfed blocks n b s (throw _, q) (c, rest, done, split, _, v) wanted unheld = (
    λ e. cc,
    λ w. omega (
      arith,
      v.accounted c,
      w.accounted c,
      ap (count c) split,
      count-append c blocks others,
      count-append c done others,
      count-append c done (c ∷ rest),
      count_head c rest,
    ),
  )

  -- A prefix with a block that nobody holds makes the `share_prefix` of a fresh sequence throw, and
  -- leaves the sequence with a block table that it does not hold.
  pub share_prefix_unheld :
      (blocks : List ℕ) (b : ℕ) (s : Session F)
      → IsBacked others s
      → s.cache.block_table ≡ []
      → s.cache.filled ≡ 0
      → 0 < count b blocks
      → count b others ≡ 0
      → IsDangling (share_prefix blocks (length blocks * s.pool.block_size) s)
  unfolding share_prefix
  share_prefix_unheld blocks b s v empty start wanted unheld =
      simp
        (
          is_fresh s.cache.block_table s.cache.filled empty start,
          ==_refl (length blocks * s.pool.block_size),
        )
        (IsDangling-of_increfed blocks (length blocks * s.pool.block_size) b s
          (incref_all blocks s.pool)
          (incref_all-Accounts blocks others s.pool
            (subst (λ xs. Accounts s.pool (xs ++ others)) empty v.accounts))
          wanted unheld)
