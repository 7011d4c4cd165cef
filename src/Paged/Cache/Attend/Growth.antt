-- ===== src/Paged/Cache/Attend/Growth.antt =====
-- cpp/src/paged.cpp: what the new blocks of a longer table leave as it was.
use nanoinfer.Prelude.{
  ℕ, ◌+◌, ◌-◌, ◌/◌, ◌%◌, ◌≤◌, ◌<◌, ◌≡◌, sym, ap, subst, ◌∙◌, List, ◌++◌, arith, length, get_or,
  count, count-append, count-get_or, get_or-append_left, get_or-append_right, length-append,
}
use native.Mathlib.Decide.{dec_lt}
use nanoinfer.Paged.Pool.{BlockPool, k_at}
use nanoinfer.Paged.Pool.Accounting.{Accounts, store_of, held-lt}
use nanoinfer.Paged.Pool.Frames.{frame_of}
use nanoinfer.Paged.Cache.{Session}
use nanoinfer.Paged.Cache.References.{IsGrown}
use nanoinfer.Paged.Cache.Attend.{slot}

module _ {F : Type 0} (others : List ℕ) where
  -- A block of the table exists.
  pub table-lt :
      (s : Session F)
      → Accounts s.pool (s.cache.block_table ++ others)
      → (i : ℕ) → i < length s.cache.block_table
      → get_or s.cache.block_table i 0 < s.pool.num_blocks
  table-lt s v i h = held-lt v (get_or s.cache.block_table i 0) (
      omega (
        arith,
        count-append (get_or s.cache.block_table i 0) s.cache.block_table others,
        count-get_or s.cache.block_table i 0 h,
      ))

  grown-count :
      (s g : Session F) (w : IsGrown others s g) (a : ℕ)
      → count a (g.cache.block_table ++ others)
        ≡ count a (s.cache.block_table ++ others) + count a w.fresh
  grown-count s g w a = omega (
    arith,
    ap (count a) w.table,
    count-append a g.cache.block_table others,
    count-append a s.cache.block_table others,
    count-append a s.cache.block_table w.fresh,
  )

  pub grown-get_or :
      (s g : Session F) (w : IsGrown others s g) (i : ℕ)
      → i < length s.cache.block_table
      → get_or g.cache.block_table i 0 ≡ get_or s.cache.block_table i 0
  grown-get_or s g w i h =
      ap (λ xs. get_or xs i 0) w.table ∙ get_or-append_left s.cache.block_table w.fresh i 0 h

  once_of_old :
      (s g : Session F) (w : IsGrown others s g) (a : ℕ)
      → count a (s.cache.block_table ++ others) ≡ 1
      → count a (g.cache.block_table ++ others) ≡ 1
  once_of_old s g w a h = ground (arith, w.unheld a, grown-count s g w a)

  once_of_fresh :
      (s g : Session F) (w : IsGrown others s g) (a : ℕ)
      → 0 < count a w.fresh
      → count a (g.cache.block_table ++ others) ≡ 1
  once_of_fresh s g w a h = ground (arith, w.unheld a, grown-count s g w a)

  -- A block of the longer table is held once: it was before, or it is fresh.
  pub grown-exclusive :
      (s g : Session F) (from : ℕ)
      → IsGrown others s g
      → ((i : ℕ)
          → from ≤ i
          → i < length s.cache.block_table
          → count (get_or s.cache.block_table i 0) (s.cache.block_table ++ others) ≡ 1)
      → (i : ℕ) → from ≤ i
      → i < length g.cache.block_table
      → count (get_or g.cache.block_table i 0) (g.cache.block_table ++ others) ≡ 1
  grown-exclusive s g from w before i low high = elim (dec_lt i (length s.cache.block_table)) [
    | yes old ↦
        subst (λ a. count a (g.cache.block_table ++ others) ≡ 1) (sym (grown-get_or s g w i old))
          (once_of_old s g w (get_or s.cache.block_table i 0) (before i low old))
    | no new ↦
        subst (λ a. count a (g.cache.block_table ++ others) ≡ 1)
          (sym (
            ap (λ xs. get_or xs i 0) w.table
            ∙ get_or-append_right s.cache.block_table w.fresh i 0 (omega arith)))
          (once_of_fresh s g w (get_or w.fresh (i - length s.cache.block_table) 0) (
            count-get_or w.fresh (i - length s.cache.block_table) 0
              (omega (arith, ap length w.table, length-append s.cache.block_table w.fresh))))
  ]

pub slot-frame :
    {F : Type 0} (p q : BlockPool F) (table : List ℕ) (h pos : ℕ)
    → frame_of q ≡ frame_of p
    → slot q table h pos ≡ slot p table h pos
unfolding slot k_at
slot-frame {F} p q table h pos e = ap (λ (r : BlockPool F). slot r table h pos) e

pub slot-store :
    {F : Type 0} (p q : BlockPool F) (table : List ℕ) (h pos : ℕ)
    → store_of q ≡ store_of p
    → slot q table h pos ≡ slot p table h pos
unfolding slot k_at
slot-store {F} p q table h pos e = ap (λ (r : BlockPool F). slot r table h pos) e

pub slot-table :
    {F : Type 0} (p : BlockPool F) (xs ys : List ℕ) (h pos : ℕ)
    → get_or xs (pos / p.block_size) 0 ≡ get_or ys (pos / p.block_size) 0
    → slot p xs h pos ≡ slot p ys h pos
unfolding slot
slot-table p xs ys h pos e = ap (λ b. k_at p b h (pos % p.block_size)) e
