-- ===== src/Paged/Cache/Accounting.antt =====
-- cpp/src/paged.cpp, class PagedKVCache: what its methods do to the references that are held.
use nanoinfer.Prelude.{
  ℕ, ◌<◌, ◌≡◌, refl, ap, ◌∙◌, List, [], ◌∷◌, ◌++◌, arith, count, count-nil, count-cons,
  count-append, erase_head, Result, ok, throw, continue,
}
use nanoinfer.Paged.Pool.{BlockPool, free, incref}
use nanoinfer.Paged.Pool.Accounting.{
  Accounts, store_of, Freed, Increfed, free-Accounts, incref-Accounts,
}
use nanoinfer.Paged.Cache.{free_all, incref_all}

count_middle : (a b : ℕ) (xs ys : List ℕ) → count a (xs ++ b ∷ ys) ≡ count a (b ∷ xs ++ ys)
count_middle a b xs ys = omega (
  arith,
  count-append a xs (b ∷ ys),
  count-append a xs ys,
  count-cons a b ys,
  count-cons a b (xs ++ ys),
)

module _ {F : Type 0} where
  -- Only how often a block is held matters.
  pub Accounts-recount :
      {p : BlockPool F} (held held' : List ℕ)
      → ((a : ℕ) → count a held ≡ count a held')
      → Accounts p held
      → Accounts p held'
  Accounts-recount held held' same v = record {
    addressable = v.addressable;
    sized = v.sized;
    accounted = λ b. v.accounted b ∙ same b;
    recycled = v.recycled;
  }

  -- Holders of `bs ++ others` free all of `bs`: it succeeds.
  abbrev pub FreedAll : BlockPool F → List ℕ → Result (Unit {0}) × BlockPool F → Type 0
  FreedAll p others (ok _, q) = Accounts q others × (store_of q ≡ store_of p)
  FreedAll p others (throw e, q) = ⊥

  FreedAll-trans :
      (p q : BlockPool F) (others : List ℕ) (r : Result (Unit {0}) × BlockPool F)
      → store_of q ≡ store_of p
      → FreedAll q others r
      → FreedAll p others r
  FreedAll-trans p q others (ok _, t) e h = (h.0, h.1 ∙ e)
  FreedAll-trans p q others (throw _, t) e h = h

  FreedAll-continue :
      (b : ℕ) (bs others : List ℕ) (p : BlockPool F) (r : Result (Unit {0}) × BlockPool F)
      → Freed b p (b ∷ bs ++ others) r
      → ((q : BlockPool F) → Accounts q (bs ++ others) → FreedAll q others (free_all bs q))
      → FreedAll p others (continue r λ _ q. free_all bs q)
  FreedAll-continue b bs others p (ok _, q) h rest =
      FreedAll-trans p q others (free_all bs q) h.3 (rest q (rw erase_head at h.0))
  FreedAll-continue b bs others p (throw e, q) h rest =
      ground (arith, count-cons b b (bs ++ others))

  pub free_all-Accounts :
      (bs others : List ℕ) (p : BlockPool F)
      → Accounts p (bs ++ others)
      → FreedAll p others (free_all bs p)
  unfolding free_all
  free_all-Accounts [] others p v = (v, refl)
  free_all-Accounts (b ∷ bs) others p v =
      FreedAll-continue b bs others p (free b p) (free-Accounts b p _ v)
        λ q w. free_all-Accounts bs others q w

  -- Every reference increfed is one more that is held, and somebody held the block before.
  abbrev pub IncrefedAll : BlockPool F → List ℕ → List ℕ → Result (Unit {0}) × BlockPool F → Type 0
  IncrefedAll p bs held (ok _, q) =
      Accounts q (bs ++ held)
      × (store_of q ≡ store_of p)
      × ((b : ℕ) → 0 < count b bs → 0 < count b held)
  IncrefedAll p bs held (throw e, q) =
      (b : ℕ) × (rest : List ℕ) × (done : List ℕ) × (bs ≡ done ++ b ∷ rest)
      × (count b held ≡ 0)
      × Accounts q (done ++ held)

  IncrefedAll-step :
      (b : ℕ) (bs held : List ℕ) (p q : BlockPool F) (r : Result (Unit {0}) × BlockPool F)
      → store_of q ≡ store_of p
      → 0 < count b held
      → IncrefedAll q bs (b ∷ held) r
      → IncrefedAll p (b ∷ bs) held r
  IncrefedAll-step b bs held p q (ok _, t) e pos h = (
    Accounts-recount (bs ++ b ∷ held) (b ∷ bs ++ held) (λ a. count_middle a b bs held) h.0,
    h.1 ∙ e,
    λ a c. ground (arith, h.2 a, count-cons a b bs, count-cons a b held),
  )
  IncrefedAll-step b bs held p q (throw _, t) e pos (c, rest, done, split, z, w) = (
    c,
    rest,
    b ∷ done,
    ap (◌∷◌ b) split,
    ground (arith, count-cons c b held),
    Accounts-recount (done ++ b ∷ held) (b ∷ done ++ held) (λ a. count_middle a b done held) w,
  )

  IncrefedAll-continue :
      (b : ℕ) (bs held : List ℕ) (p : BlockPool F) (r : Result (Unit {0}) × BlockPool F)
      → Accounts p held
      → Increfed b p held r
      → ((q : BlockPool F) → Accounts q (b ∷ held) → IncrefedAll q bs (b ∷ held) (incref_all bs q))
      → IncrefedAll p (b ∷ bs) held (continue r λ _ q. incref_all bs q)
  IncrefedAll-continue b bs held p (ok _, q) v h rest =
      IncrefedAll-step b bs held p q (incref_all bs q) h.3 h.1 (rest q h.0)
  IncrefedAll-continue b bs held p (throw e, q) v h rest = (b, bs, [], refl, h.1, rw h.0 v)

  pub incref_all-Accounts :
      (bs held : List ℕ) (p : BlockPool F)
      → Accounts p held
      → IncrefedAll p bs held (incref_all bs p)
  unfolding incref_all
  incref_all-Accounts [] held p v = (v, refl, λ b h. ground (arith, count-nil b))
  incref_all-Accounts (b ∷ bs) held p v =
      IncrefedAll-continue b bs held p (incref b p) v (incref-Accounts b p held v)
        λ q w. incref_all-Accounts bs (b ∷ held) q w
