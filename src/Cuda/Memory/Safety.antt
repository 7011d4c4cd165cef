-- ===== src/Cuda/Memory/Safety.antt =====
-- cpp/src/cuda/cuda_runtime.cu, DevicePool: a buffer has one owner at a time.
use nanoinfer.Prelude.{
  ℕ, zero, suc, ◌+◌, ◌<◌, ◌≤◌, ◌≡◌, ◌≢◌, refl, sym, ap, subst, ◌∙◌, List, [], ◌∷◌, ◌++◌, some, none,
  arith, count, count-cons, count-nil, count-append, ◌==◌, ℕ_discrete, if◌then◌else◌, inl, inr,
  Bool-cases, ne→==,
}
use nanoinfer.Cuda.Memory.{
  lookup, put, erase, DevicePool, or_empty, bin, take_buffer, acquire, keep_buffer, release,
  all_free, erase_all, trim,
}

lookup-put_self :
    {A : Type 0} (key : ℕ) (a : A) (xs : List (ℕ × A)) → lookup key (put key a xs) ≡ some a
unfolding lookup put
lookup-put_self key a [] = ground arith
lookup-put_self key a ((k, b) ∷ xs) = elim (Bool-cases (k == key)) [
  | inl e ↦ rw e (rw e)
  | inr e ↦ rw e (rw e (lookup-put_self key a xs))
]

lookup-put_ne :
    {A : Type 0} (key other : ℕ) (a : A) (xs : List (ℕ × A))
    → other ≢ key
    → lookup other (put key a xs) ≡ lookup other xs
unfolding lookup put
lookup-put_ne key other a [] ne = rw (ne→== key other (λ e. ne (sym e)))
lookup-put_ne key other a ((k, b) ∷ xs) ne = elim (Bool-cases (k == key)) [
  | inl e ↦ rw (e, ne→== k other (λ p. ground arith))
  | inr e ↦ rw e (ap (λ r. if k == other then some b else r) (lookup-put_ne key other a xs ne))
]

lookup-erase_ne :
    {A : Type 0} (key other : ℕ) (xs : List (ℕ × A))
    → other ≢ key
    → lookup other (erase key xs) ≡ lookup other xs
unfolding lookup erase
lookup-erase_ne key other [] ne = refl
lookup-erase_ne key other ((k, b) ∷ xs) ne = elim (Bool-cases (k == key)) [
  | inl e ↦ rw (e, ne→== k other (λ p. ground arith)) (lookup-erase_ne key other xs ne)
  | inr e ↦ rw e (ap (λ r. if k == other then some b else r) (lookup-erase_ne key other xs ne))
]

lookup-erase_all :
    (bs : List ℕ) (other : ℕ) (xs : List (ℕ × ℕ))
    → count other bs ≡ 0
    → lookup other (erase_all bs xs) ≡ lookup other xs
unfolding erase_all
lookup-erase_all [] other xs none_left = refl
lookup-erase_all (b ∷ bs) other xs none_left = elim (ℕ_discrete other b) [
  | yes e ↦ absurd (ground (arith, count-cons other b bs))
  | no ne ↦
      lookup-erase_all bs other (erase b xs) (ground (arith, count-cons other b bs))
      ∙ lookup-erase_ne b other xs ne
]

-- Replacing a free list.
count-all_free-put :
    (a key : ℕ) (bs : List ℕ) (xs : List (ℕ × List ℕ))
    → count a (all_free (put key bs xs)) + count a (or_empty (lookup key xs))
      ≡ count a (all_free xs) + count a bs
unfolding all_free put lookup
count-all_free-put a key bs [] = omega (arith, count-append a bs [], count-nil a)
count-all_free-put a key bs ((k, cs) ∷ xs) = elim (Bool-cases (k == key)) [
  | inl e ↦ rw e (omega (arith, count-append a bs (all_free xs), count-append a cs (all_free xs)))
  | inr e ↦ rw e (
      omega (
        arith,
        count-append a cs (all_free (put key bs xs)),
        count-append a cs (all_free xs),
        count-all_free-put a key bs xs,
      ))
]

-- The pool, and the buffers that tensors hold.
pub record World : Type 0 where
  pub pool : DevicePool
  pub held : List ℕ

-- `cudaMalloc` returns no buffer that is in use.
pub data Step : World → World → Type 0 where
  acquired :
      (w : World) (fresh nbytes : ℕ)
      → lookup fresh w.pool.size_of ≡ none
      → Step w (record {
        pool = (acquire fresh nbytes w.pool).1;
        held = (acquire fresh nbytes w.pool).0 ∷ w.held;
      })
  released :
      (p : DevicePool) (xs : List ℕ) (b : ℕ) (ys : List ℕ)
      → Step
          (record { pool = p; held = xs ++ b ∷ ys })
          (record { pool = release b p; held = xs ++ ys })
  trimmed : (w : World) → Step w (record w { pool = trim w.pool })

pub data Reachable : World → Type 0 where
  started : Reachable (record { pool = record { free_lists = []; size_of = [] }; held = [] })
  next : {w u : World} → Reachable w → Step w u → Reachable u

pub record IsSound (w : World) : Type 0 where
  pub one_owner : (b : ℕ) → count b w.held + count b (all_free w.pool.free_lists) ≤ 1
  pub known : (b : ℕ) → 0 < count b w.held → (n : ℕ) × (lookup b w.pool.size_of ≡ some n)
  pub sorted : (n b : ℕ) → 0 < count b (bin n w.pool) → lookup b w.pool.size_of ≡ some n
  pub listed :
      (b : ℕ)
      → 0 < count b (all_free w.pool.free_lists)
      → (n : ℕ) × (lookup b w.pool.size_of ≡ some n)

-- A pointer that the pool does not know is neither held nor free.
nowhere :
    (w : World) (b : ℕ)
    → IsSound w
    → lookup b w.pool.size_of ≡ none
    → (count b w.held ≡ 0) × (count b (all_free w.pool.free_lists) ≡ 0)
nowhere w b v e = (
  elsewhere (count b w.held) (v.known b),
  elsewhere (count b (all_free w.pool.free_lists)) (v.listed b),
)
  where
    elsewhere : (k : ℕ) → (0 < k → (n : ℕ) × (lookup b w.pool.size_of ≡ some n)) → k ≡ 0
    elsewhere zero h = refl
    elsewhere (suc k) h = let (n, f) = h (omega arith) in ground (arith, sym f ∙ e)

count_pos : (b c : ℕ) (xs : List ℕ) → 0 < count b (c ∷ xs) → b ≢ c → 0 < count b xs
count_pos b c xs h ne = ground (arith, count-cons b c xs)

take_buffer-IsSound :
    (w : World) (fresh nbytes : ℕ) (bs : List ℕ)
    → bin nbytes w.pool ≡ bs
    → lookup fresh w.pool.size_of ≡ none
    → IsSound w
    → IsSound (record {
      pool = (take_buffer bs fresh nbytes w.pool).1;
      held = (take_buffer bs fresh nbytes w.pool).0 ∷ w.held;
    })
unfolding take_buffer
take_buffer-IsSound w fresh nbytes [] e new v =
    let sizes = w.pool.size_of in
    let still : (b n : ℕ) → lookup b sizes ≡ some n → lookup b (put fresh nbytes sizes) ≡ some n =
      λ b n known. elim (ℕ_discrete b fresh) [
        | yes p ↦ absurd (ground (arith, sym known ∙ ap (λ k. lookup k sizes) p ∙ new))
        | no ne ↦ lookup-put_ne fresh b nbytes sizes ne ∙ known
      ] in
    record {
      one_owner = λ b. elim (ℕ_discrete b fresh) [
        | yes p ↦
            let (h, f) = nowhere w fresh v new in
            rw p (ground (arith, count-cons fresh fresh w.held, h, f))
        | no ne ↦ ground (arith, count-cons b fresh w.held, v.one_owner b)
      ];
      known = λ b h. elim (ℕ_discrete b fresh) [
        | yes p ↦ (nbytes, rw p (lookup-put_self fresh nbytes sizes))
        | no ne ↦ let (n, k) = v.known b (count_pos b fresh w.held h ne) in (n, still b n k)
      ];
      sorted = λ n b h. still b n (v.sorted n b h);
      listed = λ b h. let (n, k) = v.listed b h in (n, still b n k);
    }
take_buffer-IsSound w fresh nbytes (c ∷ cs) e new v =
    let lists = w.pool.free_lists in
    let fewer : (b : ℕ)
        → count b (all_free (put nbytes cs lists)) + count b (c ∷ cs)
          ≡ count b (all_free lists) + count b cs =
      λ b.
        subst
          (λ xs.
            count b (all_free (put nbytes cs lists)) + count b xs
            ≡ count b (all_free lists) + count b cs)
          e (count-all_free-put b nbytes cs lists) in
    record {
      one_owner =
          λ b. ground (arith, fewer b, count-cons b c cs, count-cons b c w.held, v.one_owner b);
      known = λ b h. elim (ℕ_discrete b c) [
        | yes p ↦ (nbytes, v.sorted nbytes b (ground (arith, ap (count b) e, count-cons b c cs)))
        | no ne ↦ v.known b (count_pos b c w.held h ne)
      ];
      sorted = λ n b h. elim (ℕ_discrete n nbytes) [
        | yes p ↦
            let rest : 0 < count b cs =
              subst (λ r. 0 < count b (or_empty r))
                (ap (λ k. lookup k (put nbytes cs lists)) p ∙ lookup-put_self nbytes cs lists) h in
            rw p (v.sorted nbytes b (ground (arith, ap (count b) e, count-cons b c cs, rest)))
        | no ne ↦ v.sorted n b (rw (lookup-put_ne nbytes n cs lists ne) at h)
      ];
      listed = λ b h. v.listed b (ground (arith, fewer b, count-cons b c cs));
    }

held_more : (a b : ℕ) (xs ys : List ℕ) → count a (xs ++ ys) ≤ count a (xs ++ b ∷ ys)
held_more a b xs ys =
    ground (arith, count-append a xs (b ∷ ys), count-append a xs ys, count-cons a b ys)

keep_buffer-IsSound :
    (p : DevicePool) (xs : List ℕ) (b : ℕ) (ys : List ℕ) (n : ℕ)
    → lookup b p.size_of ≡ some n
    → IsSound (record { pool = p; held = xs ++ b ∷ ys })
    → IsSound (record { pool = keep_buffer (some n) b p; held = xs ++ ys })
unfolding keep_buffer
keep_buffer-IsSound p xs b ys n size v =
    let lists = p.free_lists in
    let old = bin n p in
    let more : (a : ℕ)
        → count a (all_free (put n (b ∷ old) lists)) + count a old
          ≡ count a (all_free lists) + count a (b ∷ old) =
      λ a. count-all_free-put a n (b ∷ old) lists in
    let moved : (a : ℕ)
        → count a (xs ++ b ∷ ys) + count a old ≡ count a (xs ++ ys) + count a (b ∷ old) =
      λ a. omega (
        arith,
        count-append a xs (b ∷ ys),
        count-append a xs ys,
        count-cons a b ys,
        count-cons a b old,
      ) in
    record {
      one_owner = λ a. omega (arith, more a, moved a, v.one_owner a);
      known = λ a h. v.known a (omega (arith, moved a, count-cons a b old, h, held_more a b xs ys));
      sorted = λ m a h. elim (ℕ_discrete m n) [
        | yes e ↦
            let here : 0 < count a (b ∷ old) =
              subst (λ r. 0 < count a (or_empty r))
                (ap (λ k. lookup k (put n (b ∷ old) lists)) e ∙ lookup-put_self n (b ∷ old) lists)
                h in
            elim (ℕ_discrete a b) [
              | yes q ↦ rw (q, e) size
              | no ne ↦ rw e (v.sorted n a (count_pos a b old here ne))
            ]
        | no ne ↦ v.sorted m a (rw (lookup-put_ne n m (b ∷ old) lists ne) at h)
      ];
      listed = λ a h. elim (ℕ_discrete a b) [
        | yes q ↦ (n, rw q size)
        | no ne ↦ v.listed a (ground (arith, more a, count-cons a b old))
      ];
    }

Step-IsSound : {w u : World} → Step w u → IsSound w → IsSound u
unfolding acquire release trim
Step-IsSound (acquired w fresh n new) v = take_buffer-IsSound w fresh n (bin n w.pool) refl new v
Step-IsSound (released p xs b ys) v =
    let (n, e) = v.known b (ground (arith, count-append b xs (b ∷ ys), count-cons b b ys)) in
    subst (λ r. IsSound (record { pool = keep_buffer r b p; held = xs ++ ys })) (sym e)
      (keep_buffer-IsSound p xs b ys n e v)
Step-IsSound (trimmed w) v = record {
  one_owner = λ b. omega (arith, v.one_owner b, count-nil b);
  known = λ b h.
      let (n, e) = v.known b h in
      (
        n,
        lookup-erase_all (all_free w.pool.free_lists) b w.pool.size_of
              (omega (arith, v.one_owner b, h))
            ∙ e,
      );
  sorted = λ n b h. absurd (omega (arith, count-nil b, h));
  listed = λ b h. absurd (omega (arith, count-nil b, h));
}

pub Reachable-IsSound : {w : World} → Reachable w → IsSound w
unfolding all_free lookup
Reachable-IsSound started = record {
  one_owner = λ b. omega (arith, count-nil b);
  known = λ b h. absurd (omega (arith, count-nil b, h));
  sorted = λ n b h. absurd (omega (arith, count-nil b, h));
  listed = λ b h. absurd (omega (arith, count-nil b, h));
}
Reachable-IsSound (next r step) = Step-IsSound step (Reachable-IsSound r)

-- After any calls of acquire, release and trim, a buffer that acquire hands out is held by nobody,
-- and its recorded size is the number of bytes asked for, if cudaMalloc returns no pointer that the
-- pool has.
pub acquire-IsOwned :
    (w : World) (fresh nbytes : ℕ)
    → Reachable w
    → lookup fresh w.pool.size_of ≡ none
    → (count ((acquire fresh nbytes w.pool).0) w.held ≡ 0)
      × (lookup ((acquire fresh nbytes w.pool).0) ((acquire fresh nbytes w.pool).1).size_of
          ≡ some nbytes)
unfolding acquire take_buffer
acquire-IsOwned w fresh nbytes r new = owned (bin nbytes w.pool) refl
  where
    owned :
        (bs : List ℕ)
        → bin nbytes w.pool ≡ bs
        → (count ((take_buffer bs fresh nbytes w.pool).0) w.held ≡ 0)
          × (lookup
                ((take_buffer bs fresh nbytes w.pool).0)
                ((take_buffer bs fresh nbytes w.pool).1).size_of
              ≡ some nbytes)
    owned [] e =
        ((nowhere w fresh (Reachable-IsSound r) new).0, lookup-put_self fresh nbytes w.pool.size_of)
    owned (c ∷ cs) e = (
      ground (
        arith,
        (take_buffer-IsSound w fresh nbytes (c ∷ cs) e new (Reachable-IsSound r)).one_owner c,
        count-cons c c w.held,
      ),
      (Reachable-IsSound r).sorted nbytes c (ground (arith, ap (count c) e, count-cons c c cs)),
    )
