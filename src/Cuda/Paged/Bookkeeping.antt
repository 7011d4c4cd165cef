-- ===== src/Cuda/Paged/Bookkeeping.antt =====
-- cpp/src/cuda/cuda_backend.cu against cpp/src/paged.cpp: the paged cache on the device keeps its books as
-- the one on the host.
use nanoinfer.Prelude.{
  set, invalid_argument, out_of_range, runtime_error, ◌++◌, ◌-◌, ℕ, zero, suc, ◌+◌, ◌*◌, ◌≡◌, refl,
  ap, ◌∙◌, Bool, true, false, not, ◌||◌, List, [], ◌∷◌, length, drop, get_or, leb, ltb, ◌==◌,
  if◌then◌else◌, is_negative, Result, ok, throw, continue, lift, true,
}
use nanoinfer.Paged.Pool.{BlockPool, allocate, incref, free, pop_free}
use nanoinfer.Paged.Cache.{
  Session, with_pool, resize, blocks_for, is_empty, free_all, incref_all, push_block, grow,
  ensure_capacity, truncate, share_prefix,
}
use nanoinfer.Cuda.Paged.Pool.{CudaBlockPool}
use nanoinfer.Cuda.Paged.Pool as Device
use nanoinfer.Cuda.Paged.Cache.{CudaSession, CudaPagedKvCache}
use nanoinfer.Cuda.Paged.Cache as DeviceCache

-- What a method does to a view of its object.
pub lift-continue :
    {A B S T : Type 0} (h : S → T) (m : Result A × S) (f : A → S → Result B × S)
    (f' : A → T → Result B × T)
    → ((a : A) (s : S) → lift h (f a s) ≡ f' a (h s))
    → lift h (continue m f) ≡ continue (lift h m) f'
lift-continue h (ok a, s) f f' same = same a s
lift-continue h (throw e, s) f f' same = refl

lift-lift :
    {A S T S' T' : Type 0} (h : S → T) (g : T → T') (h' : S → S') (g' : S' → T') (m : Result A × S)
    → ((s : S) → g (h s) ≡ g' (h' s))
    → lift g (lift h m) ≡ lift g' (lift h' m)
lift-lift h g h' g' (ok a, s) same = ap (λ t. (ok a, t)) (same s)
lift-lift h g h' g' (throw e, s) same = ap (λ t. (throw e, t)) (same s)

lift_if :
    {A S T : Type 0} (h : S → T) (b : Bool) (x y : Result A × S) {x' y' : Result A × T}
    → lift h x ≡ x'
    → lift h y ≡ y'
    → lift h (if b then x else y) ≡ (if b then x' else y')
lift_if h true x y e f = e
lift_if h false x y e f = f

lift_elim :
    {A S T : Type 0} (h : S → T) (b : Bool) (x y : Result A × S) {x' y' : Result A × T}
    → lift h x ≡ x'
    → lift h y ≡ y'
    → lift h (elim b [ true ↦ x | false ↦ y ]) ≡ (elim b [ true ↦ x' | false ↦ y' ])
lift_elim h true x y e f = e
lift_elim h false x y e f = f

module _ {F : Type 0} where
  -- The pool without the buffers.
  abbrev pub books : CudaBlockPool F → BlockPool F
  books p = record {
    num_layers = p.num_layers;
    n_kv_heads = p.n_kv_heads;
    head_dim = p.head_dim;
    block_size = p.block_size;
    num_blocks = p.num_blocks;
    block_stride = p.block_stride;
    k = [];
    v = [];
    free_list = p.free_list;
    refcount = p.refcount;
  }

  -- The sequence without the table on the device.
  abbrev pub on_host : CudaSession F → Session F
  on_host s = record {
    pool = books s.pool;
    cache = record { attached = true; block_table = s.cache.block_table; filled = s.cache.filled };
  }

  allocate-books : (p : CudaBlockPool F) → lift books (Device.allocate p) ≡ allocate (books p)
  unfolding allocate pop_free Device.allocate Device.pop_free
  allocate-books p = go p.free_list
    where
      go : (ids : List ℕ) → lift books (Device.pop_free ids p) ≡ pop_free ids (books p)
      go [] = refl
      go (b ∷ ids) = refl

  incref-books : (b : ℕ) (p : CudaBlockPool F) → lift books (Device.incref b p) ≡ incref b (books p)
  unfolding incref Device.incref
  incref-books b p =
      let rc = get_or p.refcount b 0 in
      lift_if books (is_negative b || leb p.num_blocks b) (throw out_of_range, p)
        (if rc == 0
          then (throw runtime_error, p)
          else (ok tt, record p { refcount = set p.refcount b (rc + 1) }))
        refl
        (lift_if books (rc == 0) (throw runtime_error, p)
          (ok tt, record p { refcount = set p.refcount b (rc + 1) }) refl refl)

  free-books : (b : ℕ) (p : CudaBlockPool F) → lift books (Device.free b p) ≡ free b (books p)
  unfolding free Device.free
  free-books b p =
      let rc = get_or p.refcount b 0 in
      let after : CudaBlockPool F = record p {
        refcount = set p.refcount b (rc - 1);
        free_list = if rc - 1 == 0 then b ∷ p.free_list else p.free_list;
      } in
      lift_if books (is_negative b || leb p.num_blocks b) (throw out_of_range, p)
        (if rc == 0 then (throw runtime_error, p) else (ok tt, after)) refl
        (lift_if books (rc == 0) (throw runtime_error, p) (ok tt, after) refl refl)

  free_all-books :
      (bs : List ℕ) (p : CudaBlockPool F)
      → lift books (DeviceCache.free_all bs p) ≡ free_all bs (books p)
  unfolding free_all DeviceCache.free_all
  free_all-books [] p = refl
  free_all-books (b ∷ bs) p =
      lift-continue books (Device.free b p) (λ _ q. DeviceCache.free_all bs q)
        (λ _ q. free_all bs q) (λ _ q. free_all-books bs q)
      ∙ ap (λ m. continue m λ _ q. free_all bs q) (free-books b p)

  incref_all-books :
      (bs : List ℕ) (p : CudaBlockPool F)
      → lift books (DeviceCache.incref_all bs p) ≡ incref_all bs (books p)
  unfolding incref_all DeviceCache.incref_all
  incref_all-books [] p = refl
  incref_all-books (b ∷ bs) p =
      lift-continue books (Device.incref b p) (λ _ q. DeviceCache.incref_all bs q)
        (λ _ q. incref_all bs q) (λ _ q. incref_all-books bs q)
      ∙ ap (λ m. continue m λ _ q. incref_all bs q) (incref-books b p)

  -- A call of a method of the pool, and what comes after it.
  pool_call :
      {A B : Type 0} (s : CudaSession F) (m : Result A × CudaBlockPool F)
      (m' : Result A × BlockPool F) (f : A → CudaSession F → Result B × CudaSession F)
      (f' : A → Session F → Result B × Session F)
      → lift books m ≡ m'
      → ((a : A) (t : CudaSession F) → lift on_host (f a t) ≡ f' a (on_host t))
      → lift on_host (continue (lift (DeviceCache.with_pool s) m) f)
        ≡ continue (lift (with_pool (on_host s)) m') f'
  pool_call s m m' f f' same rest =
      lift-continue on_host (lift (DeviceCache.with_pool s) m) f f' rest
      ∙ ap (λ r. continue r f')
          (lift-lift (DeviceCache.with_pool s) on_host books (with_pool (on_host s)) m (λ p. refl)
            ∙ ap (lift (with_pool (on_host s))) same)

  push_block-books :
      (s : CudaSession F) → lift on_host (DeviceCache.push_block s) ≡ push_block (on_host s)
  unfolding push_block DeviceCache.push_block
  push_block-books s =
      pool_call s (Device.allocate s.pool) (allocate (books s.pool))
        (λ b t. (
          ok tt,
          record t { cache = record (t.cache) { block_table = t.cache.block_table ++ b ∷ [] } },
        ))
        (λ b t. (
          ok tt,
          record t { cache = record (t.cache) { block_table = t.cache.block_table ++ b ∷ [] } },
        ))
        (allocate-books s.pool) (λ b t. refl)

  grow-books :
      (fuel n : ℕ) (s : CudaSession F)
      → lift on_host (DeviceCache.grow fuel n s) ≡ grow fuel n (on_host s)
  unfolding grow DeviceCache.grow
  grow-books zero n s = refl
  grow-books (suc fuel) n s =
      lift_elim on_host (ltb (length s.cache.block_table * s.pool.block_size) n)
        (continue (DeviceCache.push_block s) λ _ t. DeviceCache.grow fuel n t) (ok tt, s)
        (lift-continue on_host (DeviceCache.push_block s) (λ _ t. DeviceCache.grow fuel n t)
            (λ _ t. grow fuel n t) (λ _ t. grow-books fuel n t)
          ∙ ap (λ m. continue m λ _ t. grow fuel n t) (push_block-books s))
        refl

  pub ensure_capacity-books :
      (n : ℕ) (s : CudaSession F)
      → lift on_host (DeviceCache.ensure_capacity n s) ≡ ensure_capacity n (on_host s)
  unfolding ensure_capacity DeviceCache.ensure_capacity
  ensure_capacity-books n s = grow-books (suc (length s.pool.free_list)) n s

  -- truncate of the paged cache on the device does to the books of the pool and to the table of the
  -- sequence what truncate of the cache on the host does, and throws when that does.
  pub truncate-books :
      (n : ℕ) (s : CudaSession F) → lift on_host (DeviceCache.truncate n s) ≡ truncate n (on_host s)
  unfolding truncate DeviceCache.truncate
  truncate-books n s =
      let keep = blocks_for s.pool.block_size n in
      let dropped = drop keep s.cache.block_table in
      let rolled : Unit {0} → CudaSession F → Result (Unit {0}) × CudaSession F = λ _ t. (
        ok tt,
        record t {
          cache = record (t.cache) {
            block_table = resize keep t.cache.block_table;
            d_bt_count = if ltb keep t.cache.d_bt_count then keep else t.cache.d_bt_count;
            filled = n;
          };
        },
      ) in
      lift_if on_host (is_negative n || ltb s.cache.filled n) (throw invalid_argument, s)
        (continue (lift (DeviceCache.with_pool s) (DeviceCache.free_all dropped s.pool)) rolled)
        refl
        (pool_call s (DeviceCache.free_all dropped s.pool) (free_all dropped (books s.pool)) rolled
          (λ _ t. (
            ok tt,
            record t {
              cache = record (t.cache) {
                block_table = resize keep t.cache.block_table;
                filled = n;
              };
            },
          ))
          (free_all-books dropped s.pool) (λ _ t. refl))

  pub share_prefix-books :
      (blocks : List ℕ) (n : ℕ) (s : CudaSession F)
      → lift on_host (DeviceCache.share_prefix blocks n s) ≡ share_prefix blocks n (on_host s)
  unfolding share_prefix DeviceCache.share_prefix
  share_prefix-books blocks n s =
      let seeded : CudaSession F = record s { cache = record (s.cache) { block_table = blocks } } in
      let shared : Unit {0} → CudaSession F → Result (Unit {0}) × CudaSession F =
        λ _ t. (ok tt, record t { cache = record (t.cache) { filled = n } }) in
      let call =
        continue (lift (DeviceCache.with_pool seeded) (DeviceCache.incref_all blocks s.pool))
          shared in
      lift_if on_host (not (is_empty s.cache.block_table) || not (s.cache.filled == 0))
        (throw runtime_error, s)
        (if not (n == length blocks * s.pool.block_size) then (throw invalid_argument, s) else call)
        refl
        (lift_if on_host (not (n == length blocks * s.pool.block_size)) (throw invalid_argument, s)
          call refl
          (pool_call seeded (DeviceCache.incref_all blocks s.pool)
            (incref_all blocks (books s.pool)) shared
            (λ _ t. (ok tt, record t { cache = record (t.cache) { filled = n } }))
            (incref_all-books blocks s.pool) (λ _ t. refl)))
