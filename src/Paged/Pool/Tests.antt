-- ===== src/Paged/Pool/Tests.antt =====
-- A pool of three blocks of two positions, and the witnesses of the pool's theorems.
use nanoinfer.Prelude.{
  ℕ, zero, suc, get_or, replicate, ◌<◌, ◌≡◌, refl, List, [], ◌∷◌, arith, length, ok,
}
use nanoinfer.Paged.Pool.{BlockPool, make_pool, push_ids, allocate, pop_free, free}
use nanoinfer.Paged.Pool.Accounting.{
  Accounts, make_pool-Accounts, Allocated, allocate-Accounts, Freed, free-Accounts,
}
use nanoinfer.Paged.Pool.Memory.{IsStore}
use nanoinfer.Paged.Pool.Frames.{Accounts-frame}

abbrev pub blank : List ℕ
blank = 0 ∷ 0 ∷ 0 ∷ 0 ∷ 0 ∷ 0 ∷ []

abbrev pub fresh : BlockPool ℕ
fresh = record {
  num_layers = 1;
  n_kv_heads = 1;
  head_dim = 1;
  block_size = 2;
  num_blocks = 3;
  block_stride = 2;
  k = blank ∷ [];
  v = blank ∷ [];
  free_list = 0 ∷ 1 ∷ 2 ∷ [];
  refcount = 0 ∷ 0 ∷ 0 ∷ [];
}

-- Block 0 is held once, and its first position is filled.
abbrev pub used : BlockPool ℕ
used = record fresh {
  k = (5 ∷ 0 ∷ 0 ∷ 0 ∷ 0 ∷ 0 ∷ []) ∷ [];
  v = (6 ∷ 0 ∷ 0 ∷ 0 ∷ 0 ∷ 0 ∷ []) ∷ [];
  free_list = 1 ∷ 2 ∷ [];
  refcount = 1 ∷ 0 ∷ 0 ∷ [];
}

-- Two heads of two dimensions.
abbrev large : BlockPool ℕ
large = record fresh { n_kv_heads = 2; head_dim = 2; block_stride = 8 }

make_fresh : make_pool 0 1 1 1 2 3 ≡ ok fresh
unfolding make_pool push_ids replicate
make_fresh = refl

pub fresh-Accounts : Accounts fresh []
unfolding make_pool push_ids replicate
fresh-Accounts = (make_pool-Accounts 0 1 1 1 2 3).1

pub used-Accounts : Accounts used (0 ∷ [])
unfolding allocate pop_free
used-Accounts = Accounts-frame _ used (0 ∷ []) refl (allocate-Accounts fresh [] fresh-Accounts).0

one_row : (row : List ℕ) (l : ℕ) → l < 1 → length (get_or (row ∷ []) l []) ≡ length row
one_row row zero h = refl
one_row row (suc l) h = absurd (omega arith)

pub used-IsStore : IsStore 1 6 used
used-IsStore = record {
  keys = refl;
  values = refl;
  key_room = one_row (5 ∷ 0 ∷ 0 ∷ 0 ∷ 0 ∷ 0 ∷ []);
  value_room = one_row (6 ∷ 0 ∷ 0 ∷ 0 ∷ 0 ∷ 0 ∷ []);
}

allocate-Accounts_example : Allocated fresh [] (allocate fresh)
allocate-Accounts_example = allocate-Accounts fresh [] fresh-Accounts

free-Accounts_example : Freed 0 used (0 ∷ []) (free 0 used)
free-Accounts_example = free-Accounts 0 used (0 ∷ []) used-Accounts

abbrev middle : ℕ
middle = 1
