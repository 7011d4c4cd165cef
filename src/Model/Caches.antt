-- ===== src/Model/Caches.antt =====
-- cpp/src/cache.hpp, class KVCacheBase: the caches of the sequences as the model sees them.
use nanoinfer.Prelude.{ℕ, Bool, Result, Method, ok, ◌>>=◌}
use nanoinfer.Floats.{FloatOps}
use nanoinfer.Tensor.{Tensor}
use nanoinfer.Config.{Config}
use nanoinfer.KvCache.{KvCache}
use nanoinfer.KvCache as Contiguous
use nanoinfer.KvCache.Attend as ContiguousAttend
use nanoinfer.Paged.Cache.{Session}
use nanoinfer.Paged.Cache as Paged
use nanoinfer.Paged.Cache.Attend as PagedAttend

-- `Ref` names a cache in the state `World` of all caches, as a pointer to its base class does.
pub record KvCacheBase (F World : Type 0) : Type 1 where
  pub Ref : Type 0
  pub attend : Ref → ℕ → Tensor F → Tensor F → Tensor F → ℕ → Bool → ℕ → Method World (Tensor F)
  pub advance : Ref → ℕ → World → World
  pub length : Ref → World → ℕ

module _ (fp : FloatOps) where
  open fp use {Float, zero_f}

  -- A world of one contiguous cache.
  abbrev pub contiguous : KvCacheBase Float (KvCache Float)
  contiguous = record {
    Ref = Unit;
    attend =
        λ ref layer q k v n_rep causal off. ContiguousAttend.attend fp layer q k v n_rep causal off;
    advance = λ ref t c. Contiguous.advance t c;
    length = λ ref c. c.filled;
  }

  -- A world of one paged cache and its pool.
  abbrev pub paged : KvCacheBase Float (Session Float)
  paged = record {
    Ref = Unit;
    attend = λ ref layer q k v n_rep causal off. PagedAttend.attend fp layer q k v n_rep causal off;
    advance = λ ref t s. Paged.advance t s;
    length = λ ref s. s.cache.filled;
  }

  -- The contiguous cache that the CPU backend makes for a model.
  unfoldable pub make_kv_cache : Config Float → ℕ → Result ((contiguous).Ref × KvCache Float)
  make_kv_cache cfg max_seq =
      Contiguous.make_cache zero_f cfg.num_layers cfg.num_kv_heads cfg.head_dim max_seq >>= λ c.
      ok (tt, c)
