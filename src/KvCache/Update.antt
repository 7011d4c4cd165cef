-- ===== src/KvCache/Update.antt =====
-- cpp/src/cache.cpp: what KVCache::update stores and returns.
use nanoinfer.Prelude.{ℕ, ◌+◌, ◌≤◌, ◌<◌, ◌≡◌, [], ◌∷◌, arith, length}
use nanoinfer.Prelude.Loops.{for3-hit, for3-miss, for3-keep}
use nanoinfer.Tensor.{cpu, make_tensor}
use nanoinfer.Tensor.Access.{make_tensor-Is3d}
use nanoinfer.KvCache.{KvCache, layer_planes, write_tokens, read_back}
use nanoinfer.KvCache.Buffers.{
  Planes, read, write, ArePlanes, read-write_self, read-write_ne, write-ArePlanes,
}

module _ {F : Type 0} (nought : F) where
  -- Every layer has its two buffers, and the filled positions lie within them.
  pub record IsCache (c : KvCache F) : Type 0 where
    pub values : length c.v ≡ length c.k
    pub bounded : c.filled ≤ c.max_seq
    pub planes :
        (layer : ℕ)
        → layer < length c.k
        → ArePlanes c.n_kv_heads c.max_seq c.head_dim (layer_planes nought c layer)

  -- The key and the value that the cache holds for an entry.
  abbrev pub entry : KvCache F → ℕ → ℕ → ℕ → ℕ → F × F
  entry c layer h s d = read nought (layer_planes nought c layer) h s d

  module _ (n_kv t hd start max_seq : ℕ) (new bufs : Planes F) (v : ArePlanes n_kv max_seq hd bufs)
      (fits : start + t ≤ max_seq) where
    body : ℕ → ℕ → ℕ → Planes F → Planes F
    body h i d p = write p h (start + i) d (read nought new h i d)

    keeps :
        (h i d : ℕ) (p : Planes F)
        → ArePlanes n_kv max_seq hd p
        → ArePlanes n_kv max_seq hd (body h i d p)
    unfolding body
    keeps h i d p w = write-ArePlanes nought n_kv max_seq hd p h (start + i) d _ w

    pub write_tokens-ArePlanes :
        ArePlanes n_kv max_seq hd (write_tokens nought n_kv t hd start new bufs)
    unfolding write_tokens body
    write_tokens-ArePlanes = for3-keep (ArePlanes n_kv max_seq hd) body keeps n_kv t hd bufs v

    -- The new tokens stand from position `start` on.
    pub write_tokens_new :
        (h i d : ℕ)
        → h < n_kv
        → i < t
        → d < hd
        → read nought (write_tokens nought n_kv t hd start new bufs) h (start + i) d
          ≡ read nought new h i d
    unfolding write_tokens body
    write_tokens_new h i d hh hi hd' =
        for3-hit (ArePlanes n_kv max_seq hd) body keeps n_kv t hd
          (λ p. read nought p h (start + i) d) h i d _ bufs hh hi hd'
          (λ p w. read-write_self nought n_kv max_seq hd p h (start + i) d _ w hh (omega arith) hd')
          (λ h' i' d' p lh li ld ne w.
            read-write_ne nought n_kv max_seq hd p h (start + i) d h' (start + i') d' _ w
              (omega arith) hd' (omega arith) ld (λ e. ne (e.0, omega (arith, e.1), e.2)))
          v

    -- Earlier positions keep what they held.
    pub write_tokens_old :
        (h s d : ℕ)
        → s < start
        → d < hd
        → read nought (write_tokens nought n_kv t hd start new bufs) h s d ≡ read nought bufs h s d
    unfolding write_tokens body
    write_tokens_old h s d hs hd' =
        for3-miss (ArePlanes n_kv max_seq hd) body keeps n_kv t hd (λ p. read nought p h s d) bufs
          (λ h' i' d' p lh li ld w.
            read-write_ne nought n_kv max_seq hd p h s d h' (start + i') d' _ w (omega arith) hd'
              (omega arith) ld (λ e. absurd (omega (arith, e.1))))
          v

  blank :
      (n_kv end hd : ℕ)
      → ArePlanes n_kv end hd (
        make_tensor nought (n_kv ∷ end ∷ hd ∷ []) cpu,
        make_tensor nought (n_kv ∷ end ∷ hd ∷ []) cpu,
      )
  blank n_kv end hd = (make_tensor-Is3d nought n_kv end hd, make_tensor-Is3d nought n_kv end hd)

  copies :
      (n_kv end hd : ℕ) (bufs : Planes F) (h s d : ℕ) (p : Planes F)
      → ArePlanes n_kv end hd p
      → ArePlanes n_kv end hd (write p h s d (read nought bufs h s d))
  copies n_kv end hd bufs h s d p w = write-ArePlanes nought n_kv end hd p h s d _ w

  pub read_back-ArePlanes :
      (n_kv end hd : ℕ) (bufs : Planes F)
      → ArePlanes n_kv end hd (read_back nought n_kv end hd bufs)
  unfolding read_back
  read_back-ArePlanes n_kv end hd bufs =
      for3-keep (ArePlanes n_kv end hd) _ (copies n_kv end hd bufs) n_kv end hd _
        (blank n_kv end hd)

  pub read-read_back :
      (n_kv end hd : ℕ) (bufs : Planes F) (h s d : ℕ)
      → h < n_kv
      → s < end
      → d < hd
      → read nought (read_back nought n_kv end hd bufs) h s d ≡ read nought bufs h s d
  unfolding read_back
  read-read_back n_kv end hd bufs h s d hh hs hd' =
      for3-hit (ArePlanes n_kv end hd) _ (copies n_kv end hd bufs) n_kv end hd
        (λ p. read nought p h s d) h s d _ _ hh hs hd'
        (λ p w. read-write_self nought n_kv end hd p h s d _ w hh hs hd')
        (λ h' s' d' p lh ls ld ne w.
          read-write_ne nought n_kv end hd p h s d h' s' d' _ w hs hd' ls ld ne)
        (blank n_kv end hd)
