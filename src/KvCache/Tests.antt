-- ===== src/KvCache/Tests.antt =====
-- A cache of one layer and one head with room for four positions, the first one filled, and the
-- witnesses of the cache's theorems.
use nanoinfer.Prelude.{ℕ, zero, suc, ◌/◌, ◌<◌, ◌≡◌, refl, true, [], ◌∷◌, arith, ok}
use nanoinfer.Tensor.{Tensor}
use nanoinfer.Tensor.Tests.{cube, one_head, two_heads, two_heads-Is3d}
use nanoinfer.Ops.Attention.{attend_heads}
use nanoinfer.Ops.Tests.{numbers}
use nanoinfer.KvCache.{KvCache, update, layer_planes}
use nanoinfer.KvCache.Buffers.{ArePlanes}
use nanoinfer.KvCache.Update.{IsCache, entry}
use nanoinfer.KvCache.Contract.{IsUpdated, Updated, update-Updated}
use nanoinfer.KvCache.Attend.{attend, attend-eq}

abbrev pub filled_once : KvCache ℕ
filled_once = record {
  k = cube 1 4 1 (5 ∷ 0 ∷ 0 ∷ 0 ∷ []) ∷ [];
  v = cube 1 4 1 (6 ∷ 0 ∷ 0 ∷ 0 ∷ []) ∷ [];
  n_kv_heads = 1;
  head_dim = 1;
  max_seq = 4;
  filled = 1;
}

filled_once-planes : (l : ℕ) → l < 1 → ArePlanes 1 4 1 (layer_planes 0 filled_once l)
filled_once-planes zero h = (
  record { shape = refl; strides = refl; numel = refl; stored = refl },
  record { shape = refl; strides = refl; numel = refl; stored = refl },
)
filled_once-planes (suc l) h = absurd (omega arith)

pub filled_once-IsCache : IsCache 0 filled_once
filled_once-IsCache = record { values = refl; bounded = omega arith; planes = filled_once-planes }

update-Updated_example :
    Updated 0 0 one_head one_head filled_once (update 0 0 one_head one_head filled_once)
update-Updated_example = update-Updated 0 0 one_head one_head filled_once filled_once-IsCache

attend-eq_example :
    (c' : KvCache ℕ) × (out : Tensor ℕ × Tensor ℕ) × (attend numbers 0 two_heads one_head one_head 2
        true 1 filled_once
      ≡ (
        ok (
            attend_heads numbers two_heads
              (λ h j x. (entry 0 c' 0 (h / 2) j x).0)
              (λ h j x. (entry 0 c' 0 (h / 2) j x).1)
              3
              true
              1),
        c',
      ))
    × IsUpdated 0 0 2 (one_head, one_head) filled_once c' out
attend-eq_example =
    attend-eq numbers 0 2 2 two_heads one_head one_head true filled_once filled_once-IsCache
      (omega arith) (omega arith) (omega arith) (omega arith) refl (omega arith) two_heads-Is3d
