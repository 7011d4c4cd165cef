-- ===== src/Paged/Tests.antt =====
-- A sequence with one filled position, and the witnesses of the theorems on sequences and of the
-- agreement with the contiguous cache.
use nanoinfer.Prelude.{ℕ, zero, suc, ◌≤◌, ◌<◌, ◌≡◌, refl, true, [], ◌∷◌, arith, get_or, count, ok}
use nanoinfer.Tensor.{Tensor, at3}
use nanoinfer.Tensor.Tests.{one_head, two_heads, two_heads-Is3d}
use nanoinfer.Ops.Tests.{numbers}
use nanoinfer.KvCache.{KvCache}
use nanoinfer.KvCache.Attend as Contiguous
use nanoinfer.KvCache.Update.{IsCache}
use nanoinfer.KvCache.Tests.{filled_once, filled_once-IsCache}
use nanoinfer.Paged.Pool.{k_at}
use nanoinfer.Paged.Pool.Tests.{used, used-Accounts, used-IsStore}
use nanoinfer.Paged.Cache.{Session, release, ensure_capacity, truncate, share_prefix}
use nanoinfer.Paged.Cache.References.{
  IsBacked, Released, release-Released, Grown, ensure_capacity-Grown,
}
use nanoinfer.Paged.Cache.Rollback.{
  Truncated, truncate-Truncated, Shared, share_prefix-Shared, IsDangling, share_prefix_unheld,
}
use nanoinfer.Paged.Cache.Attend as Paged
use nanoinfer.Paged.Cache.Attend.{slot}
use nanoinfer.Paged.Cache.Attend.Contract.{IsHealthy, Attended, attend-Attended}
use nanoinfer.Paged.Refinement.{AgreesUpTo, Represents, attend_refines}

abbrev pub sequence : Session ℕ
sequence = record {
  pool = used;
  cache = record { attached = true; block_table = 0 ∷ []; filled = 1 };
}

sequence-IsBacked : IsBacked [] sequence
sequence-IsBacked = record { accounts = used-Accounts; covered = omega arith }

-- A second sequence on the pool, with no blocks yet; the first one holds block 0.
abbrev second : Session ℕ
second = record { pool = used; cache = record { attached = true; block_table = []; filled = 0 } }

second-IsBacked : IsBacked (0 ∷ []) second
second-IsBacked = record { accounts = used-Accounts; covered = omega arith }

once : (i : ℕ) → 0 ≤ i → i < 1 → count (get_or (0 ∷ []) i 0) (0 ∷ []) ≡ 1
unfolding count
once zero l h = refl
once (suc i) l h = absurd (omega arith)

pub sequence-IsHealthy : IsHealthy [] 1 sequence
sequence-IsHealthy = record {
  backed = sequence-IsBacked;
  memory = used-IsStore;
  positive = omega arith;
  exclusive = once;
}

release-Released_example : Released [] (release sequence)
release-Released_example = release-Released [] sequence refl used-Accounts

ensure_capacity-Grown_example : Grown [] 5 sequence (ensure_capacity 5 sequence)
ensure_capacity-Grown_example = ensure_capacity-Grown [] 5 sequence used-Accounts

truncate-Truncated_example : Truncated [] 0 sequence (truncate 0 sequence)
truncate-Truncated_example = truncate-Truncated [] 0 sequence (omega arith) sequence-IsBacked

share_prefix-Shared_example : Shared (0 ∷ []) (0 ∷ []) 2 second (share_prefix (0 ∷ []) 2 second)
share_prefix-Shared_example = share_prefix-Shared (0 ∷ []) (0 ∷ []) 2 second second-IsBacked

share_prefix_unheld_example : IsDangling (0 ∷ []) (share_prefix (0 ∷ 2 ∷ []) 4 second)
unfolding count
share_prefix_unheld_example =
    share_prefix_unheld (0 ∷ []) (0 ∷ 2 ∷ []) 2 second second-IsBacked refl refl (omega arith) refl

attend-Attended_example :
    Attended numbers [] 1 0 2 two_heads
      (one_head, one_head)
      2
      true
      1
      sequence
      (Paged.attend numbers 0 two_heads one_head one_head 2 true 1 sequence)
attend-Attended_example =
    attend-Attended numbers [] 1 0 two_heads one_head one_head 2 true 1 sequence sequence-IsHealthy
      (omega arith)

same_start : (layer : ℕ) → layer < 1 → AgreesUpTo numbers layer 1 filled_once sequence
unfolding slot k_at at3
same_start zero in_layers zero zero zero hh hp hd = refl
same_start zero in_layers (suc h) pos d hh hp hd = absurd (omega arith)
same_start zero in_layers zero (suc pos) d hh hp hd = absurd (omega arith)
same_start zero in_layers zero zero (suc d) hh hp hd = absurd (omega arith)
same_start (suc l) in_layers h pos d hh hp hd = absurd (omega arith)

pub sequence-Represents : Represents numbers 1 filled_once sequence
sequence-Represents = record {
  same_filled = refl;
  same_heads = refl;
  same_dim = refl;
  same_entries = same_start;
}

attend_refines_example :
    (out : Tensor ℕ) × (c' : KvCache ℕ) × (u : Session ℕ) × (Contiguous.attend numbers 0 two_heads
        one_head one_head 2 true 1 filled_once
      ≡ (ok out, c'))
    × (Paged.attend numbers 0 two_heads one_head one_head 2 true 1 sequence ≡ (ok out, u))
    × IsCache 0 c'
    × IsHealthy [] 1 u
    × AgreesUpTo numbers 0 3 c' u
attend_refines_example =
    attend_refines numbers 1 0 2 2 two_heads one_head one_head true [] filled_once sequence
      sequence-Represents filled_once-IsCache sequence-IsHealthy (omega arith) refl (omega arith)
      (omega arith) (omega arith) refl (omega arith) (omega arith) two_heads-Is3d
