-- ===== src/Cuda/Memory/Tests.antt =====
-- A pool of device memory with a buffer that is kept, and the witness of its theorem.
use nanoinfer.Prelude.{◌≡◌, refl, [], ◌∷◌, some, none, count}
use nanoinfer.Cuda.Memory.{acquire, take_buffer, release, keep_buffer, lookup, put}
use nanoinfer.Cuda.Memory.Safety.{
  World, Reachable, started, next, acquired, released, acquire-IsOwned,
}

-- Buffers 100 and 200 of eight bytes were allocated, and 100 was given back.
abbrev one_kept : World
one_kept = record {
  pool = record { free_lists = (8, 100 ∷ []) ∷ []; size_of = (100, 8) ∷ (200, 8) ∷ [] };
  held = 200 ∷ [];
}

one_kept-Reachable : Reachable one_kept
unfolding acquire take_buffer release keep_buffer lookup put
one_kept-Reachable =
    next (next (next started (acquired _ 100 8 refl)) (acquired _ 200 8 refl))
      (released (record { free_lists = []; size_of = (100, 8) ∷ (200, 8) ∷ [] }) (200 ∷ []) 100 [])

three_hundred_unknown : lookup 300 one_kept.pool.size_of ≡ none
unfolding lookup
three_hundred_unknown = refl

acquire-IsOwned_example :
    (count ((acquire 300 8 one_kept.pool).0) one_kept.held ≡ 0)
    × (lookup ((acquire 300 8 one_kept.pool).0) ((acquire 300 8 one_kept.pool).1).size_of ≡ some 8)
acquire-IsOwned_example = acquire-IsOwned one_kept 300 8 one_kept-Reachable three_hundred_unknown
