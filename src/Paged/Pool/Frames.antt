-- ===== src/Paged/Pool/Frames.antt =====
-- cpp/src/paged.cpp, class BlockPool: what depends on the accounts alone, and what on the buffers alone.
use nanoinfer.Prelude.{ℕ, ◌≡◌, ap, sym, subst, List, []}
use nanoinfer.Paged.Pool.{BlockPool, k_at}
use nanoinfer.Paged.Pool.Accounting.{Accounts, store_of}
use nanoinfer.Paged.Pool.Memory.{IsStore, room_of}

-- The pool less its keys and values.
abbrev pub frame_of : {F : Type 0} → BlockPool F → BlockPool F
frame_of p = record p { k = []; v = [] }

module _ {F : Type 0} (p q : BlockPool F) where
  pub Accounts-frame : (held : List ℕ) → frame_of q ≡ frame_of p → Accounts p held → Accounts q held
  Accounts-frame held e v =
      let framed : Accounts (frame_of p) held = record {
        addressable = v.addressable;
        sized = v.sized;
        accounted = v.accounted;
        recycled = v.recycled;
      } in
      let moved : Accounts (frame_of q) held = subst (λ r. Accounts r held) (sym e) framed in
      record {
        addressable = moved.addressable;
        sized = moved.sized;
        accounted = moved.accounted;
        recycled = moved.recycled;
      }

  pub IsStore-store_of :
      (layers : ℕ)
      → store_of q ≡ store_of p
      → IsStore layers (room_of p) p
      → IsStore layers (room_of q) q
  IsStore-store_of layers e v =
      let kept : IsStore layers (room_of (store_of p)) (store_of p) = record {
        keys = v.keys;
        values = v.values;
        key_room = v.key_room;
        value_room = v.value_room;
      } in
      let moved : IsStore layers (room_of (store_of q)) (store_of q) =
        subst (λ r. IsStore layers (room_of r) r) (sym e) kept in
      record {
        keys = moved.keys;
        values = moved.values;
        key_room = moved.key_room;
        value_room = moved.value_room;
      }

  pub k_at-frame : (b h o : ℕ) → frame_of q ≡ frame_of p → k_at q b h o ≡ k_at p b h o
  unfolding k_at
  k_at-frame b h o e = ap (λ (r : BlockPool F). k_at r b h o) e

  pub k_at-store : (b h o : ℕ) → store_of q ≡ store_of p → k_at q b h o ≡ k_at p b h o
  unfolding k_at
  k_at-store b h o e = ap (λ (r : BlockPool F). k_at r b h o) e
