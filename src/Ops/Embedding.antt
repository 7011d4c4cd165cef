-- ===== src/Ops/Embedding.antt =====
-- cpp/src/ops.cpp: embedding, which gathers rows of a table by token id.
pub mod Rows
use nanoinfer.Prelude.{
  ℕ, ◌+◌, ◌*◌, Bool, not, ◌&&◌, List, [], ◌∷◌, length, get_or, set, ltb, ◌==◌, is_negative, Result,
  ok,
}
use nanoinfer.Prelude.Loops.{for_range}
use nanoinfer.Tensor.{Tensor, cpu, make_tensor, ndim, size}
use nanoinfer.Ops.Heads.{require}

-- `id >= 0 && id < vocab`
abbrev pub in_vocab : ℕ → ℕ → Bool
in_vocab vocab id = not (is_negative id) && ltb id vocab

module _ {F : Type 0} (nought : F) where
  -- `dst[c] = src[c]` over a row.
  unfoldable pub copy_row : ℕ → Tensor F → ℕ → ℕ → Tensor F → Tensor F
  copy_row hidden table r id out =
      for_range hidden 0
        (λ c o. record o {
          values = set o.values (r * hidden + c) (get_or table.values (id * hidden + c) nought);
        })
        out

  unfoldable pub copy_rows : ℕ → ℕ → Tensor F → List ℕ → ℕ → Tensor F → Result (Tensor F)
  unfolding copy_row
  copy_rows vocab hidden table [] r out = ok out
  copy_rows vocab hidden table (id ∷ ids) r out =
      let rest = copy_rows vocab hidden table ids (r + 1) (copy_row hidden table r id out) in
      require (in_vocab vocab id) rest

  unfoldable pub embedding : Tensor F → List ℕ → Result (Tensor F)
  unfolding copy_rows ndim
  embedding table ids = require (ndim table == 2) (
      copy_rows (size table 0) (size table 1) table ids 0
        (make_tensor nought (length ids ∷ size table 1 ∷ []) cpu))
