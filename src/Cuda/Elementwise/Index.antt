-- ===== src/Cuda/Elementwise/Index.antt =====
-- cpp/src/cuda/cuda_elementwise.cu: the number of a thread and the entry that it computes.
use native.Mathlib.Nat.{div-add-mod', mul_assoc}
use nanoinfer.Prelude.{ℕ, ◌+◌, ◌*◌, ◌/◌, ◌%◌, ◌<◌, ◌≡◌, ap, sym, ◌∙◌, arith, get_or}
use nanoinfer.Prelude.Arith.{div-lt_of_lt_mul, div_row, mod_row, row_bound}
use nanoinfer.Prelude.Tabulate.{tabulate, eq_tabulate}
use nanoinfer.Tensor.{Tensor, at2, at3}
use nanoinfer.Tensor.Access.{Is2d, Is3d, at2_row, offset3_row}

-- The plane, the row and the column of entry `idx` of a block of `b` rows of `c` columns each.
pub record IsIndex3 (a b c idx : ℕ) : Type 0 where
  pub plane : idx / (b * c) < a
  pub row : idx % (b * c) / c < b
  pub column : idx % (b * c) % c < c
  pub whole : (idx / (b * c) * b + idx % (b * c) / c) * c + idx % (b * c) % c ≡ idx

pub mod-lt_of_lt_mul : (a b n : ℕ) → n < a * b → n % b < b
mod-lt_of_lt_mul a b n h = grind arith

pub index3 : (a b c idx : ℕ) → idx < a * b * c → IsIndex3 a b c idx
index3 a b c idx h =
    let h' : idx < a * (b * c) = omega (arith, mul_assoc a b c) in
    let low : idx % (b * c) < b * c = mod-lt_of_lt_mul a (b * c) idx h' in
    record {
      plane = div-lt_of_lt_mul (b * c) idx a h';
      row = div-lt_of_lt_mul c (idx % (b * c)) b low;
      column = mod-lt_of_lt_mul b c (idx % (b * c)) low;
      whole = omega (
        arith,
        div-add-mod' (idx % (b * c)) c,
        div-add-mod' idx (b * c),
        mul_assoc (idx / (b * c)) b c,
      );
    }

-- Entry `(h, s, d)` has these coordinates.
module _ (b c h s d : ℕ) (hs : s < b) (hd : d < c) where
  abbrev entry : ℕ
  entry = (h * b + s) * c + d

  split : entry ≡ h * (b * c) + (s * c + d)
  split = omega (arith, mul_assoc h b c)

  low : s * c + d < b * c
  low = row_bound c b s d hs hd

  pub entry_plane : entry / (b * c) ≡ h
  entry_plane = ap (λ n. n / (b * c)) split ∙ div_row (b * c) h (s * c + d) low

  entry_low : entry % (b * c) ≡ s * c + d
  entry_low = ap (λ n. n % (b * c)) split ∙ mod_row (b * c) h (s * c + d) low

  pub entry_row : entry % (b * c) / c ≡ s
  entry_row = ap (λ n. n / c) entry_low ∙ div_row c s d hd

  pub entry_column : entry % (b * c) % c ≡ d
  entry_column = ap (λ n. n % c) entry_low ∙ mod_row c s d hd

module _ {F : Type 0} (nought : F) where
  -- The entries of a tensor, given one by one.
  pub values-at3 :
      (a b c : ℕ) (t : Tensor F) (f : ℕ → F)
      → Is3d a b c t
      → ((idx : ℕ)
          → idx < a * b * c
          → at3 nought t (idx / (b * c)) (idx % (b * c) / c) (idx % (b * c) % c) ≡ f idx)
      → t.values ≡ tabulate (a * b * c) f
  unfolding at3
  values-at3 a b c t f v same = eq_tabulate t.values (a * b * c) f nought v.stored λ idx h.
      ap (λ i. get_or t.values i nought)
        (sym (
          offset3_row nought a b c t v (idx / (b * c)) (idx % (b * c) / c) (idx % (b * c) % c)
          ∙ (index3 a b c idx h).whole))
      ∙ same idx h

  pub values-at2 :
      (a b : ℕ) (t : Tensor F) (f : ℕ → F)
      → Is2d a b t
      → ((idx : ℕ) → idx < a * b → at2 nought t (idx / b) (idx % b) ≡ f idx)
      → t.values ≡ tabulate (a * b) f
  values-at2 a b t f v same = eq_tabulate t.values (a * b) f nought v.stored λ idx h.
      ap (λ i. get_or t.values i nought) (sym (div-add-mod' idx b))
      ∙ sym (at2_row nought a b t v (idx / b) (idx % b))
      ∙ same idx h
