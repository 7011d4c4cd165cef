-- ===== src/Cuda/Attention/Rows.antt =====
-- cpp/src/cuda/cuda_backend.cu: the rows of the output of attention, one for each head and query.
use native.Mathlib.Nat.{div-add-mod', mod-lt}
use nanoinfer.Prelude.{
  ℕ, ◌+◌, ◌*◌, ◌/◌, ◌%◌, ◌^◌, ◌≤◌, ◌<◌, ◌≡◌, ◌≢◌, refl, sym, ap, subst, ◌∙◌, true, false, List,
  arith, length, get_or, length-set, get_or-set_self, get_or-set_ne, leb, ◌==◌, ne→==, ok, inl, inr,
  Bool-cases,
}
use nanoinfer.Prelude.Arith.{div_row, div-lt_of_lt_mul}
use nanoinfer.Prelude.Loops.{for_range-keep, for_range-hit, for_range-miss}
use nanoinfer.Prelude.Tabulate.{tabulate}
use nanoinfer.Floats.{FloatOps}
use nanoinfer.Cuda.Launch.{Order, IsOrder, launch}
use nanoinfer.Cuda.Launch.Owners.{IsShared, run_threads-IsShared}
use nanoinfer.Cuda.Launch.Writes.{lt→leb_false}
use nanoinfer.Cuda.Attention.{warp_pass, normalized, store_row}
use nanoinfer.Cuda.Attention.Kernels.{Inputs, query, limit, attention_warp_kernel}
use nanoinfer.Cuda.Attention.Method.{warp_blocks}

module _ (fp : FloatOps) where
  open fp use {Float, zero_f}

  module _ (base dim : ℕ) (f : ℕ → Float) where
    pub length-store_row : (o : List Float) → length (store_row fp base dim f o) ≡ length o
    unfolding store_row
    length-store_row o =
        for_range-keep (λ u. length u ≡ length o) _ (λ d u e. length-set u (base + d) (f d) ∙ e) dim
          0 o refl

    pub store_row_new :
        (o : List Float) (d : ℕ)
        → d < dim
        → base + d < length o
        → get_or (store_row fp base dim f o) (base + d) zero_f ≡ f d
    unfolding store_row
    store_row_new o d h inside =
        for_range-hit (λ u. length u ≡ length o) _ (λ d u e. length-set u (base + d) (f d) ∙ e)
          (λ u. get_or u (base + d) zero_f) d (f d) dim 0 o (omega arith) (omega arith)
          (λ u e. get_or-set_self u (base + d) (f d) zero_f (omega (arith, e)))
          (λ k u lo hi ne e.
            get_or-set_ne u (base + k) (base + d) (f k) zero_f (λ p. ne (omega (arith, p))))
          refl

    pub store_row_old :
        (o : List Float) (p : ℕ)
        → ((d : ℕ) → d < dim → base + d ≢ p)
        → get_or (store_row fp base dim f o) p zero_f ≡ get_or o p zero_f
    unfolding store_row
    store_row_old o p away =
        for_range-miss (λ u. length u ≡ length o) _ (λ d u e. length-set u (base + d) (f d) ∙ e)
          (λ u. get_or u p zero_f) dim 0 o
          (λ k u lo hi e. get_or-set_ne u (base + k) p (f k) zero_f (away k (omega arith))) refl

  module _ (a : Inputs Float) where
    open a use {heads, sq, keys, dim, scale, key, value}

    -- The row of head `h` and query `i`.
    unfoldable pub row : ℕ → ℕ → ℕ → Float
    row h i =
        normalized fp (warp_pass fp (query fp a h i) dim scale (key h) (value h) 0 (limit fp a i))

    -- Entry `p` of the output.
    unfoldable pub entry : ℕ → Float
    entry p = row (p / dim / sq) (p / dim % sq) (p % dim)

    warp_kernel_past :
        (i : ℕ) (o : List Float) → leb (heads * sq) i ≡ true → attention_warp_kernel fp a i o ≡ o
    unfolding attention_warp_kernel
    warp_kernel_past i o e = rw e

    warp_kernel_at :
        (i : ℕ) (o : List Float)
        → leb (heads * sq) i ≡ false
        → attention_warp_kernel fp a i o ≡ store_row fp (i * dim) dim (row (i / sq) (i % sq)) o
    unfolding attention_warp_kernel row
    warp_kernel_at i o e =
        rw e (ap (λ r. store_row fp (r * dim) dim (row (i / sq) (i % sq)) o) (div-add-mod' i sq))

    warp-IsShared :
        0 < dim
        → IsShared zero_f
            (heads * sq)
            (heads * sq * dim)
            (attention_warp_kernel fp a)
            (λ p. p / dim)
            entry
    unfolding entry
    warp-IsShared pos = record {
      owned = λ p h. div-lt_of_lt_mul dim p (heads * sq) h;
      keeps = λ i o. elim (Bool-cases (leb (heads * sq) i)) [
        | inl e ↦ ap length (warp_kernel_past i o e)
        | inr e ↦ ap length (warp_kernel_at i o e) ∙ length-store_row (i * dim) dim _ o
      ];
      hits = λ p o h e.
          let near : leb (heads * sq) (p / dim) ≡ false =
            lt→leb_false (p / dim) (heads * sq) (div-lt_of_lt_mul dim p (heads * sq) h) in
          let at : p / dim * dim + p % dim ≡ p = div-add-mod' p dim in
          ap (λ u. get_or u p zero_f) (warp_kernel_at (p / dim) o near)
          ∙ subst
              (λ q.
                get_or (store_row fp (p / dim * dim) dim (row (p / dim / sq) (p / dim % sq)) o) q
                  zero_f
                ≡ entry p)
              at
              (store_row_new (p / dim * dim) dim _ o (p % dim) (mod-lt p pos)
                (omega (arith, at, e)));
      misses = λ i p o h ne e. elim (Bool-cases (leb (heads * sq) i)) [
        | inl far ↦ ap (λ u. get_or u p zero_f) (warp_kernel_past i o far)
        | inr near ↦
            ap (λ u. get_or u p zero_f) (warp_kernel_at i o near)
            ∙ store_row_old (i * dim) dim _ o p
                (λ d hd eq. ne (sym (div_row dim i d hd) ∙ ap (λ q. q / dim) eq))
      ];
    }

    -- A launch of the kernel with one warp for each query fills the output with the rows.
    pub warp_launch :
        (order : Order) (out : List Float)
        → IsOrder order
        → 0 < dim
        → 0 < heads * sq
        → heads * sq ≤ 2 ^ 32
        → length out ≡ heads * sq * dim
        → launch order (warp_blocks (heads * sq)) 8 (attention_warp_kernel fp a) out
          ≡ ok (tabulate (heads * sq * dim) entry)
    unfolding launch
    warp_launch order out w pos some small room =
        let blocks = warp_blocks (heads * sq) in
        let there : (blocks == 0) ≡ false = ne→== blocks 0 (omega arith) in
        rw there (
          ap ok (
            run_threads-IsShared zero_f (heads * sq) (heads * sq * dim) (attention_warp_kernel fp a)
              (λ p. p / dim) entry (warp-IsShared pos) order (blocks * 8) out w (omega arith) room))
