-- ===== src/Ops/Attention/Visible.antt =====
-- cpp/src/ops.cpp: which keys and values an entry of the result of attention depends on.
use nanoinfer.Prelude.{
  ℕ, ◌+◌, ◌*◌, ◌≤◌, ◌<◌, ◌≡◌, sym, ap, subst, ◌∙◌, Bool, true, false, arith, if◌then◌else◌,
}
use nanoinfer.Prelude.Loops.{for3-hit}
use nanoinfer.Floats.{FloatOps}
use nanoinfer.Tensor.{Tensor, size, at3, set_at3}
use nanoinfer.Tensor.Access.{
  Is3d, make_tensor-Is3d, at3-set_at3_self, at3-set_at3_ne, set_at3-Is3d, offset3_row,
}
use nanoinfer.Ops.Attention.{weights, mix, attend_heads, flat, set_flat}
use nanoinfer.Ops.Attention.Agreement.{weights-cong, mix-cong}

-- Query `i` may see key `j` of `keys`: with a causal mask, its own position and those before it.
abbrev pub IsSeen : Bool → ℕ → ℕ → ℕ → ℕ → Type 0
IsSeen true query_offset keys i j = (j < keys) × (j ≤ query_offset + i)
IsSeen false query_offset keys i j = j < keys

limit-IsSeen :
    (causal : Bool) (off sq keys i j : ℕ)
    → off + sq ≤ keys
    → i < sq
    → j < (if causal then off + i + 1 else keys)
    → IsSeen causal off keys i j
limit-IsSeen true off sq keys i j room hi h = (omega arith, omega arith)
limit-IsSeen false off sq keys i j room hi h = h

module _ (fp : FloatOps) where
  open fp use {Float, zero_f, one_f, div_f, of_ℕ, sqrt_f}

  set_flat-eq :
      (a b c : ℕ) (t : Tensor Float)
      → Is3d a b c t
      → (i j k : ℕ) (x : Float) → set_flat fp t ((i * b + j) * c + k) x ≡ set_at3 t i j k x
  unfolding set_at3
  set_flat-eq a b c t v i j k x =
      ap (λ n. set_flat fp t n x) (sym (offset3_row zero_f a b c t v i j k))

  -- The entry that the loops write for head `h`, query `i` and dimension `d`.
  abbrev entry :
      Tensor Float → (ℕ → ℕ → ℕ → Float) → (ℕ → ℕ → ℕ → Float) → ℕ → Bool → ℕ → ℕ → ℕ → ℕ → Float
  entry q key value keys causal off h i d =
      let limit = if causal then off + i + 1 else keys in
      mix fp
        (weights fp (λ x. flat fp q (h * size q 1 * size q 2 + i * size q 2 + x)) (key h) (size q 2)
          (div_f one_f (sqrt_f (of_ℕ (size q 2)))) keys limit)
        (value h) limit d

  at3-attend_heads :
      (q : Tensor Float) (key value : ℕ → ℕ → ℕ → Float) (keys : ℕ) (causal : Bool) (off h i d : ℕ)
      → h < size q 0
      → i < size q 1
      → d < size q 2
      → at3 zero_f (attend_heads fp q key value keys causal off) h i d
        ≡ entry q key value keys causal off h i d
  unfolding attend_heads
  at3-attend_heads q key value keys causal off h i d hh hi hd =
      let a = size q 0 in
      let b = size q 1 in
      let c = size q 2 in
      let x : ℕ → ℕ → ℕ → Float = λ h i d. entry q key value keys causal off h i d in
      for3-hit (Is3d a b c) (λ h i d out. set_flat fp out ((h * b + i) * c + d) (x h i d))
        (λ h i d u w.
          subst (Is3d a b c) (sym (set_flat-eq a b c u w h i d (x h i d)))
            (set_at3-Is3d zero_f a b c u h i d (x h i d) w))
        a b c (λ u. at3 zero_f u h i d) h i d (x h i d) _ hh hi hd
        (λ u w.
          ap (λ t. at3 zero_f t h i d) (set_flat-eq a b c u w h i d (x h i d))
          ∙ at3-set_at3_self zero_f a b c u h i d (x h i d) w hh hi hd)
        (λ h' i' d' u hh' hi' hd' ne w.
          ap (λ t. at3 zero_f t h i d) (set_flat-eq a b c u w h' i' d' (x h' i' d'))
          ∙ at3-set_at3_ne zero_f a b c u h i d h' i' d' (x h' i' d') w hi hd hi' hd' ne)
        (make_tensor-Is3d zero_f a b c)

  -- An entry of the result of attention for a head and a query depends on the keys and values of that head
  -- that the query may see, and on no others: with a causal mask on none after its own position. The
  -- queries end within the keys.
  pub attend_heads-visible :
      (q : Tensor Float) (key key' value value' : ℕ → ℕ → ℕ → Float) (keys : ℕ) (causal : Bool)
      (query_offset h i d : ℕ)
      → query_offset + size q 1 ≤ keys
      → h < size q 0
      → i < size q 1
      → d < size q 2
      → ((j x : ℕ) → IsSeen causal query_offset keys i j → x < size q 2 → key h j x ≡ key' h j x)
      → ((j : ℕ) → IsSeen causal query_offset keys i j → value h j d ≡ value' h j d)
      → at3 zero_f (attend_heads fp q key value keys causal query_offset) h i d
        ≡ at3 zero_f (attend_heads fp q key' value' keys causal query_offset) h i d
  attend_heads-visible q key key' value value' keys causal off h i d room hh hi hd same_key
        same_value =
      let limit : ℕ = if causal then off + i + 1 else keys in
      let seen : (j : ℕ) → j < limit → IsSeen causal off keys i j =
        λ j hj. limit-IsSeen causal off (size q 1) keys i j room hi hj in
      at3-attend_heads q key value keys causal off h i d hh hi hd
      ∙ ap (λ w. mix fp w (value h) limit d)
          (weights-cong fp _ (key h) (key' h) (size q 2) _ keys limit
            λ j x hj hx. same_key j x (seen j hj) hx)
      ∙ mix-cong fp _ (value h) (value' h) limit d (λ j hj. same_value j (seen j hj))
      ∙ sym (at3-attend_heads q key' value' keys causal off h i d hh hi hd)
