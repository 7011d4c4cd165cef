-- ===== src/Ops/Attention/Agreement.antt =====
-- cpp/src/ops.cpp: attention on caches that agree up to the number of keys, and on the entries of tensors.
use nanoinfer.Prelude.{
  ℕ, ◌+◌, ◌*◌, ◌≤◌, ◌<◌, ◌≡◌, refl, ap, ◌∙◌, Bool, true, List, arith, if◌then◌else◌, set, get_or,
  replicate, not, ◌&&◌, ◌||◌, ◌==◌, sym, ==_refl, ok,
}
use nanoinfer.Prelude.Loops.{for_range-cong, for3-cong}
use native.Mathlib.Nat.{le_trans}
use nanoinfer.Floats.{FloatOps}
use nanoinfer.Tensor.{Tensor, ndim, size, at3}
use nanoinfer.Tensor.Access.{Is3d, offset3_row}
use nanoinfer.Ops.Attention.{
  dot_f32, score_pass, weights, softmax_of, mix, attend_heads, attention, flat, set_flat,
}

limit-le :
    (causal : Bool) (off sq i keys : ℕ)
    → off + sq ≤ keys
    → i < sq
    → (if causal then off + i + 1 else keys) ≤ keys
limit-le causal off sq i keys room h = ground arith

module _ (fp : FloatOps) where
  open fp use {
    Float, Double, zero_f, one_f, neg_inf, div_f, of_ℕ, sqrt_f, mul_f, narrow, gt_f, add_d, mul_d,
    widen, zero_d,
  }

  dot_f32-cong :
      (a b b' : ℕ → Float) (n : ℕ)
      → ((i : ℕ) → i < n → b i ≡ b' i)
      → dot_f32 fp a b n ≡ dot_f32 fp a b' n
  unfolding dot_f32
  dot_f32-cong a b b' n same =
      for_range-cong _ _ n 0 zero_d
        λ i total _ h. ap (λ x. add_d total (mul_d (widen (a i)) (widen x))) (same i (omega arith))

  score_pass-cong :
      (q : ℕ → Float) (key key' : ℕ → ℕ → Float) (dim : ℕ) (scale : Float) (limit : ℕ)
      (st : List Float × Float)
      → ((j x : ℕ) → j < limit → x < dim → key j x ≡ key' j x)
      → score_pass fp q key dim scale limit st ≡ score_pass fp q key' dim scale limit st
  unfolding score_pass
  score_pass-cong q key key' dim scale limit st same = for_range-cong _ _ limit 0 st λ j t _ h.
      ap
        (λ (dot : Double).
          let s = mul_f (narrow dot) scale in
          let r : List Float × Float = (set (t.0) j s, if gt_f s (t.1) then s else t.1) in r)
        (dot_f32-cong q (key j) (key' j) dim λ x hx. same j x (omega arith) hx)

  pub weights-cong :
      (q : ℕ → Float) (key key' : ℕ → ℕ → Float) (dim : ℕ) (scale : Float) (keys limit : ℕ)
      → ((j x : ℕ) → j < limit → x < dim → key j x ≡ key' j x)
      → weights fp q key dim scale keys limit ≡ weights fp q key' dim scale keys limit
  unfolding weights
  weights-cong q key key' dim scale keys limit same =
      ap (softmax_of fp limit)
        (score_pass-cong q key key' dim scale limit (replicate keys zero_f, neg_inf) same)

  pub mix-cong :
      (w : List Float × Float) (value value' : ℕ → ℕ → Float) (limit d : ℕ)
      → ((j : ℕ) → j < limit → value j d ≡ value' j d)
      → mix fp w value limit d ≡ mix fp w value' limit d
  unfolding mix
  mix-cong w value value' limit d same = ap narrow (
      for_range-cong _ _ limit 0 zero_d λ j acc _ h.
        ap (λ x. add_d acc (mul_d (mul_d (widen (get_or (w.0) j zero_f)) (widen (w.1))) (widen x)))
          (same j (omega arith)))

  -- Two ways to read the keys and values that agree on the first `keys` positions give the same output.
  pub attend_heads-cong :
      (q : Tensor Float) (key key' value value' : ℕ → ℕ → ℕ → Float) (keys : ℕ) (causal : Bool)
      (query_offset : ℕ)
      → query_offset + size q 1 ≤ keys
      → ((h j x : ℕ) → h < size q 0 → j < keys → x < size q 2 → key h j x ≡ key' h j x)
      → ((h j x : ℕ) → h < size q 0 → j < keys → x < size q 2 → value h j x ≡ value' h j x)
      → attend_heads fp q key value keys causal query_offset
        ≡ attend_heads fp q key' value' keys causal query_offset
  unfolding attend_heads
  attend_heads-cong q key key' value value' keys causal off room same_key same_value =
      for3-cong _ _ (size q 0) (size q 1) (size q 2) _ λ h i d out hh hi hd.
        let limit : ℕ = if causal then off + i + 1 else keys in
        let visible : limit ≤ keys = limit-le causal off (size q 1) i keys room hi in
        ap (set_flat fp out ((h * size q 1 + i) * size q 2 + d)) (
          ap (λ (w : List Float × Float). mix fp w (value h) limit d)
            (weights-cong _ (key h) (key' h) (size q 2) _ keys limit
              λ j x hj hx. same_key h j x hh (le_trans hj visible) hx)
          ∙ mix-cong _ (value h) (value' h) limit d
              (λ j hj. same_value h j d hh (le_trans hj visible) hd))

  flat-at3 :
      (a b c n : ℕ) (t : Tensor Float)
      → Is3d a b c t
      → n ≡ c
      → (h j x : ℕ) → flat fp t (h * size t 1 * n + j * n + x) ≡ at3 zero_f t h j x
  unfolding at3
  flat-at3 a b c n t v e h j x =
      ap (λ i. get_or t.values i zero_f)
        (rw (v.shape, e) (grind arith) ∙ sym (offset3_row zero_f a b c t v h j x))

  -- `attention` on tensors of matching shapes, the queries the last positions, reads the entries of the
  -- keys and values.
  pub attention-eq :
      (heads sq sk dim : ℕ) (q k v : Tensor Float) (causal : Bool) (off : ℕ)
      → Is3d heads sq dim q
      → Is3d heads sk dim k
      → Is3d heads sk dim v
      → off + sq ≡ sk
      → attention fp q k v causal off
        ≡ ok (attend_heads fp q (at3 zero_f k) (at3 zero_f v) sk causal off)
  unfolding attention
  attention-eq heads sq sk dim q k v causal off wq wk wv end =
      simp (dims, all_heads, all_dims, lengths, positions)
        (ap ok (
          attend_heads-cong q _ _ _ _ (size k 1) causal off (rw (wq.shape, wk.shape) (omega arith))
            (λ h j x _ _ _. flat-at3 heads sk dim (size q 2) k wk (rw wq.shape refl) h j x)
            (λ h j x _ _ _.
              rw (lengths_eq) at (flat-at3 heads sk dim (size q 2) v wv (rw wq.shape refl) h j x))
          ∙ ap (λ n. attend_heads fp q (at3 zero_f k) (at3 zero_f v) n causal off)
              (rw wk.shape refl)))
    where
      lengths_eq : size v 1 ≡ size k 1
      lengths_eq = rw (wv.shape, wk.shape) refl

      dims : (ndim q == 3 && (ndim k == 3 && ndim v == 3)) ≡ true
      dims = rw (wq.shape, wk.shape, wv.shape) refl

      all_heads : (size k 0 == size q 0 && size v 0 == size q 0) ≡ true
      all_heads = rw (wq.shape, wk.shape, wv.shape, ==_refl heads) refl

      all_dims : (size k 2 == size q 2 && size v 2 == size q 2) ≡ true
      all_dims = rw (wq.shape, wk.shape, wv.shape, ==_refl dim) refl

      lengths : (size v 1 == size k 1) ≡ true
      lengths = rw (wk.shape, wv.shape, ==_refl sk) refl

      positions : (not causal || off + size q 1 == size k 1) ≡ true
      positions = rw (wq.shape, wk.shape) (ground arith)
