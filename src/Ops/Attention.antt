-- ===== src/Ops/Attention.antt =====
-- cpp/src/ops.cpp: attention; cpp/src/simd.hpp: the scalar dot product of a build without AVX2 or NEON.
pub mod Agreement
pub mod Visible
use nanoinfer.Prelude.{
  ℕ, ◌+◌, ◌*◌, ◌-◌, Bool, not, ◌&&◌, ◌||◌, List, [], ◌∷◌, length, get_or, set, replicate, ◌==◌,
  if◌then◌else◌, Result, ok, throw,
}
use nanoinfer.Prelude.Loops.{for_range, for3}
use nanoinfer.Floats.{FloatOps}
use nanoinfer.Tensor.{Tensor, cpu, make_tensor, ndim, size}
use nanoinfer.Ops.Heads.{require}

module _ (fp : FloatOps) where
  open fp use {
    Float, Double, zero_f, one_f, neg_inf, zero_d, one_d, of_ℕ, widen, narrow, sub_f, mul_f, div_f,
    add_d, mul_d, div_d, gt_f, exp_f, sqrt_f,
  }

  -- A pointer is the function that reads from it.
  unfoldable pub dot_f32 : (ℕ → Float) → (ℕ → Float) → ℕ → Double
  dot_f32 a b n = for_range n 0 (λ i total. add_d total (mul_d (widen (a i)) (widen (b i)))) zero_d

  -- `data()[i]`
  abbrev pub flat : Tensor Float → ℕ → Float
  flat t i = get_or t.values i zero_f

  abbrev pub set_flat : Tensor Float → ℕ → Float → Tensor Float
  set_flat t i x = record t { values = set t.values i x }

  -- `scores[j] = s; if (s > maxv) maxv = s`
  unfoldable pub score_pass :
      (ℕ → Float) → (ℕ → ℕ → Float) → ℕ → Float → ℕ → List Float × Float → List Float × Float
  unfolding dot_f32
  score_pass q key dim scale limit start =
      for_range limit 0
        (λ j st.
          let s = mul_f (narrow (dot_f32 q (key j) dim)) scale in
          (set (st.0) j s, if gt_f s (st.1) then s else st.1))
        start

  -- `e = exp(scores[j] - maxv); scores[j] = e; denom += e`
  unfoldable pub exp_pass : Float → ℕ → List Float × Double → List Float × Double
  exp_pass maxv limit start =
      for_range limit 0
        (λ j st.
          let e = exp_f (sub_f (get_or (st.0) j zero_f) maxv) in
          (set (st.0) j e, add_d (st.1) (widen e)))
        start

  -- The scores after the second pass, and `inv`.
  unfoldable pub softmax_of : ℕ → List Float × Float → List Float × Float
  unfolding exp_pass
  softmax_of limit scored =
      let (exps, denom) = exp_pass (scored.1) limit (scored.0, zero_d) in
      (exps, narrow (div_d one_d denom))

  -- The softmax of one query over the first `limit` keys; `scores` has room for all `keys`.
  unfoldable pub weights : (ℕ → Float) → (ℕ → ℕ → Float) → ℕ → Float → ℕ → ℕ → List Float × Float
  unfolding score_pass softmax_of
  weights q key dim scale keys limit =
      softmax_of limit (score_pass q key dim scale limit (replicate keys zero_f, neg_inf))

  -- `acc += double(scores[j]) * inv * v_j[d]`
  unfoldable pub mix : List Float × Float → (ℕ → ℕ → Float) → ℕ → ℕ → Float
  mix w value limit d = narrow (
      for_range limit 0
        (λ j acc.
          add_d acc
            (mul_d (mul_d (widen (get_or (w.0) j zero_f)) (widen (w.1))) (widen (value j d))))
        zero_d)

  -- The loops over heads, queries and dimensions, which `attention` and `PagedKVCache::attend` share
  -- but for how they read key `j` and value `j` of head `h`.
  unfoldable pub attend_heads :
      Tensor Float → (ℕ → ℕ → ℕ → Float) → (ℕ → ℕ → ℕ → Float) → ℕ → Bool → ℕ → Tensor Float
  unfolding weights mix
  attend_heads q key value keys causal query_offset =
      let heads = size q 0 in
      let sq = size q 1 in
      let dim = size q 2 in
      let scale = div_f one_f (sqrt_f (of_ℕ dim)) in
      for3 heads sq dim
        (λ h i d out.
          let limit = if causal then query_offset + i + 1 else keys in
          let w = weights (λ x. flat q (h * sq * dim + i * dim + x)) (key h) dim scale keys limit in
          set_flat out ((h * sq + i) * dim + d) (mix w (value h) limit d))
        (make_tensor zero_f (heads ∷ sq ∷ dim ∷ []) cpu)

  unfoldable pub attention :
      Tensor Float → Tensor Float → Tensor Float → Bool → ℕ → Result (Tensor Float)
  unfolding ndim
  attention q k v causal query_offset = require (ndim q == 3 && (ndim k == 3 && ndim v == 3)) (
      require (size k 0 == size q 0 && size v 0 == size q 0) (
        require (size k 2 == size q 2 && size v 2 == size q 2) (
          require (size v 1 == size k 1) (
            require (not causal || query_offset + size q 1 == size k 1) (
              ok (
                attend_heads q (λ h j x. flat k (h * size k 1 * size q 2 + j * size q 2 + x))
                  (λ h j x. flat v (h * size k 1 * size q 2 + j * size q 2 + x)) (size k 1) causal
                  query_offset))))))
