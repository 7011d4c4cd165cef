-- ===== src/Sampling.antt =====
-- cpp/src/sampling.hpp and sampling.cpp: from a row of logits to the next token. Token ids are `int64_t`,
-- as bit patterns.
pub mod Argmax
pub mod Penalty
pub mod Greedy
pub mod Tests
use nanoinfer.Prelude.{
  ℕ, zero, suc, ◌+◌, ◌-◌, ◌≤◌, Bool, true, false, ◌||◌, not, List, [], ◌∷◌, map, length, get_or,
  set, replicate, leb, ltb, ◌==◌, if◌then◌else◌, is_negative, Result, ok, throw, invalid_argument,
}
use nanoinfer.Prelude.Loops.{for_range}
use nanoinfer.Floats.{FloatOps}

-- What the C++ library does with a vector: the distinct ids of a context in the order of an
-- `unordered_set`, `nth_element`, `sort` by a comparison, `max_element`, and the draw of a
-- `discrete_distribution` in a state of the random engine.
pub record Algorithms (F D : Type 0) : Type 1 where
  pub Rng : Type 0
  pub distinct : List ℕ → List ℕ
  pub nth_largest : ℕ → List F → F
  pub sort_by : (ℕ → ℕ → Bool) → List ℕ → List ℕ
  pub max_element : List F → F
  pub draw : List D → Rng → ℕ × Rng

pub record SamplingParams (F : Type 0) : Type 0 where
  pub temperature : F
  pub top_k : ℕ
  pub top_p : F
  pub repetition_penalty : F

-- 0, 1, ..., n - 1
unfoldable pub iota : ℕ → ℕ → List ℕ
iota zero i = []
iota (suc n) i = i ∷ iota n (i + 1)

module _ (fp : FloatOps) where
  open fp use {
    Float, Double, zero_f, one_f, neg_inf, zero_d, widen, narrow, mul_f, div_f, add_d, sub_d, div_d,
    gt_f, gt_d, eq_f, exp_d,
  }

  abbrev pub at : List Float → ℕ → Float
  at v i = get_or v i zero_f

  -- `if (v[i] > bv) { bv = v[i]; best = i; }`
  abbrev pub better : List Float → ℕ → ℕ × Float → ℕ × Float
  better v i best = if gt_f (at v i) (best.1) then (i, at v i) else best

  -- `v[0]` of an empty vector is not defined in C++, and the filler value here.
  unfoldable pub argmax : List Float → ℕ
  argmax v = (for_range (length v - 1) 1 (better v) (0, at v 0)).0

  unfoldable pub greedy : SamplingParams Float → Bool
  greedy params = eq_f params.temperature zero_f

  unfoldable pub validate : SamplingParams Float → Result (Unit {0})
  validate params =
      if gt_f zero_f params.temperature
      then throw invalid_argument
      else if gt_f zero_f params.repetition_penalty || eq_f params.repetition_penalty zero_f
      then throw invalid_argument
      else ok tt

  -- `s = (s > 0) ? s / penalty : s * penalty`
  unfoldable pub penalized : Float → Float → Float
  penalized penalty s = if gt_f s zero_f then div_f s penalty else mul_f s penalty

  -- The body of the loop over the distinct ids.
  abbrev pub penalize : Float → ℕ → List Float → List Float
  penalize penalty id logits =
      if is_negative id || leb (length logits) id
      then logits
      else set logits id (penalized penalty (at logits id))

  unfoldable pub penalize_all : Float → List ℕ → List Float → List Float
  unfolding penalized
  penalize_all penalty [] logits = logits
  penalize_all penalty (id ∷ ids) logits = penalize_all penalty ids (penalize penalty id logits)

  unfoldable pub apply_temperature : Float → List Float → List Float
  apply_temperature temperature logits = map (λ x. div_f x temperature) logits

  module _ (lib : Algorithms Float Double) where
    open lib use {Rng, distinct, nth_largest, sort_by, max_element, draw}

    unfoldable pub apply_repetition_penalty : Float → List ℕ → List Float → List Float
    unfolding penalize_all
    apply_repetition_penalty penalty context logits =
        if eq_f penalty one_f then logits else penalize_all penalty (distinct context) logits

    unfoldable pub apply_top_k : ℕ → List Float → List Float
    apply_top_k k logits =
        if is_negative k || (k == 0 || leb (length logits) k)
        then logits
        else let kth = nth_largest (k - 1) logits in
          map (λ x. if gt_f kth x then neg_inf else x) logits

    -- `e = exp(double(logits[idx[i]]) - maxv); prob[i] = e; denom += e`
    unfoldable pub prob_pass : List Float → List ℕ → Float → List Double × Double
    prob_pass logits idx maxv =
        for_range (length idx) 0
          (λ i st.
            let e = exp_d (sub_d (widen (at logits (get_or idx i 0))) (widen maxv)) in
            (set (st.0) i e, add_d (st.1) e))
          (replicate (length idx) zero_d, zero_d)

    -- `if (cum > p) logits[idx[i]] = -inf; cum += prob[i] / denom`
    unfoldable pub mask_pass : Float → List ℕ → List Double × Double → List Float → List Float
    mask_pass p idx probs logits =
        (for_range {S = List Float × Double} (length idx) 0
          (λ i st. (
            if gt_d (st.1) (widen p) then set (st.0) (get_or idx i 0) neg_inf else st.0,
            add_d (st.1) (div_d (get_or (probs.0) i zero_d) (probs.1)),
          ))
          (logits, zero_d)).0

    unfoldable pub apply_top_p : Float → List Float → List Float
    unfolding prob_pass mask_pass iota
    apply_top_p p logits =
        if gt_f p one_f || eq_f p one_f
        then logits
        else let idx = sort_by (λ a b. gt_f (at logits a) (at logits b)) (iota (length logits) 0) in
          mask_pass p idx (prob_pass logits idx (at logits (get_or idx 0 0))) logits

    unfoldable pub warp : SamplingParams Float → List Float → List Float
    unfolding apply_temperature apply_top_k apply_top_p
    warp params logits =
        apply_top_p params.top_p
          (apply_top_k params.top_k (apply_temperature params.temperature logits))

    -- `weights[i] = exp(double(logits[i]) - maxv)`
    unfoldable pub weights_of : List Float → List Double
    weights_of logits =
        let maxv = max_element logits in map (λ x. exp_d (sub_d (widen x) (widen maxv))) logits

    unfoldable pub sample_next_token : List Float → SamplingParams Float → List ℕ → Rng → ℕ × Rng
    unfolding apply_repetition_penalty greedy argmax warp weights_of
    sample_next_token logits params context rng =
        let shaped = apply_repetition_penalty params.repetition_penalty context logits in
        if greedy params then (argmax shaped, rng) else draw (weights_of (warp params shaped)) rng

    abbrev pub sum_of : List Double → Double → Double
    sum_of [] total = total
    sum_of (w ∷ ws) total = sum_of ws (add_d total w)

    unfoldable pub token_probs : List Float → SamplingParams Float → List ℕ → List Float
    unfolding apply_repetition_penalty greedy argmax warp weights_of
    token_probs logits params context =
        let shaped = apply_repetition_penalty params.repetition_penalty context logits in
        if greedy params
        then set (replicate (length shaped) zero_f) (argmax shaped) one_f
        else let w = weights_of (warp params shaped) in
          let denom = sum_of w zero_d in map (λ x. narrow (div_d x denom)) w
