-- ===== src/Sampling/Greedy.antt =====
-- cpp/src/sampling.cpp: at temperature 0, the distribution and the draw agree.
use nanoinfer.Prelude.{
  ℕ, ◌<◌, ◌≡◌, refl, ap, ◌∙◌, true, List, arith, length, get_or, replicate, length-replicate,
  get_or-set, get_or-replicate, ◌==◌, if◌then◌else◌,
}
use nanoinfer.Floats.{FloatOps}
use nanoinfer.Sampling.{
  Algorithms, SamplingParams, argmax, greedy, sample_next_token, token_probs,
  apply_repetition_penalty,
}
use nanoinfer.Sampling.Argmax.{argmax-lt}
use nanoinfer.Sampling.Penalty.{length-apply_repetition_penalty}

module _ (fp : FloatOps) (lib : Algorithms (fp.Float) (fp.Double)) where
  open fp use {Float, zero_f, one_f}
  open lib use {Rng}

  -- With greedy parameters and at least one logit, `sample_next_token` returns a token of the vocabulary and
  -- leaves the random engine alone, and `token_probs` is 1 at that token and 0 elsewhere.
  pub token_probs-greedy :
      (logits : List Float) (params : SamplingParams Float) (context : List ℕ) (rng : Rng)
      → greedy fp params ≡ true
      → 0 < length logits
      → let (next, after) = sample_next_token fp lib logits params context rng in
        (next < length logits)
        × (after ≡ rng)
        × ((i : ℕ)
            → get_or (token_probs fp lib logits params context) i zero_f
              ≡ (if next == i then one_f else zero_f))
  unfolding sample_next_token token_probs
  token_probs-greedy logits params context rng g pos =
      let shaped = apply_repetition_penalty fp lib params.repetition_penalty context logits in
      let same : length shaped ≡ length logits =
        length-apply_repetition_penalty fp lib params.repetition_penalty context logits in
      let inside : argmax fp shaped < length shaped = argmax-lt fp shaped (omega arith) in
      simp g (
        rw same at inside,
        refl,
        λ i.
            get_or-set (replicate (length shaped) zero_f) (argmax fp shaped) i one_f zero_f
              (rw (length-replicate (length shaped) zero_f) inside)
            ∙ ap (λ x. if argmax fp shaped == i then one_f else x)
                (get_or-replicate (length shaped) i zero_f),
      )
