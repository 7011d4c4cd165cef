-- ===== src/Generate.antt =====
-- cpp/src/generate.hpp and generate.cpp: the loop that generates tokens.
pub mod Output
mod Tests
use nanoinfer.Prelude.{
  ℕ, zero, suc, ◌+◌, ◌-◌, ◌%◌, ◌^◌, Bool, true, false, not, ◌&&◌, List, [], ◌∷◌, ◌++◌, map, Option,
  some, length, ◌==◌, if◌then◌else◌, is_negative, Result, ok, throw, Method,
}
use nanoinfer.Prelude as Results
use nanoinfer.Prelude.Methods.{pure, run, ◌>>=◌, ◌>>◌}
use nanoinfer.Floats.{FloatOps}
use nanoinfer.Tensor.{Tensor, size, at2}
use nanoinfer.Sampling.{Algorithms, SamplingParams, validate, sample_next_token, iota}
use nanoinfer.Model.{Model}
use nanoinfer.Model.Caches.{KvCacheBase}
use nanoinfer.Model.Forward.{forward}

-- `max_tokens` is an `int` and `eos_id` an `int64_t`, both extended to 64-bit patterns.
pub record GenerateConfig (F : Type 0) : Type 0 where
  pub max_tokens : ℕ
  pub params : SamplingParams F
  pub seed : ℕ
  pub eos_id : ℕ

-- `cfg.eos_id >= 0 && next == cfg.eos_id`
abbrev pub stops : ℕ → ℕ → Bool
stops eos next = not (is_negative eos) && next == eos

-- The rounds of `step < max_tokens`.
abbrev pub rounds : ℕ → ℕ
rounds max_tokens = if is_negative max_tokens then 0 else max_tokens

abbrev pub is_empty : List ℕ → Bool
is_empty [] = true
is_empty (x ∷ xs) = false

-- `engine` is the random engine of a seed.
module _ (fp : FloatOps) (alg : Algorithms fp.Float fp.Double) (engine : ℕ → alg.Rng)
    (partial_sort : (ℕ → ℕ → Bool) → ℕ → List ℕ → List ℕ) (m : Model fp.Float) {World : Type 0}
    (store : KvCacheBase fp.Float World) where
  open fp use {Float, zero_f}
  open alg use {Rng}
  open store use {Ref}

  -- The row of logits after the last token.
  unfoldable pub last_row : Tensor Float → List Float
  unfolding iota
  last_row logits = map (λ j. at2 zero_f logits (size logits 0 - 1) j) (iota (size logits 1) 0)

  unfoldable pub generate_loop :
      GenerateConfig Float → Ref → ℕ → List ℕ → List ℕ → List ℕ → Rng → Method World (List ℕ)
  unfolding forward last_row
  generate_loop cfg cache zero cur ids generated rng = pure generated
  generate_loop cfg cache (suc steps) cur ids generated rng = do
    logits ← forward fp partial_sort m store cur (some cache)
    let (next, rng') = sample_next_token fp alg (last_row logits) cfg.params ids rng in
        elim (stops cfg.eos_id next) [
          | true ↦ pure generated
          | false ↦
              generate_loop cfg cache steps (next ∷ []) (ids ++ (next ∷ []))
                (generated ++ (next ∷ [])) rng'
        ]

  -- `create` is `make_kv_cache`: the cache and the state of the caches.
  unfoldable pub generate :
      (ℕ → Result (Ref × World)) → GenerateConfig Float → List ℕ → Result (List ℕ)
  unfolding generate_loop
  generate create cfg prompt = Results.◌>>◌ (validate fp cfg.params) (
      if is_empty prompt
      then ok []
      else Results.◌>>=◌ (create ((length prompt + cfg.max_tokens) % 2 ^ 64)) λ made.
        (generate_loop cfg (made.0) (rounds cfg.max_tokens) prompt prompt [] (engine cfg.seed)
          (made.1)).0)
