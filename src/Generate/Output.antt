-- ===== src/Generate/Output.antt =====
-- cpp/src/generate.cpp: what generate returns.
use nanoinfer.Prelude.{
  ℕ, ◌<◌, ◌≤◌, ◌≡◌, Bool, true, false, List, [], ◌∷◌, ◌++◌, length, get_or, Method,
}
use nanoinfer.Prelude.Methods.{pure}
use nanoinfer.Floats.{FloatOps}
use nanoinfer.Tensor.{Tensor}
use nanoinfer.Sampling.{Algorithms, sample_next_token}
use nanoinfer.Model.{Model}
use nanoinfer.Model.Caches.{KvCacheBase}
use nanoinfer.Generate.{GenerateConfig, stops, last_row, generate_loop}

-- At most `most` tokens, none of which ends the text.
pub record IsOutput (eos most : ℕ) (out : List ℕ) : Type 0 where
  pub bounded : length out ≤ most
  pub unfinished : (i : ℕ) → i < length out → stops eos (get_or out i 0) ≡ false

module _ (fp : FloatOps) (alg : Algorithms fp.Float fp.Double) (engine : ℕ → alg.Rng)
    (partial_sort : (ℕ → ℕ → Bool) → ℕ → List ℕ → List ℕ) (m : Model fp.Float) {World : Type 0}
    (store : KvCacheBase fp.Float World) where
  open fp use {Float}
  open alg use {Rng}
  open store use {Ref}

  module _ (cfg : GenerateConfig Float) (cache : Ref) where
    -- A round after the call of the model.
    unfoldable after : ℕ → List ℕ → List ℕ → Rng → Tensor Float → Method World (List ℕ)
    after steps ids out rng logits =
        let (next, rng') =
          sample_next_token fp alg (last_row fp alg engine partial_sort m store logits) cfg.params
            ids rng in
        elim (stops cfg.eos_id next) [
          | true ↦ pure out
          | false ↦
              generate_loop fp alg engine partial_sort m store cfg cache steps (next ∷ [])
                (ids ++ (next ∷ [])) (out ++ (next ∷ [])) rng'
        ]
