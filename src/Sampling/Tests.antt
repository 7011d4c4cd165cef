-- ===== src/Sampling/Tests.antt =====
-- An instance of the C++ library's algorithms, and the witnesses of the theorems on sampling.
use nanoinfer.Prelude.{
  ℕ, ◌+◌, ◌<◌, ◌≡◌, refl, inl, inr, List, [], ◌∷◌, arith, get_or, count, count-cons, count-nil,
  ◌==◌, if◌then◌else◌, Bool-cases,
}
use nanoinfer.Prelude.Loops.{for_range}
use nanoinfer.Ops.Tests.{numbers}
use nanoinfer.Sampling.{
  Algorithms, SamplingParams, at, argmax, greedy, penalized, apply_repetition_penalty, penalize_all,
  sample_next_token, token_probs,
}
use nanoinfer.Sampling.Argmax.{IsOrder, IsFirst, argmax-IsFirst}
use nanoinfer.Sampling.Penalty.{IsSetOf, apply_repetition_penalty-at}
use nanoinfer.Sampling.Greedy.{token_probs-greedy}

unfoldable pub remove : ℕ → List ℕ → List ℕ
remove a [] = []
remove a (x ∷ xs) = let rest = remove a xs in if a == x then rest else x ∷ rest

unfoldable pub first_seen : List ℕ → List ℕ
first_seen [] = []
first_seen (x ∷ xs) = x ∷ remove x (first_seen xs)

count-remove : (a b : ℕ) (xs : List ℕ) → count b (remove a xs) ≡ (if a == b then 0 else count b xs)
unfolding remove
count-remove a b [] = ground (arith, count-nil b)
count-remove a b (x ∷ xs) = elim (Bool-cases (a == x)) [
  | inl e ↦ rw e (ground (arith, count-remove a b xs, count-cons b x xs))
  | inr ne ↦
      rw ne (ground (arith, count-remove a b xs, count-cons b x xs, count-cons b x (remove a xs)))
]

first_seen-IsSetOf : IsSetOf first_seen
unfolding first_seen
first_seen-IsSetOf [] a = ground (arith, count-nil a)
first_seen-IsSetOf (x ∷ xs) a = ground (
  arith,
  first_seen-IsSetOf xs a,
  count-cons a x xs,
  count-cons a x (remove x (first_seen xs)),
  count-remove x a (first_seen xs),
)

abbrev pub algorithms : Algorithms ℕ ℕ
algorithms = record {
  Rng = ℕ;
  distinct = first_seen;
  nth_largest = λ k xs. get_or xs k 0;
  sort_by = λ before xs. xs;
  max_element = λ xs. get_or xs 0 0;
  draw = λ ws rng. (0, rng + 1);
}

abbrev pub params : SamplingParams ℕ
params = record { temperature = 0; top_k = 0; top_p = 1; repetition_penalty = 2 }

abbrev logits : List ℕ
logits = 4 ∷ 9 ∷ 6 ∷ 9 ∷ []

-- Of equal logits, the first.
argmax_of_logits : argmax numbers logits ≡ 1
unfolding argmax for_range
argmax_of_logits = refl

penalty_once :
    apply_repetition_penalty numbers algorithms 2 (1 ∷ 3 ∷ 1 ∷ []) logits ≡ 4 ∷ 4 ∷ 6 ∷ 4 ∷ []
unfolding apply_repetition_penalty penalize_all penalized first_seen remove
penalty_once = refl

ℕ-IsOrder : IsOrder numbers (λ n. Unit {0})
ℕ-IsOrder = record {
  irrefl = λ a _. ground arith;
  trans = λ a b c _ _ _ h k. ground arith;
  cotrans = λ a b c _ _ _ h k. ground arith;
}

argmax-IsFirst_example :
    IsFirst numbers (λ n. Unit {0}) ℕ-IsOrder logits (λ _ _. tt) 4 (argmax numbers logits)
argmax-IsFirst_example =
    argmax-IsFirst numbers (λ n. Unit {0}) ℕ-IsOrder logits (λ _ _. tt) (omega arith)

apply_repetition_penalty-at_example :
    at numbers (apply_repetition_penalty numbers algorithms 2 (1 ∷ 3 ∷ 1 ∷ []) logits) 1
    ≡ (if count 1 (1 ∷ 3 ∷ 1 ∷ []) == 0 then 9 else penalized numbers 2 9)
apply_repetition_penalty-at_example =
    apply_repetition_penalty-at numbers algorithms 2 (1 ∷ 3 ∷ 1 ∷ []) logits 1 first_seen-IsSetOf
      refl (omega arith) (omega arith)

token_probs-greedy_example :
    let (next, after) = sample_next_token numbers algorithms logits params (1 ∷ []) 7 in
    (next < 4)
    × (after ≡ 7)
    × ((i : ℕ)
        → get_or (token_probs numbers algorithms logits params (1 ∷ [])) i 0
          ≡ (if next == i then 1 else 0))
unfolding greedy
token_probs-greedy_example =
    token_probs-greedy numbers algorithms logits params (1 ∷ []) 7 refl (omega arith)
