-- ===== src/Sampling/Penalty.antt =====
-- cpp/src/sampling.cpp: apply_repetition_penalty changes the logits of the context's tokens, each once.
use nanoinfer.Prelude.{
  ℕ, ◌^◌, ◌<◌, ◌≡◌, ◌≢◌, refl, sym, ap, subst, ◌∙◌, inl, inr, false, ◌||◌, List, [], ◌∷◌, arith,
  length, length-set, get_or-set_self, get_or-set_ne, count, count-cons, count-nil, leb, ◌==◌,
  if◌then◌else◌, is_negative, Bool-cases, ℕ_discrete,
}
use nanoinfer.Floats.{FloatOps}
use nanoinfer.Sampling.{Algorithms, at, penalized, penalize, penalize_all, apply_repetition_penalty}

-- What an `unordered_set` of a vector holds: every element of the vector once.
abbrev pub IsSetOf : (List ℕ → List ℕ) → Type 0
IsSetOf distinct =
    (xs : List ℕ) (a : ℕ) → count a (distinct xs) ≡ (if count a xs == 0 then 0 else 1)

module _ (fp : FloatOps) where
  open fp use {Float, Double, eq_f, one_f}

  length-penalize :
      (penalty : Float) (id : ℕ) (v : List Float) → length (penalize fp penalty id v) ≡ length v
  length-penalize penalty id v = elim (Bool-cases (is_negative id || leb (length v) id)) [
    | inl out ↦ rw out refl
    | inr ins ↦ rw ins (length-set v id _)
  ]

  pub length-penalize_all :
      (penalty : Float) (ids : List ℕ) (v : List Float)
      → length (penalize_all fp penalty ids v) ≡ length v
  unfolding penalize_all
  length-penalize_all penalty [] v = refl
  length-penalize_all penalty (id ∷ ids) v =
      length-penalize_all penalty ids (penalize fp penalty id v) ∙ length-penalize penalty id v

  penalize_self :
      (penalty : Float) (i : ℕ) (v : List Float)
      → i < length v
      → i < 2 ^ 63
      → at fp (penalize fp penalty i v) i ≡ penalized fp penalty (at fp v i)
  penalize_self penalty i v h small =
      let e : (is_negative i || leb (length v) i) ≡ false = ground arith in
      rw e (get_or-set_self v i _ _ h)

  penalize_other :
      (penalty : Float) (id i : ℕ) (v : List Float)
      → id ≢ i
      → at fp (penalize fp penalty id v) i ≡ at fp v i
  penalize_other penalty id i v ne = elim (Bool-cases (is_negative id || leb (length v) id)) [
    | inl out ↦ rw out refl
    | inr ins ↦ rw ins (get_or-set_ne v id i _ _ ne)
  ]

  penalize_all_absent :
      (penalty : Float) (ids : List ℕ) (v : List Float) (i : ℕ)
      → count i ids ≡ 0
      → at fp (penalize_all fp penalty ids v) i ≡ at fp v i
  unfolding penalize_all
  penalize_all_absent penalty [] v i h = refl
  penalize_all_absent penalty (id ∷ ids) v i h =
      penalize_all_absent penalty ids (penalize fp penalty id v) i
        (ground (arith, count-cons i id ids))
      ∙ penalize_other penalty id i v (ground (arith, count-cons i id ids))

  penalize_all_once :
      (penalty : Float) (ids : List ℕ) (v : List Float) (i : ℕ)
      → i < length v
      → i < 2 ^ 63
      → count i ids ≡ 1
      → at fp (penalize_all fp penalty ids v) i ≡ penalized fp penalty (at fp v i)
  unfolding penalize_all
  penalize_all_once penalty [] v i h small c = absurd (omega (arith, count-nil i))
  penalize_all_once penalty (id ∷ ids) v i h small c = elim (ℕ_discrete id i) [
    | yes e ↦
        penalize_all_absent penalty ids (penalize fp penalty id v) i
          (ground (arith, count-cons i id ids))
        ∙ subst (λ k. at fp (penalize fp penalty k v) i ≡ penalized fp penalty (at fp v i)) (sym e)
            (penalize_self penalty i v h small)
    | no ne ↦
        penalize_all_once penalty ids (penalize fp penalty id v) i
          (rw (length-penalize penalty id v) h) small (ground (arith, count-cons i id ids))
        ∙ ap (penalized fp penalty) (penalize_other penalty id i v ne)
  ]

  module _ (lib : Algorithms Float Double) where
    open lib use {distinct}

    pub length-apply_repetition_penalty :
        (penalty : Float) (context : List ℕ) (v : List Float)
        → length (apply_repetition_penalty fp lib penalty context v) ≡ length v
    unfolding apply_repetition_penalty
    length-apply_repetition_penalty penalty context v = elim (Bool-cases (eq_f penalty one_f)) [
      | inl off ↦ rw off refl
      | inr on ↦ rw on (length-penalize_all penalty (distinct context) v)
    ]

    -- With a penalty other than 1, a token of the context is penalized once, however often it occurs there
    -- and in whatever order the set is walked, and the other logits stay.
    pub apply_repetition_penalty-at :
        (penalty : Float) (context : List ℕ) (v : List Float) (i : ℕ)
        → IsSetOf distinct
        → eq_f penalty one_f ≡ false
        → i < length v
        → i < 2 ^ 63
        → at fp (apply_repetition_penalty fp lib penalty context v) i
          ≡ (if count i context == 0 then at fp v i else penalized fp penalty (at fp v i))
    unfolding apply_repetition_penalty
    apply_repetition_penalty-at penalty context v i once on h small =
        elim (Bool-cases (count i context == 0)) [
          | inl absent ↦
              rw (on, absent)
                (penalize_all_absent penalty (distinct context) v i
                  (once context i ∙ rw absent refl))
          | inr there ↦
              rw (on, there)
                (penalize_all_once penalty (distinct context) v i h small
                  (once context i ∙ rw there refl))
        ]
