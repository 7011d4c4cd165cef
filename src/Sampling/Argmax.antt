-- ===== src/Sampling/Argmax.antt =====
-- cpp/src/sampling.cpp: argmax picks the first of the greatest logits.
use nanoinfer.Prelude.{
  ℕ, zero, suc, ◌+◌, ◌-◌, ◌<◌, ◌≡◌, refl, sym, ap, subst, ◌∙◌, inl, inr, true, false, List, arith,
  length, Bool-cases, ℕ_discrete,
}
use nanoinfer.Prelude.Loops.{for_range}
use nanoinfer.Floats.{FloatOps}
use nanoinfer.Sampling.{at, better, argmax}

module _ (fp : FloatOps) where
  open fp use {Float, gt_f}

  -- What `>` satisfies on floats that are not NaN.
  pub record IsOrder (IsNumber : Float → Type 0) : Type 0 where
    pub irrefl : (a : Float) → IsNumber a → gt_f a a ≡ false
    pub trans :
        (a b c : Float)
        → IsNumber a
        → IsNumber b
        → IsNumber c
        → gt_f a b ≡ true
        → gt_f b c ≡ true
        → gt_f a c ≡ true
    pub cotrans :
        (a b c : Float)
        → IsNumber a
        → IsNumber b
        → IsNumber c
        → gt_f a b ≡ false
        → gt_f b c ≡ false
        → gt_f a c ≡ false

  module _ (IsNumber : Float → Type 0) (order : IsOrder IsNumber) (v : List Float)
      (numbers : (i : ℕ) → i < length v → IsNumber (at fp v i)) where
    -- `b` is the first of the greatest among the first `n` logits.
    pub record IsFirst (n b : ℕ) : Type 0 where
      pub inside : b < n
      pub greatest : (i : ℕ) → i < n → gt_f (at fp v i) (at fp v b) ≡ false
      pub first : (i : ℕ) → i < b → gt_f (at fp v b) (at fp v i) ≡ true

    -- The rounds of the loop so far.
    record IsBest (n : ℕ) (best : ℕ × Float) : Type 0 where
      value : best.1 ≡ at fp v (best.0)
      found : IsFirst n (best.0)

    asym : (a b : Float) → IsNumber a → IsNumber b → gt_f a b ≡ true → gt_f b a ≡ false
    asym a b na nb h = elim (Bool-cases (gt_f b a)) [
      | inl back ↦
          let t : gt_f a a ≡ true = order.trans a b a na nb na h back in
          let f = order.irrefl a na in cc
      | inr back ↦ back
    ]

    -- A logit above the greatest is above every logit that is not above the greatest.
    above :
        (a b c : Float)
        → IsNumber a
        → IsNumber b
        → IsNumber c
        → gt_f a b ≡ true
        → gt_f c b ≡ false
        → gt_f a c ≡ true
    above a b c na nb nc h k = elim (Bool-cases (gt_f a c)) [
      | inl above_c ↦ above_c
      | inr below ↦ let f : gt_f a b ≡ false = order.cotrans a c b na nc nb below k in cc
    ]

    better-IsBest :
        (n : ℕ) (best : ℕ × Float)
        → n < length v
        → IsBest n best
        → IsBest (n + 1) (better fp v n best)
    better-IsBest n (b, x) h w = elim (Bool-cases (gt_f (at fp v n) x)) [
      | inl up ↦
          let above_old : gt_f (at fp v n) (at fp v b) ≡ true =
            ap (gt_f (at fp v n)) (sym w.value) ∙ up in
          rw up (record {
            value = refl;
            found = record {
              inside = omega arith;
              greatest = λ i hi. elim (ℕ_discrete i n) [
                | yes e ↦
                    subst (λ k. gt_f (at fp v k) (at fp v n) ≡ false) (sym e)
                      (order.irrefl (at fp v n) (numbers n h))
                | no ne ↦
                    let old : i < n = omega arith in
                    order.cotrans (at fp v i) (at fp v b) (at fp v n) (numbers i (omega arith))
                      (number_b h w) (numbers n h) (w.found.greatest i old)
                      (asym (at fp v n) (at fp v b) (numbers n h) (number_b h w) above_old)
              ];
              first = λ i hi.
                  above (at fp v n) (at fp v b) (at fp v i) (numbers n h) (number_b h w)
                    (numbers i (omega arith)) above_old (w.found.greatest i hi);
            };
          })
      | inr down ↦ rw down (record {
        value = w.value;
        found = record {
          inside = let k = w.found.inside in omega arith;
          greatest = λ i hi. elim (ℕ_discrete i n) [
            | yes e ↦
                subst (λ k. gt_f (at fp v k) (at fp v b) ≡ false) (sym e)
                  (ap (gt_f (at fp v n)) (sym w.value) ∙ down)
            | no ne ↦ w.found.greatest i (omega arith)
          ];
          first = w.found.first;
        };
      })
    ]
      where
        number_b : n < length v → IsBest n (b, x) → IsNumber (at fp v b)
        number_b h w = let k = w.found.inside in numbers b (omega arith)

    IsBest-loop :
        (n i : ℕ) (best : ℕ × Float)
        → i + n ≡ length v
        → IsBest i best
        → IsBest (length v) (for_range n i (better fp v) best)
    unfolding for_range
    IsBest-loop zero i best e w = subst (λ k. IsBest k best) (omega arith) w
    IsBest-loop (suc n) i best e w =
        IsBest-loop n (i + 1) (better fp v i best) (omega arith)
          (better-IsBest i best (omega arith) w)

    -- On logits that are numbers, at least one, `argmax` is the first of the greatest.
    pub argmax-IsFirst : 0 < length v → IsFirst (length v) (argmax fp v)
    unfolding argmax
    argmax-IsFirst pos = found_of (IsBest-loop (length v - 1) 1 (0, at fp v 0) (omega arith) start)
      where
        start : IsBest 1 (0, at fp v 0)
        start = record {
          value = refl;
          found = record {
            inside = omega arith;
            greatest = λ i hi.
                subst (λ k. gt_f (at fp v k) (at fp v 0) ≡ false) (omega arith)
                  (order.irrefl (at fp v 0) (numbers 0 pos));
            first = λ i hi. absurd (omega arith);
          };
        }

        found_of : {best : ℕ × Float} → IsBest (length v) best → IsFirst (length v) (best.0)
        found_of w = w.found

  better-lt :
      (v : List Float) (n i : ℕ) (best : ℕ × Float)
      → i + n ≡ length v
      → best.0 < length v
      → (for_range n i (better fp v) best).0 < length v
  unfolding for_range
  better-lt v zero i best e h = h
  better-lt v (suc n) i best e h =
      better-lt v n (i + 1) (better fp v i best) (omega arith)
        (elim (Bool-cases (gt_f (at fp v i) (best.1))) [
          | inl up ↦ rw up (omega arith)
          | inr down ↦ rw down h
        ])

  -- `argmax` of a vector that is not empty points into it.
  pub argmax-lt : (v : List Float) → 0 < length v → argmax fp v < length v
  unfolding argmax
  argmax-lt v pos = better-lt v (length v - 1) 1 (0, at fp v 0) (omega arith) pos
