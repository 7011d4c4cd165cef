-- ===== src/Cuda/Attention/Agreement.antt =====
-- cpp/src/cuda/cuda_backend.cu: the passes over the keys read only the visible ones.
use mathlib.Core.Path.{fun_ext}
use nanoinfer.Prelude.{replicate, ℕ, ◌+◌, ◌*◌, ◌<◌, ◌≡◌, ap, ◌∙◌, arith, if◌then◌else◌}
use nanoinfer.Prelude.Loops.{for_range, for_range-cong}
use nanoinfer.Prelude.Tabulate.{tabulate-cong}
use nanoinfer.Floats.{FloatOps}
use nanoinfer.Cuda.Elementwise.{load}
use nanoinfer.Cuda.Attention.{
  Lane, score, absorb, weigh, online, fresh, rounds, lane_pass, merge_lanes, warp_pass, max_score,
  two_pass,
}

module _ (fp : FloatOps) (q : ℕ → fp.Float) (dim : ℕ) (scale : fp.Float) where
  open fp use {Float, zero_f, add_f, sub_f, mul_f, max_f, exp_f, gt_f, neg_inf}

  pub score-cong :
      (k k' : ℕ → Float)
      → ((d : ℕ) → d < dim → k d ≡ k' d)
      → score fp q k dim scale ≡ score fp q k' dim scale
  unfolding score
  score-cong k k' same =
      ap (λ s. mul_f s scale)
        (for_range-cong _ _ dim 0 zero_f
          λ d s _ h. ap (λ x. add_f s (mul_f (q d) x)) (same d (omega arith)))

  absorb-cong :
      (s : Float) (vj vj' : ℕ → Float) (x : Lane Float)
      → ((d : ℕ) → d < dim → vj d ≡ vj' d)
      → absorb fp dim s vj x ≡ absorb fp dim s vj' x
  unfolding absorb
  absorb-cong s vj vj' x same =
      let m_new = max_f x.m s in
      ap
        (λ row.
          let y : Lane Float = record {
            m = m_new;
            l = add_f (mul_f x.l (exp_f (sub_f x.m m_new))) (exp_f (sub_f s m_new));
            lacc = row;
          } in
          y)
        (tabulate-cong dim _ _ λ d h.
          ap
            (λ v.
              add_f (mul_f (load fp x.lacc d) (exp_f (sub_f x.m m_new)))
                (mul_f (exp_f (sub_f s m_new)) v))
            (same d h))

  weigh-cong :
      (s : Float) (vj vj' : ℕ → Float) (x : Lane Float)
      → ((d : ℕ) → d < dim → vj d ≡ vj' d)
      → weigh fp dim s vj x ≡ weigh fp dim s vj' x
  unfolding weigh
  weigh-cong s vj vj' x same =
      ap
        (λ row.
          let y : Lane Float = record x { l = add_f x.l (exp_f (sub_f s x.m)); lacc = row } in y)
        (tabulate-cong dim _ _
          λ d h. ap (λ v. add_f (load fp x.lacc d) (mul_f (exp_f (sub_f s x.m)) v)) (same d h))

  pub online-cong :
      (kj kj' vj vj' : ℕ → Float) (x : Lane Float)
      → ((d : ℕ) → d < dim → kj d ≡ kj' d)
      → ((d : ℕ) → d < dim → vj d ≡ vj' d)
      → online fp q dim scale kj vj x ≡ online fp q dim scale kj' vj' x
  unfolding online
  online-cong kj kj' vj vj' x same_key same_value =
      ap (λ s. absorb fp dim s vj x) (score-cong kj kj' same_key)
      ∙ absorb-cong (score fp q kj' dim scale) vj vj' x same_value

  module _ (key key' value value' : ℕ → ℕ → Float) (limit : ℕ)
      (same_key : (j d : ℕ) → j < limit → d < dim → key j d ≡ key' j d)
      (same_value : (j d : ℕ) → j < limit → d < dim → value j d ≡ value' j d) where
    pub lane_pass-cong :
        (first : ℕ)
        → lane_pass fp q dim scale key value first limit
          ≡ lane_pass fp q dim scale key' value' first limit
    unfolding lane_pass
    lane_pass-cong first = for_range-cong _ _ (rounds first limit) 0 (fresh fp dim) λ r x _ h.
        let seen : first + 32 * r < limit = omega arith in
        online-cong (key (first + 32 * r)) (key' (first + 32 * r)) (value (first + 32 * r))
          (value' (first + 32 * r)) x (λ d. same_key (first + 32 * r) d seen)
          (λ d. same_value (first + 32 * r) d seen)

    -- A warp gives the same result for keys and values that agree up to the limit.
    pub warp_pass-cong :
        (k0 : ℕ)
        → warp_pass fp q dim scale key value k0 limit
          ≡ warp_pass fp q dim scale key' value' k0 limit
    unfolding warp_pass
    warp_pass-cong k0 = ap (merge_lanes fp dim) (fun_ext λ lane. lane_pass-cong (k0 + lane))

    max_score-cong : max_score fp q dim scale key limit ≡ max_score fp q dim scale key' limit
    unfolding max_score
    max_score-cong = for_range-cong _ _ limit 0 neg_inf λ j maxv _ h.
        ap (λ s. if gt_f s maxv then s else maxv)
          (score-cong (key j) (key' j) (λ d. same_key j d (omega arith)))

    pub two_pass-cong :
        two_pass fp q dim scale key value limit ≡ two_pass fp q dim scale key' value' limit
    unfolding two_pass
    two_pass-cong =
        for_range-cong _ _ limit 0 _ (λ j x _ h.
          ap (λ s. weigh fp dim s (value j) x)
            (score-cong (key j) (key' j) (λ d. same_key j d (omega arith)))
          ∙ weigh-cong (score fp q (key' j) dim scale) (value j) (value' j) x
              (λ d. same_value j d (omega arith)))
        ∙ ap
            (λ m.
              for_range limit 0 (λ j x. weigh fp dim (score fp q (key' j) dim scale) (value' j) x)
                (record { m = m; l = zero_f; lacc = replicate dim zero_f }))
            max_score-cong
