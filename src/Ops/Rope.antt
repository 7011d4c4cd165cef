-- ===== src/Ops/Rope.antt =====
-- cpp/src/ops.hpp and ops.cpp: the tables of the rotary embedding, and their application.
pub mod Laws
use nanoinfer.Prelude.{
  ℕ, ◌+◌, ◌-◌, ◌*◌, ◌/◌, ◌%◌, Bool, ◌&&◌, [], ◌∷◌, leb, ltb, ◌==◌, if◌then◌else◌, Result, ok,
}
use nanoinfer.Prelude.Loops.{for_range, for3}
use nanoinfer.Floats.{FloatOps}
use nanoinfer.Tensor.{Tensor, cpu, make_tensor, ndim, size, at2, at3, set_at2, set_at3}
use nanoinfer.Ops.Heads.{require}

pub record RopeCache (F : Type 0) : Type 0 where
  pub cos : Tensor F
  pub sin : Tensor F

pub record RopeScalingParams (D : Type 0) : Type 0 where
  pub enabled : Bool
  pub factor : D
  pub low_freq_factor : D
  pub high_freq_factor : D
  pub orig_max_pos : D

module _ (fp : FloatOps) where
  open fp use {
    Float, Double, zero_f, one_d, two_pi, add_f, mul_f, neg_f, add_d, sub_d, mul_d, div_d, gt_d,
    of_ℕ_d, widen, narrow, pow_d, cos_d, sin_d,
  }

  unfoldable pub llama3_scale_inv_freq : Double → RopeScalingParams Double → Double
  llama3_scale_inv_freq inv_freq s =
      let low_wl = div_d s.orig_max_pos s.low_freq_factor in
      let high_wl = div_d s.orig_max_pos s.high_freq_factor in
      let wavelen = div_d two_pi inv_freq in
      if gt_d wavelen low_wl
      then div_d inv_freq s.factor
      else if gt_d high_wl wavelen
      then inv_freq
      else let smooth =
          div_d (sub_d (div_d s.orig_max_pos wavelen) s.low_freq_factor)
            (sub_d s.high_freq_factor s.low_freq_factor) in
        add_d (div_d (mul_d (sub_d one_d smooth) inv_freq) s.factor) (mul_d smooth inv_freq)

  -- The angle of a position at a frequency.
  unfoldable pub rope_angle : ℕ → Float → RopeScalingParams Double → ℕ → ℕ → Double
  unfolding llama3_scale_inv_freq
  rope_angle head_dim theta scaling p i =
      let plain = div_d one_d (pow_d (widen theta) (div_d (of_ℕ_d (2 * i)) (of_ℕ_d head_dim))) in
      let inv_freq = if scaling.enabled then llama3_scale_inv_freq plain scaling else plain in
      mul_d (of_ℕ_d p) inv_freq

  -- `t.at(p, i) = x; t.at(p, i + half) = x`
  abbrev pub set_halves : ℕ → ℕ → ℕ → Float → Tensor Float → Tensor Float
  set_halves half p i x t = set_at2 (set_at2 t p i x) p (i + half) x

  unfoldable pub build_rope_cache :
      ℕ → ℕ → Float → RopeScalingParams Double → Result (RopeCache Float)
  unfolding rope_angle
  build_rope_cache seq_len head_dim theta scaling = require (head_dim % 2 == 0) (
      let half = head_dim / 2 in
      ok (
        for_range seq_len 0
          (λ p t.
            for_range half 0
              (λ i t.
                let angle = rope_angle head_dim theta scaling p i in
                record {
                  cos = set_halves half p i (narrow (cos_d angle)) t.cos;
                  sin = set_halves half p i (narrow (sin_d angle)) t.sin;
                })
              t)
          (record {
            cos = make_tensor zero_f (seq_len ∷ head_dim ∷ []) cpu;
            sin = make_tensor zero_f (seq_len ∷ head_dim ∷ []) cpu;
          })))

  -- `(d < half) ? -x.at(h, p, d + half) : x.at(h, p, d - half)`
  abbrev pub rotated : Tensor Float → ℕ → ℕ → ℕ → ℕ → Float
  rotated x half h p d =
      if ltb d half then neg_f (at3 zero_f x h p (d + half)) else at3 zero_f x h p (d - half)

  abbrev pub table_fits : Tensor Float → ℕ → ℕ → Bool
  table_fits t dim end = ndim t == 2 && (size t 1 == dim && leb end (size t 0))

  unfoldable pub apply_rope : Tensor Float → Tensor Float → Tensor Float → ℕ → Result (Tensor Float)
  unfolding ndim
  apply_rope x cos sin pos_offset = require (ndim x == 3) (
      let half = size x 2 / 2 in
      require (table_fits cos (size x 2) (pos_offset + size x 1)) (
        require (table_fits sin (size x 2) (pos_offset + size x 1)) (
          ok (
            for3 (size x 0) (size x 1) (size x 2)
              (λ h p d out. set_at3 out h p d (
                add_f (mul_f (at3 zero_f x h p d) (at2 zero_f cos (pos_offset + p) d))
                  (mul_f (rotated x half h p d) (at2 zero_f sin (pos_offset + p) d))))
              (make_tensor zero_f (size x 0 ∷ size x 1 ∷ size x 2 ∷ []) cpu)))))
