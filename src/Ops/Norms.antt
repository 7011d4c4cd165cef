-- ===== src/Ops/Norms.antt =====
-- cpp/src/ops.cpp: rmsnorm and softmax, which work on the rows of the last dimension.
use nanoinfer.Prelude.{ℕ, ◌+◌, ◌-◌, ◌*◌, ◌/◌, leb, ◌==◌, if◌then◌else◌, Result, ok}
use nanoinfer.Prelude.Loops.{for_range}
use nanoinfer.Floats.{FloatOps}
use nanoinfer.Tensor.{Tensor, cpu, make_tensor, ndim, size}
use nanoinfer.Ops.Heads.{require}
use nanoinfer.Ops.Attention.{flat, set_flat}

module _ (fp : FloatOps) where
  open fp use {
    Float, Double, zero_f, one_f, zero_d, one_d, add_f, sub_f, mul_f, div_f, add_d, mul_d, div_d,
    of_ℕ_d, widen, narrow, gt_f, exp_f, sqrt_f,
  }

  -- `x.size(x.ndim() - 1)`
  abbrev pub last_dim : Tensor Float → ℕ
  last_dim x = size x (ndim x - 1)

  -- `sumsq` of the row at `row`.
  unfoldable pub sum_squares : Tensor Float → ℕ → ℕ → Double
  sum_squares x row d =
      for_range d 0
        (λ c sum. add_d sum (mul_d (widen (flat fp x (row + c))) (widen (flat fp x (row + c)))))
        zero_d

  -- `1.0f / std::sqrt(float(sumsq / d) + eps)`
  unfoldable pub row_scale : Tensor Float → ℕ → ℕ → Float → Float
  unfolding sum_squares
  row_scale x row d eps =
      div_f one_f (sqrt_f (add_f (narrow (div_d (sum_squares x row d) (of_ℕ_d d))) eps))

  unfoldable pub rmsnorm : Tensor Float → Tensor Float → Float → Result (Tensor Float)
  unfolding ndim row_scale
  rmsnorm x weight eps = require (leb 1 (ndim x)) (
      let d = last_dim x in
      require (weight.numel == d) (
        ok (
          for_range (x.numel / d) 0
            (λ r out.
              let scale = row_scale x (r * d) d eps in
              for_range d 0
                (λ c o.
                  set_flat fp o (r * d + c)
                    (mul_f (mul_f (flat fp x (r * d + c)) scale) (flat fp weight c)))
                out)
            (make_tensor zero_f x.shape cpu))))

  -- `maxv = xr[c] > maxv ? xr[c] : maxv`, from `xr[0]`
  unfoldable pub row_max : Tensor Float → ℕ → ℕ → Float
  row_max x row d =
      for_range (d - 1) 1 (λ c m. if gt_f (flat fp x (row + c)) m then flat fp x (row + c) else m)
        (flat fp x row)

  -- `orow[c] = e; sum += e`
  unfoldable pub exp_row :
      Tensor Float → ℕ → ℕ → Float → Tensor Float × Double → Tensor Float × Double
  exp_row x row d maxv start =
      for_range d 0
        (λ c st.
          let e = exp_f (sub_f (flat fp x (row + c)) maxv) in
          (set_flat fp (st.0) (row + c) e, add_d (st.1) (widen e)))
        start

  -- `orow[c] *= inv`
  unfoldable pub scale_row : ℕ → ℕ → Float → Tensor Float → Tensor Float
  scale_row row d inv out =
      for_range d 0 (λ c o. set_flat fp o (row + c) (mul_f (flat fp o (row + c)) inv)) out

  unfoldable pub softmax : Tensor Float → Result (Tensor Float)
  unfolding ndim row_max exp_row scale_row
  softmax x = require (leb 1 (ndim x)) (
      let d = last_dim x in
      ok (
        for_range (x.numel / d) 0
          (λ r out.
            let (o, sum) = exp_row x (r * d) d (row_max x (r * d) d) (out, zero_d) in
            scale_row (r * d) d (narrow (div_d one_d sum)) o)
          (make_tensor zero_f x.shape cpu)))
