-- ===== src/Cuda/Attention.antt =====
-- cpp/src/cuda/cuda_backend.cu: attention with an online softmax, one warp for each query. The 32 lanes
-- of a warp run in lockstep. A pointer is the function that reads from it.
pub mod Agreement
pub mod Kernels
pub mod Tiled
pub mod Rows
pub mod Method
pub mod Splits
use nanoinfer.Prelude.{
  ℕ, ◌+◌, ◌-◌, ◌*◌, ◌/◌, ◌%◌, Bool, List, get_or, set, replicate, leb, ltb, if◌then◌else◌,
}
use nanoinfer.Prelude.Loops.{for_range}
use nanoinfer.Prelude.Tabulate.{tabulate}
use nanoinfer.Floats.{FloatOps}
use nanoinfer.Cuda.Elementwise.{load}

-- The running maximum, the denominator and the output row of a lane.
pub record Lane (F : Type 0) : Type 0 where
  pub m : F
  pub l : F
  pub lacc : List F

-- `__shfl_down_sync`: a lane without a lane `off` further reads its own value.
abbrev pub shfl_down : {A : Type 0} → (ℕ → A) → ℕ → ℕ → A
shfl_down lanes off lane = if ltb (lane + off) 32 then lanes (lane + off) else lanes lane

-- How often the body of `for (j = first; j < limit; j += 32)` runs.
abbrev pub rounds : ℕ → ℕ → ℕ
rounds first limit = (limit + 31 - first) / 32

module _ (fp : FloatOps) where
  open fp use {Float, zero_f, one_f, neg_inf, add_f, sub_f, mul_f, div_f, max_f, eq_f, gt_f, exp_f}

  -- `s += q[d] * k[d]` over the head, times the scale.
  unfoldable pub score : (ℕ → Float) → (ℕ → Float) → ℕ → Float → Float
  score q k dim scale = mul_f (for_range dim 0 (λ d s. add_f s (mul_f (q d) (k d))) zero_f) scale

  -- The running maximum moves to the score `s`, and the value joins the sums.
  unfoldable pub absorb : ℕ → Float → (ℕ → Float) → Lane Float → Lane Float
  absorb dim s vj lane =
      let m_new = max_f lane.m s in
      let corr = exp_f (sub_f lane.m m_new) in
      let p = exp_f (sub_f s m_new) in
      record {
        m = m_new;
        l = add_f (mul_f lane.l corr) p;
        lacc = tabulate dim (λ d. add_f (mul_f (load fp lane.lacc d) corr) (mul_f p (vj d)));
      }

  -- One key in the loop of a lane.
  unfoldable pub online :
      (ℕ → Float) → ℕ → Float → (ℕ → Float) → (ℕ → Float) → Lane Float → Lane Float
  unfolding score absorb
  online q dim scale kj vj lane = absorb dim (score q kj dim scale) vj lane

  abbrev pub fresh : ℕ → Lane Float
  fresh dim = record { m = neg_inf; l = zero_f; lacc = replicate dim zero_f }

  unfoldable pub lane_pass :
      (ℕ → Float) → ℕ → Float → (ℕ → ℕ → Float) → (ℕ → ℕ → Float) → ℕ → ℕ → Lane Float
  unfolding online
  lane_pass q dim scale key value first limit =
      for_range (rounds first limit) 0
        (λ r. online q dim scale (key (first + 32 * r)) (value (first + 32 * r))) (fresh dim)

  -- A lane's part of one round of the merge.
  unfoldable pub combine : ℕ → Lane Float → Lane Float → Lane Float
  combine dim x o =
      let m_new = max_f x.m o.m in
      let empty = eq_f m_new neg_inf in
      let a = if empty then zero_f else exp_f (sub_f x.m m_new) in
      let a_o = if empty then zero_f else exp_f (sub_f o.m m_new) in
      record {
        m = m_new;
        l = add_f (mul_f x.l a) (mul_f o.l a_o);
        lacc =
            tabulate dim (λ d. add_f (mul_f (load fp x.lacc d) a) (mul_f (load fp o.lacc d) a_o));
      }

  unfoldable pub merge_round : ℕ → ℕ → (ℕ → Lane Float) → ℕ → Lane Float
  unfolding combine
  merge_round dim off lanes lane = combine dim (lanes lane) (shfl_down lanes off lane)

  -- `for (off = 16; off > 0; off >>= 1)`; lane 0 has the result.
  unfoldable pub merge_lanes : ℕ → (ℕ → Lane Float) → Lane Float
  unfolding merge_round
  merge_lanes dim lanes =
      merge_round dim 1
        (merge_round dim 2 (merge_round dim 4 (merge_round dim 8 (merge_round dim 16 lanes)))) 0

  -- The keys from `k0` to `k1` in one warp.
  unfoldable pub warp_pass :
      (ℕ → Float) → ℕ → Float → (ℕ → ℕ → Float) → (ℕ → ℕ → Float) → ℕ → ℕ → Lane Float
  unfolding lane_pass merge_lanes
  warp_pass q dim scale key value k0 k1 =
      merge_lanes dim (λ lane. lane_pass q dim scale key value (k0 + lane) k1)

  -- `o[d] = lacc[d] * inv`
  abbrev pub normalized : Lane Float → ℕ → Float
  normalized x d = mul_f (load fp x.lacc d) (div_f one_f x.l)

  -- The two passes of the kernels with one thread for each query: the maximum, and then the weights.
  unfoldable pub max_score : (ℕ → Float) → ℕ → Float → (ℕ → ℕ → Float) → ℕ → Float
  unfolding score
  max_score q dim scale key limit =
      for_range limit 0
        (λ j maxv. let s = score q (key j) dim scale in if gt_f s maxv then s else maxv) neg_inf

  -- `denom += e; acc[d] += e * vj[d]`
  unfoldable pub weigh : ℕ → Float → (ℕ → Float) → Lane Float → Lane Float
  weigh dim s vj x =
      let e = exp_f (sub_f s x.m) in
      record x {
        l = add_f x.l e;
        lacc = tabulate dim (λ d. add_f (load fp x.lacc d) (mul_f e (vj d)));
      }

  unfoldable pub two_pass :
      (ℕ → Float) → ℕ → Float → (ℕ → ℕ → Float) → (ℕ → ℕ → Float) → ℕ → Lane Float
  unfolding max_score weigh
  two_pass q dim scale key value limit =
      for_range limit 0 (λ j x. weigh dim (score q (key j) dim scale) (value j) x)
        (record { m = max_score q dim scale key limit; l = zero_f; lacc = replicate dim zero_f })

  -- `for (d = 0; d < D; ++d) o[d] = f(d)`
  unfoldable pub store_row : ℕ → ℕ → (ℕ → Float) → List Float → List Float
  store_row base dim f out = for_range dim 0 (λ d o. set o (base + d) (f d)) out
