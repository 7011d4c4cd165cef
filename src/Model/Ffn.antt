-- ===== src/Model/Ffn.antt =====
-- cpp/src/model.cpp: Model::ffn, the dense feed-forward layer and the mixture of experts.
use nanoinfer.Prelude.{
  ℕ, ◌+◌, ◌*◌, Bool, true, false, ◌&&◌, ◌||◌, List, [], ◌∷◌, ◌++◌, none, ltb, ◌==◌, if◌then◌else◌,
  get_or, set, replicate, Result, ok, ◌>>=◌,
}
use nanoinfer.Prelude.Text.{Text, codes, to_string}
use nanoinfer.Prelude.Loops.{for_range}
use nanoinfer.Prelude.Methods.{for_result}
use nanoinfer.Floats.{FloatOps}
use nanoinfer.Tensor.{Tensor, size}
use nanoinfer.Ops.Attention.{flat}
use nanoinfer.Sampling.{iota}
use nanoinfer.Model.{Model, weight, project}

-- The rows of each expert, and their gates.
pub record Routing (F : Type 0) : Type 0 where
  pub rows : List (List ℕ)
  pub gates : List (List F)

-- The feed-forward layer of the weights at a prefix.
unfoldable pub swiglu : {F : Type 0} → Model F → Tensor F → Text → Result (Tensor F)
unfolding project
swiglu m x prefix = do
  gate ← m.backend.silu (← project m x (prefix ++ codes "gate_proj.weight") none)
  up ← project m x (prefix ++ codes "up_proj.weight") none
  project m (← m.backend.mul gate up) (prefix ++ codes "down_proj.weight") none

-- `partial_sort cmp k v` is `v` with its `k` least elements in order at its front; `k` beyond the end is not
-- defined in C++.
module _ (fp : FloatOps) (partial_sort : (ℕ → ℕ → Bool) → ℕ → List ℕ → List ℕ) where
  open fp use {Float, zero_f, gt_f, eq_f, exp_f, sub_f, add_f, div_f}

  -- The order of the experts of a row.
  abbrev pub before : (ℕ → Float) → ℕ → ℕ → Bool
  before lr a b = gt_f (lr a) (lr b) || (eq_f (lr a) (lr b) && ltb a b)

  -- `g` and `sum` over the selected experts.
  unfoldable pub gate_pass : (ℕ → Float) → (ℕ → ℕ) → ℕ → List Float × Float
  gate_pass lr idx top_k =
      for_range {S = List Float × Float} top_k 0
        (λ j st.
          let g = exp_f (sub_f (lr (idx j)) (lr (idx 0))) in (set (st.0) j g, add_f (st.1) g))
        (replicate top_k zero_f, zero_f)

  unfoldable pub push_gate : ℕ → ℕ → Float → Routing Float → Routing Float
  push_gate e r g rt = record {
    rows = set rt.rows e (get_or rt.rows e [] ++ (r ∷ []));
    gates = set rt.gates e (get_or rt.gates e [] ++ (g ∷ []));
  }

  unfoldable pub route_row : ℕ → ℕ → (ℕ → Float) → ℕ → Routing Float → Routing Float
  unfolding gate_pass push_gate
  route_row experts top_k lr r rt =
      let sorted = partial_sort (before lr) top_k (iota experts 0) in
      let idx : ℕ → ℕ = λ j. get_or sorted j 0 in
      let (g, sum) = gate_pass lr idx top_k in
      for_range top_k 0 (λ j rt. push_gate (idx j) r (div_f (get_or g j zero_f) sum) rt) rt

  unfoldable pub route : ℕ → ℕ → ℕ → Tensor Float → Routing Float
  unfolding route_row
  route experts top_k rows rl =
      for_range rows 0 (λ r rt. route_row experts top_k (λ j. flat fp rl (r * experts + j)) r rt)
        (record { rows = replicate experts []; gates = replicate experts [] })

  abbrev pub is_empty : List ℕ → Bool
  is_empty [] = true
  is_empty (x ∷ xs) = false

  module _ (m : Model Float) where
    -- The body of the loop over experts.
    unfoldable pub run_expert :
        Tensor Float → Text → Routing Float → ℕ → Tensor Float → Result (Tensor Float)
    unfolding swiglu
    run_expert hm prefix rt e out =
        let rws = get_or rt.rows e [] in
        if is_empty rws then ok out else do
          xe ← m.backend.gather_rows hm rws
          ye ← swiglu m xe (prefix ++ codes "mlp.experts." ++ to_string e ++ codes ".")
          m.backend.scatter_add_rows out rws (get_or rt.gates e []) ye

    unfoldable pub moe : Tensor Float → Text → Result (Tensor Float)
    unfolding route run_expert
    moe hm prefix = do
      rl ←
          m.backend.to_host_copy
            (← m.backend.linear hm (← weight m (prefix ++ codes "mlp.router.weight")) none)
      out ← m.backend.zeros (size hm 0 ∷ m.cfg.hidden_size ∷ [])
      for_result m.cfg.n_experts 0
          (run_expert hm prefix (route m.cfg.n_experts m.cfg.moe_top_k (size hm 0) rl)) out

    unfoldable pub ffn : Tensor Float → Text → Result (Tensor Float)
    unfolding swiglu moe
    ffn hm prefix =
        if m.cfg.n_experts == 0 then swiglu m hm (prefix ++ codes "mlp.") else moe hm prefix
