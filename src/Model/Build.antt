-- ===== src/Model/Build.antt =====
-- cpp/src/model.cpp: the constructor of Model.
pub mod Folding
use nanoinfer.Prelude.{
  ℕ, zero, ◌+◌, ◌-◌, Bool, true, false, not, ◌&&◌, ◌||◌, List, [], ◌∷◌, ◌++◌, Option, none, some,
  length, take, ltb, ◌==◌, if◌then◌else◌, Result, ok, throw, runtime_error, out_of_range, ◌>>=◌,
  ◌>>◌, raise_if,
}
use nanoinfer.Prelude.Text.{Text, codes, has_suffix, find, erase, emplace}
use nanoinfer.Floats.{FloatOps}
use nanoinfer.Tensor.{Tensor, Device}
use nanoinfer.Ops.Rope.{RopeCache, RopeScalingParams, build_rope_cache}
use nanoinfer.Quant.{QuantMode}
use nanoinfer.Quant.Weights.{Weight}
use nanoinfer.Config.{Config, RopeScaling, unscaled, llama3}
use nanoinfer.Config.Load.{load_config}
use nanoinfer.Config.Stream.{Stream}
use nanoinfer.Serialize.{load_bin}
use nanoinfer.Backend.{Backend, BackendConfig}
use nanoinfer.Backend.Dense.{dense_weight}
use nanoinfer.Backend.Cpu.{make_backend}
use nanoinfer.Model.{Model, is_layer_proj, is_half_eligible}
use nanoinfer.Model.Build.Folding.{fold_scalars}

-- The stem of a file name whose extension is ".bin".
abbrev pub stem : Text → Text
stem name = take (length name - 4) name

-- `m.at(name)`
abbrev pub at_name {ℓ} : {A : Type ℓ} → Option A → Result A
at_name none = throw out_of_range
at_name (some a) = ok a

-- Whether a map has a name.
abbrev pub has {ℓ} : {A : Type ℓ} → Option A → Bool
has none = false
has (some a) = true

-- A directory is its file names and contents in the order of `directory_iterator`.
module _ (fp : FloatOps) where
  open fp use {Float, Double, zero_d, one_d, widen, of_ℕ_d}

  unfoldable pub load_weights :
      List (Text × Option Text) → List (Text × Tensor Float) → Result (List (Text × Tensor Float))
  unfolding has_suffix emplace
  load_weights [] w = ok w
  load_weights ((name, file) ∷ entries) w =
      let skipped = load_weights entries w in
      let kept : Tensor Float → Result (List (Text × Tensor Float)) =
        λ t. load_weights entries (emplace (stem name) t w) in
      if has_suffix (codes ".bin") name then load_bin fp file >>= kept else skipped

  -- The fields of a default `RopeScalingParams`; they are not read when it is not enabled.
  unfoldable pub scaling_of : Config Float → RopeScalingParams Double
  scaling_of c = elim c.rope_scaling [
    | RopeScaling.unscaled ↦ record {
      enabled = false;
      factor = one_d;
      low_freq_factor = one_d;
      high_freq_factor = of_ℕ_d 4;
      orig_max_pos = zero_d;
    }
    | RopeScaling.llama3 ↦ record {
      enabled = true;
      factor = widen c.rope_scaling_factor;
      low_freq_factor = widen c.rope_scaling_low_freq;
      high_freq_factor = widen c.rope_scaling_high_freq;
      orig_max_pos = of_ℕ_d c.rope_scaling_orig_max_pos;
    }
  ]

  -- `w_` and `weights_` while the constructor runs.
  pub record Parts : Type 0 where
    pub w : List (Text × Tensor Float)
    pub weights : List (Text × Weight Float)

  -- The names of the layer projections.
  unfoldable pub proj_names : List (Text × Tensor Float) → List Text
  unfolding is_layer_proj
  proj_names [] = []
  proj_names ((name, t) ∷ w) =
      let names = proj_names w in if is_layer_proj name then name ∷ names else names

  -- Each name moves from `w_` to `weights_`. `nullptr`, which only the mode `None` makes, is not stored.
  unfoldable pub move_weights :
      (Tensor Float → Result (Option (Weight Float))) → List Text → Parts → Result Parts
  unfolding find erase emplace
  move_weights make [] p = ok p
  move_weights make (n ∷ names) p =
      let stored : Option (Weight Float) → Result Parts = λ made. move_weights make names (record {
        w = erase n p.w;
        weights = elim made [ none ↦ p.weights | some wt ↦ emplace n wt p.weights ];
      }) in
      at_name (find n p.w) >>= make >>= stored

  unfoldable pub all_resident :
      Backend Float → List (Text × Tensor Float) → Result (List (Text × Tensor Float))
  unfolding is_half_eligible
  all_resident b [] = ok []
  all_resident b ((name, t) ∷ w) =
      let others = all_resident b w in
      b.to_resident t (is_half_eligible name) >>= λ t'. others >>= λ w'. ok ((name, t') ∷ w')

  -- The embedding and the output projection, and what is left of `w_`.
  pub record Ends : Type 0 where
    pub w : List (Text × Tensor Float)
    pub embed : Option (Weight Float)
    pub lm_head : Option (Weight Float)

  abbrev pub or_missing : Option (Tensor Float) → Result (Tensor Float)
  or_missing none = throw runtime_error
  or_missing (some t) = ok t

  -- `!tie_word_embeddings && w_.count("lm_head.weight")`
  abbrev pub own_head : Config Float → List (Text × Tensor Float) → Bool
  own_head c w = c.tie_word_embeddings == 0 && has (find (codes "lm_head.weight") w)

  -- Under `if (cfg.quantize_embed)`.
  unfoldable pub quantize_ends :
      Backend Float → Config Float → List (Text × Tensor Float) → Result Ends
  unfolding find erase
  quantize_ends b c w = do
    embed ← b.make_embed_weight (← or_missing (find (codes "embed_tokens.weight") w))
    let w' = erase (codes "embed_tokens.weight") w in
        if own_head c w'
        then or_missing (find (codes "lm_head.weight") w') >>= b.make_embed_weight >>= (λ head.
          ok (record {
            w = erase (codes "lm_head.weight") w';
            embed = some embed;
            lm_head = some head;
          }))
        else ok (record { w = w'; embed = some embed; lm_head = none })

  -- The weights that are not there yet are dense.
  unfoldable pub dense_embed : Backend Float → Ends → Result (Weight Float × Ends)
  unfolding find erase dense_weight
  dense_embed b e = elim e.embed [
    | some embed ↦ ok (embed, e)
    | none ↦
        at_name (find (codes "embed_tokens.weight") e.w)
        >>= (λ t. ok (dense_weight b t, record e { w = erase (codes "embed_tokens.weight") e.w }))
  ]

  unfoldable pub dense_head : Backend Float → Config Float → Ends → Result Ends
  unfolding find erase dense_weight
  dense_head b c e =
      if not (has e.lm_head) && own_head c e.w
      then at_name (find (codes "lm_head.weight") e.w) >>= (λ t.
        ok (record e { lm_head = some (dense_weight b t); w = erase (codes "lm_head.weight") e.w }))
      else ok e

  abbrev pub is_unquantized : QuantMode → Bool
  is_unquantized QuantMode.unquantized = true
  is_unquantized _ = false

  -- What follows the load of the weights.
  unfoldable pub assemble :
      Backend Float
      → QuantMode
      → BackendConfig
      → Config Float
      → List (Text × Tensor Float)
      → Result (Model Float)
  unfolding fold_scalars scaling_of proj_names move_weights quantize_ends all_resident dense_embed
      dense_head dense_weight
  assemble b mode bc c w = do
    w ← fold_scalars fp c w
    rope ← build_rope_cache fp c.max_position_embeddings c.head_dim c.rope_theta (scaling_of c)
    quantized ←
        (if is_unquantized mode
          then ok (record { w = w; weights = [] })
          else move_weights (λ t. b.make_quant_weight t mode) (proj_names w)
              (record { w = w; weights = [] }))
    ends ←
        (if bc.quantize_embed
          then quantize_ends b c quantized.w
          else ok (record { w = quantized.w; embed = none; lm_head = none }))
    w ← all_resident b ends.w
    cos ← b.to_resident rope.cos false
    sin ← b.to_resident rope.sin false
    dense ←
        move_weights (λ t. ok (some (dense_weight b t))) (proj_names w)
          (record { w = w; weights = quantized.weights })
    found ← dense_embed b (record ends { w = dense.w })
    e ← dense_head b c (found.1)
    ok (record {
      backend = b;
      cfg = c;
      w = e.w;
      weights = dense.weights;
      embed = found.0;
      lm_head = e.lm_head;
      rope = record { cos = cos; sin = sin };
    })

  abbrev pub is_empty : List (Text × Tensor Float) → Bool
  is_empty [] = true
  is_empty (x ∷ xs) = false

  -- `config` is the file "config.txt" of the directory.
  unfoldable pub make_model :
      (Float → Stream → Float × Stream)
      → Float
      → Option Text
      → List (Text × Option Text)
      → QuantMode
      → Device
      → BackendConfig
      → Result (Model Float)
  unfolding load_weights assemble
  make_model read_float eps config entries mode device bc = do
    b ← make_backend fp device bc
    c ← load_config fp read_float eps config
    w ← load_weights entries []
    raise_if (is_empty w) runtime_error
    assemble b mode bc c w
