-- ===== src/Model/Tests.antt =====
-- Models of one layer over the natural numbers, and the witness of the agreement of the two caches.
use nanoinfer.Prelude.{
  ℕ, ◌≡◌, refl, ap, inl, inr, Bool, Bool-cases, List, [], ◌∷◌, Option, none, some, get_or, arith,
  ◌>>=◌, Yields, throws, Yields-map,
}
use nanoinfer.Prelude.Text.{Text, codes, find, same_text}
use nanoinfer.Tensor.{Tensor}
use nanoinfer.Tensor.Tests.{grid}
use nanoinfer.Ops.Tests.{numbers}
use nanoinfer.Quant.Weights.{Weight}
use nanoinfer.Config.{Config, default_config, n_rep}
use nanoinfer.Backend.Cpu.{cpu_backend}
use nanoinfer.Backend.Dense.{dense_weight}
use nanoinfer.Model.{Model, or_missing, project, embed_tokens}
use nanoinfer.Model.Caches.{contiguous, paged}
use nanoinfer.Model.Forward.{forward}
use nanoinfer.Model.Alike.{Alike}
use nanoinfer.Model.Layers.{on_cpu}
use nanoinfer.Model.Refinement.{Describe, forward_refines}
use nanoinfer.Ops.Shapes.{linear-IsHost, embedding-IsHost}
use nanoinfer.Tensor.{size}
use nanoinfer.KvCache.Tests.{filled_once, filled_once-IsCache}
use nanoinfer.Paged.Tests.{sequence, sequence-IsHealthy, sequence-Represents}

abbrev pub vector : List ℕ → Tensor ℕ
vector xs = record {
  shape = 2 ∷ [];
  strides = 1 ∷ [];
  values = xs;
  numel = 2;
  device = nanoinfer.Tensor.cpu;
  dtype = nanoinfer.Tensor.f32;
}

abbrev pub square : Tensor ℕ
square = grid 2 2 (1 ∷ 1 ∷ 0 ∷ 1 ∷ [])

abbrev pub tiny_config : Config ℕ
unfolding default_config
tiny_config = record (default_config numbers 1) {
  vocab_size = 2;
  hidden_size = 2;
  intermediate_size = 2;
  num_layers = 1;
  num_attention_heads = 1;
  num_kv_heads = 1;
  head_dim = 2;
  max_position_embeddings = 4;
  qkv_bias = 0;
}

abbrev pub dense : Text → Text × Weight ℕ
dense name = (name, dense_weight (cpu_backend numbers) square)

abbrev pub tiny : Model ℕ
tiny = record {
  backend = cpu_backend numbers;
  cfg = tiny_config;
  w =
      (codes "layers.0.input_layernorm.weight", vector (1 ∷ 1 ∷ []))
      ∷ (codes "layers.0.post_attention_layernorm.weight", vector (1 ∷ 2 ∷ []))
      ∷ (codes "norm.weight", vector (3 ∷ 1 ∷ []))
      ∷ [];
  weights =
      dense (codes "layers.0.self_attn.q_proj.weight")
      ∷ dense (codes "layers.0.self_attn.k_proj.weight")
      ∷ dense (codes "layers.0.self_attn.v_proj.weight")
      ∷ dense (codes "layers.0.self_attn.o_proj.weight")
      ∷ dense (codes "layers.0.mlp.gate_proj.weight")
      ∷ dense (codes "layers.0.mlp.up_proj.weight")
      ∷ dense (codes "layers.0.mlp.down_proj.weight")
      ∷ [];
  embed = dense_weight (cpu_backend numbers) square;
  lm_head = none;
  rope = record {
    cos = grid 4 2 (1 ∷ 1 ∷ 1 ∷ 1 ∷ 1 ∷ 1 ∷ 1 ∷ 1 ∷ []);
    sin = grid 4 2 (0 ∷ 0 ∷ 1 ∷ 0 ∷ 0 ∷ 0 ∷ 1 ∷ 0 ∷ []);
  };
}

-- Nothing is sorted, since there are no experts.
abbrev pub unsorted : (ℕ → ℕ → Bool) → ℕ → List ℕ → List ℕ
unsorted before k xs = xs

-- The projections of a model with two query heads on one key head.
abbrev projections : List (Text × Tensor ℕ)
projections =
    (codes "layers.0.self_attn.q_proj.weight", square)
    ∷ (codes "layers.0.self_attn.k_proj.weight", grid 1 2 (1 ∷ 2 ∷ []))
    ∷ (codes "layers.0.self_attn.v_proj.weight", grid 1 2 (2 ∷ 1 ∷ []))
    ∷ (codes "layers.0.self_attn.o_proj.weight", square)
    ∷ (codes "layers.0.mlp.gate_proj.weight", square)
    ∷ (codes "layers.0.mlp.up_proj.weight", square)
    ∷ (codes "layers.0.mlp.down_proj.weight", square)
    ∷ []

abbrev named : List (Text × Tensor ℕ) → List (Text × Weight ℕ)
named [] = []
named ((name, t) ∷ ts) = (name, dense_weight (cpu_backend numbers) t) ∷ named ts

abbrev two_on_one : Model ℕ
two_on_one = record tiny {
  cfg = record tiny_config {
    num_layers = 1;
    num_attention_heads = 2;
    num_kv_heads = 1;
    head_dim = 1;
  };
  weights = named projections;
  rope = record { cos = grid 4 1 (1 ∷ 1 ∷ 1 ∷ 1 ∷ []); sin = grid 4 1 (0 ∷ 1 ∷ 0 ∷ 1 ∷ []) };
}

found-Rows :
    (ts : List (Text × Tensor ℕ)) (name : Text) (x : Tensor ℕ) (bias : Option (Tensor ℕ))
    → Yields (λ y. size y 0 ≡ size x 0) (or_missing (find name (named ts)) >>= λ w. w.linear x bias)
unfolding find dense_weight cpu_backend
found-Rows [] name x bias = throws
found-Rows ((other, t) ∷ ts) name x bias = elim (Bool-cases (same_text other name)) [
  | inl e ↦
      rw e (Yields-map (λ y v. ap (λ s. get_or s 0 0) v.shaped) (linear-IsHost numbers x t bias))
  | inr e ↦ rw e (found-Rows ts name x bias)
]

projected :
    (name : Text) (x : Tensor ℕ) (bias : Option (Tensor ℕ))
    → Yields (λ y. size y 0 ≡ size x 0) (project (on_cpu numbers two_on_one) x name bias)
unfolding project
projected = found-Rows projections

embedded : Yields (λ x. size x 0 ≡ 2) (embed_tokens (on_cpu numbers two_on_one) (1 ∷ 0 ∷ []))
unfolding embed_tokens dense_weight cpu_backend
embedded =
    Yields-map (λ y v. ap (λ s. get_or s 0 0) v.shaped) (embedding-IsHost 0 square (1 ∷ 0 ∷ []))

described : Describe numbers 1 [] 1 filled_once sequence
described = record {
  one_sequence = sequence-Represents;
  cache = filled_once-IsCache;
  healthy = sequence-IsHealthy;
  holds = refl;
}

forward_refines_example :
    Alike
      (λ y c s. Describe numbers 1 [] 3 c s)
      (forward numbers unsorted
        (on_cpu numbers two_on_one)
        (contiguous numbers)
        (1 ∷ 0 ∷ [])
        (some tt)
        filled_once)
      (forward numbers unsorted
        (on_cpu numbers two_on_one)
        (paged numbers)
        (1 ∷ 0 ∷ [])
        (some tt)
        sequence)
unfolding n_rep
forward_refines_example =
    forward_refines numbers unsorted two_on_one (1 ∷ 0 ∷ []) [] filled_once sequence projected
      embedded (omega arith) (omega arith) (omega arith) (omega arith) refl described refl refl refl
      (omega arith) (omega arith)
