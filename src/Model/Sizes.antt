-- ===== src/Model/Sizes.antt =====
-- cpp/src/model.cpp: the sizes of the weights.
use nanoinfer.Prelude.{ℕ, ◌+◌, ◌*◌, List, [], ◌∷◌, Option, none, some, ◌==◌, if◌then◌else◌, ltb}
use nanoinfer.Prelude.Text.{Text}
use nanoinfer.Tensor.{Tensor}
use nanoinfer.Quant.{Format}
use nanoinfer.Quant.Weights.{Weight}
use nanoinfer.Backend.Dense.{width_of}
use nanoinfer.Model.{Model}

module _ {F : Type 0} where
  -- The sums over `w_`.
  unfoldable pub tensor_bytes : List (Text × Tensor F) → ℕ × ℕ
  tensor_bytes [] = (0, 0)
  tensor_bytes ((name, t) ∷ w) =
      let (actual, fp32) = tensor_bytes w in
      (t.numel * width_of t.dtype + actual, t.numel * 4 + fp32)

  unfoldable pub projection_bytes : List (Text × Weight F) → ℕ × ℕ
  projection_bytes [] = (0, 0)
  projection_bytes ((name, wt) ∷ w) =
      let (actual, fp32) = projection_bytes w in (wt.bytes + actual, wt.fp32_bytes + fp32)

  abbrev pub head_bytes : Option (Weight F) → ℕ × ℕ
  head_bytes none = (0, 0)
  head_bytes (some head) = (head.bytes, head.fp32_bytes)

  -- The actual bytes, and those of the same weights as floats.
  unfoldable pub weight_bytes : Model F → ℕ × ℕ
  unfolding tensor_bytes projection_bytes
  weight_bytes m =
      let (w, w32) = tensor_bytes m.w in
      let (p, p32) = projection_bytes m.weights in
      let (h, h32) = head_bytes m.lm_head in
      (w + p + m.embed.bytes + h, w32 + p32 + m.embed.fp32_bytes + h32)

-- The place of a format in the enumeration, by which `std::map` orders its keys.
abbrev pub rank : Format → ℕ
rank Format.f32 = 0
rank Format.f16 = 1
rank Format.bf16 = 2
rank Format.q8 = 3
rank Format.q4 = 4
rank Format.q4g = 5
rank Format.w8a8 = 6

-- `by_format[f] += bytes`
unfoldable pub add_bytes : Format → ℕ → List (Format × ℕ) → List (Format × ℕ)
add_bytes f bytes [] = (f, bytes) ∷ []
add_bytes f bytes ((g, n) ∷ m) =
    let rest = add_bytes f bytes m in
    if rank f == rank g
    then (g, n + bytes) ∷ m
    else if ltb (rank f) (rank g)
    then (f, bytes) ∷ (g, n) ∷ m
    else (g, n) ∷ rest

module _ {F : Type 0} where
  unfoldable pub add_weights : List (Text × Weight F) → List (Format × ℕ) → List (Format × ℕ)
  unfolding add_bytes
  add_weights [] m = m
  add_weights ((name, wt) ∷ w) m = add_weights w (add_bytes wt.format wt.bytes m)

  unfoldable pub weight_format_breakdown : Model F → List (Format × ℕ)
  unfolding add_weights
  weight_format_breakdown m =
      let embedded = add_bytes m.embed.format m.embed.bytes (add_weights m.weights []) in
      elim m.lm_head [ none ↦ embedded | some head ↦ add_bytes head.format head.bytes embedded ]
