-- ===== src/Config/Valid.antt =====
-- cpp/src/config.cpp: what a configuration that load_config returns satisfies, and the end of its loop.
use native.Mathlib.Nat.{div-add-mod'}
use nanoinfer.Prelude.{
  ℕ, ◌+◌, ◌*◌, ◌%◌, ◌^◌, ◌<◌, ◌≡◌, inl, inr, Bool-cases, false, not, Option, none, some, length,
  arith, Result, ok, throw, runtime_error, ◌>>◌, raise_if, ◌==◌, Yields, yields, throws,
  Yields-bind, Yields-anything,
}
use nanoinfer.Prelude.Text.{Text}
use nanoinfer.Floats.{FloatOps}
use nanoinfer.Config.{Config, n_rep}
use nanoinfer.Config.Stream.{Stream}
use nanoinfer.Config.Load.{is_nonpos, need, validate, load_config, read_fields, outcome}

-- A count that an `int64_t` holds.
abbrev pub IsCount : ℕ → Type 0
IsCount n = (0 < n) × (n < 2 ^ 63)

pub record IsValid {F : Type 0} (c : Config F) : Type 0 where
  pub vocab : IsCount c.vocab_size
  pub hidden : IsCount c.hidden_size
  pub intermediate : IsCount c.intermediate_size
  pub layers : IsCount c.num_layers
  pub heads : IsCount c.num_attention_heads
  pub kv_heads : IsCount c.num_kv_heads
  pub dim : IsCount c.head_dim
  pub positions : IsCount c.max_position_embeddings
  -- Every query head has a KV head, and every KV head as many query heads.
  pub grouped : n_rep c * c.num_kv_heads ≡ c.num_attention_heads

IsCount-of : (n : ℕ) → is_nonpos n ≡ false → IsCount n
IsCount-of n h = (ground arith, ground arith)

Yields-need : (n : ℕ) → Yields (λ _. IsCount n) (need n)
unfolding need
Yields-need n = elim (Bool-cases (is_nonpos n)) [
  | inl bad ↦ rw bad throws
  | inr good ↦ rw good (yields (IsCount-of n good))
]

-- Two checks in a row.
Yields-then :
    {P Q : Type 0} (m n : Result (Unit {0}))
    → Yields (λ _. P) m
    → Yields (λ _. Q) n
    → Yields (λ _. P × Q) (m >> n)
Yields-then (ok a) n (yields p) (yields q) = yields (p, q)
Yields-then (ok a) n (yields p) throws = throws
Yields-then (throw e) n throws w = throws

Yields-divides : (a b : ℕ) → Yields (λ _. a % b ≡ 0) (raise_if (not (a % b == 0)) runtime_error)
Yields-divides a b = elim (Bool-cases (a % b == 0)) [
  | inl e ↦ rw e (yields (ground arith))
  | inr ne ↦ rw ne throws
]

module _ {F : Type 0} (c : Config F) where
  -- `validate` throws, or the counts of its configuration are positive and the query heads are a multiple
  -- of the KV heads.
  validate-IsValid : Yields IsValid (validate c)
  unfolding validate n_rep
  validate-IsValid =
      Yields-bind
        (Yields-then _ _
          (Yields-then _ _
            (Yields-then _ _
              (Yields-then _ _
                (Yields-then _ _
                  (Yields-then _ _
                    (Yields-then _ _
                      (Yields-then _ _ (Yields-need c.vocab_size) (Yields-need c.hidden_size))
                      (Yields-need c.intermediate_size))
                    (Yields-need c.num_layers))
                  (Yields-need c.num_attention_heads))
                (Yields-need c.num_kv_heads))
              (Yields-need c.head_dim))
            (Yields-need c.max_position_embeddings))
          (Yields-divides c.num_attention_heads c.num_kv_heads))
        λ _ p. yields (record {
          vocab = p.0.0.0.0.0.0.0.0;
          hidden = p.0.0.0.0.0.0.0.1;
          intermediate = p.0.0.0.0.0.0.1;
          layers = p.0.0.0.0.0.1;
          heads = p.0.0.0.0.1;
          kv_heads = p.0.0.0.1;
          dim = p.0.0.1;
          positions = p.0.1;
          grouped = omega (arith, p.1, div-add-mod' c.num_attention_heads c.num_kv_heads);
        })

module _ (fp : FloatOps) (read_float : fp.Float → Stream → fp.Float × Stream) where
  open fp use {Float}

  -- `load_config` throws, or the counts of the configuration it returns are positive and the query heads
  -- are a multiple of the KV heads.
  pub load_config-IsValid :
      (eps : Float) (file : Option Text) → Yields IsValid (load_config fp read_float eps file)
  unfolding load_config
  load_config-IsValid eps none = throws
  load_config-IsValid eps (some bytes) =
      Yields-bind
        (Yields-anything (outcome fp read_float (read_fields fp read_float (length bytes + 1) _ _)))
        λ c _. validate-IsValid c
