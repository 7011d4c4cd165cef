-- ===== src/Model/Batch.antt =====
-- cpp/src/model.cpp: Model::forward_batch and Model::forward_spec_batch.
use nanoinfer.Prelude.{
  ℕ, ◌+◌, ◌*◌, Bool, true, not, ◌||◌, List, [], ◌∷◌, ◌++◌, Option, none, some, length, ltb, ◌==◌,
  if◌then◌else◌, is_negative, ok, throw, invalid_argument, runtime_error, Method,
}
use nanoinfer.Prelude.Text.{Text, codes}
use nanoinfer.Prelude.Methods.{pure, run, gets, modify, for_method, raise_if, ◌>>=◌, ◌>>◌}
use nanoinfer.Floats.{FloatOps}
use nanoinfer.Tensor.{Tensor, cpu, make_tensor, size}
use nanoinfer.Config.{n_rep}
use nanoinfer.Model.{Model, layer_prefix, weight, project_biased, apply_qk_norm, embed_tokens}
use nanoinfer.Model.Caches.{KvCacheBase}
use nanoinfer.Model.Forward.{add_projected, add_ffn, logits_of}

module _ (fp : FloatOps) (partial_sort : (ℕ → ℕ → Bool) → ℕ → List ℕ → List ℕ) (m : Model fp.Float)
    {World : Type 0} (store : KvCacheBase fp.Float World) where
  open fp use {Float, zero_f}
  open store use {Ref}

  -- A sequence of a batch: its cache, its count of rows, the first of them, and its length before the step.
  pub record Slot : Type 0 where
    pub cache : Ref
    pub count : ℕ
    pub row_start : ℕ
    pub pos : ℕ

  abbrev pub ctx : ℕ
  ctx = size m.rope.cos 0

  -- `caches[s] == nullptr`
  abbrev pub not_null : Option Ref → Method World Ref
  not_null none w = (throw invalid_argument, w)
  not_null (some ref) w = (ok ref, w)

  -- The checks of `forward_batch` before the embedding, and `pos`.
  unfoldable pub decode_slots : ℕ → List (Option Ref) → Method World (List Slot)
  decode_slots s [] = pure []
  decode_slots s (c ∷ cs) =
      let others = decode_slots (s + 1) cs in
      do
        ref ← not_null c
        p ← gets (store.length ref)
        raise_if (ltb ctx (p + 1)) runtime_error
        rest ← others
        pure (record { cache = ref; count = 1; row_start = s; pos = p } ∷ rest)

  -- The checks of `forward_spec_batch` for the sequences from row `start` on, and `pos`, `row_start` and `M`.
  unfoldable pub verify_slots : ℕ → List (Option Ref) → List ℕ → Method World (List Slot × ℕ)
  verify_slots start [] counts = pure ([], start)
  verify_slots start (c ∷ cs) [] = pure ([], start)
  verify_slots start (c ∷ cs) (count ∷ counts) =
      let others = verify_slots (start + count) cs counts in
      do
        ref ← not_null c
        raise_if (is_negative count || ltb count 1) invalid_argument
        p ← gets (store.length ref)
        raise_if (ltb ctx (p + count)) runtime_error
        rest ← others
        pure (record { cache = ref; count = count; row_start = start; pos = p } ∷ rest.0, rest.1)

  -- The queries, keys and values of a layer.
  pub record Projected : Type 0 where
    pub q : Tensor Float
    pub k : Tensor Float
    pub v : Tensor Float

  unfoldable pub project_all : Tensor Float → Text → Method World Projected
  unfolding weight
  project_all x prefix = do
    norm ← run (weight m (prefix ++ codes "input_layernorm.weight"))
    h ← run (m.backend.rmsnorm x norm m.cfg.rms_norm_eps)
    q ← run (
        project_biased m h (prefix ++ codes "self_attn.q_proj.weight")
          (prefix ++ codes "self_attn.q_proj.bias"))
    k ← run (
        project_biased m h (prefix ++ codes "self_attn.k_proj.weight")
          (prefix ++ codes "self_attn.k_proj.bias"))
    v ← run (
        project_biased m h (prefix ++ codes "self_attn.v_proj.weight")
          (prefix ++ codes "self_attn.v_proj.bias"))
    pure (record { q = q; k = k; v = v })

  -- QK-Norm, the rotary embedding and the attention of a sequence over its own history.
  unfoldable pub attend_slot :
      ℕ → Slot → Tensor Float → Tensor Float → Tensor Float → Method World (Tensor Float)
  unfolding apply_qk_norm
  attend_slot i s q k v = do
    qk ← run (apply_qk_norm m q k (layer_prefix i))
    q ← run (m.backend.apply_rope (qk.0) m.rope.cos m.rope.sin s.pos)
    k ← run (m.backend.apply_rope (qk.1) m.rope.cos m.rope.sin s.pos)
    store.attend s.cache i q k v (n_rep m.cfg) true s.pos

  -- The round of `forward_batch` for one sequence.
  unfoldable pub decode_slot : ℕ → Projected → Slot → Tensor Float → Method World (Tensor Float)
  unfolding attend_slot
  decode_slot i p s attn = do
    q ← run (m.backend.extract_row p.q s.row_start m.cfg.num_attention_heads m.cfg.head_dim)
    k ← run (m.backend.extract_row p.k s.row_start m.cfg.num_kv_heads m.cfg.head_dim)
    v ← run (m.backend.extract_row p.v s.row_start m.cfg.num_kv_heads m.cfg.head_dim)
    a ← attend_slot i s q k v
    merged ← run (m.backend.merge_heads a)
    run (m.backend.place_row attn s.row_start merged)

  -- The round of `forward_spec_batch` for one sequence.
  unfoldable pub verify_slot : ℕ → Projected → Slot → Tensor Float → Method World (Tensor Float)
  unfolding attend_slot
  verify_slot i p s attn = do
    q ← run (m.backend.extract_rows p.q s.row_start s.count)
    q ← run (m.backend.split_heads q m.cfg.num_attention_heads m.cfg.head_dim)
    k ← run (m.backend.extract_rows p.k s.row_start s.count)
    k ← run (m.backend.split_heads k m.cfg.num_kv_heads m.cfg.head_dim)
    v ← run (m.backend.extract_rows p.v s.row_start s.count)
    v ← run (m.backend.split_heads v m.cfg.num_kv_heads m.cfg.head_dim)
    a ← attend_slot i s q k v
    merged ← run (m.backend.merge_heads a)
    run (m.backend.place_rows attn s.row_start merged)

  -- `for (s = 0; s < n; ++s)`
  unfoldable pub each_slot :
      (Slot → Tensor Float → Method World (Tensor Float))
      → List Slot
      → Tensor Float
      → Method World (Tensor Float)
  each_slot round [] attn = pure attn
  each_slot round (s ∷ slots) attn = let others = each_slot round slots in round s attn >>= others

  -- The body of the loop over layers, which both functions share but for the round of a sequence.
  unfoldable pub batch_layer :
      (ℕ → Projected → Slot → Tensor Float → Method World (Tensor Float))
      → ℕ
      → List Slot
      → ℕ
      → Tensor Float
      → Method World (Tensor Float)
  unfolding project_all each_slot
  batch_layer round rows slots i x = do
    p ← project_all x (layer_prefix i)
    attn ← run (m.backend.alloc (rows ∷ (m.cfg.num_attention_heads * m.cfg.head_dim) ∷ []))
    attn ← each_slot (round i p) slots attn
    x ← add_projected fp partial_sort m store x attn (layer_prefix i)
    add_ffn fp partial_sort m store x (layer_prefix i)

  -- `caches[s]->advance(counts[s])`
  unfoldable pub advance_all : List Slot → World → World
  advance_all [] w = w
  advance_all (s ∷ slots) w = advance_all slots (store.advance s.cache s.count w)

  -- What follows the checks.
  unfoldable pub run_batch :
      (ℕ → Projected → Slot → Tensor Float → Method World (Tensor Float))
      → ℕ
      → List ℕ
      → List Slot
      → Method World (Tensor Float)
  unfolding embed_tokens batch_layer advance_all
  run_batch round rows tokens slots = do
    x ← run (embed_tokens m tokens)
    x ← for_method m.cfg.num_layers 0 (batch_layer round rows slots) x
    modify (advance_all slots)
    logits_of fp partial_sort m store x

  -- `Tensor({0, vocab_size})`
  abbrev pub no_logits : Tensor Float
  no_logits = make_tensor zero_f (0 ∷ m.cfg.vocab_size ∷ []) cpu

  unfoldable pub forward_batch : List ℕ → List (Option Ref) → Method World (Tensor Float)
  unfolding decode_slots decode_slot run_batch
  forward_batch tokens caches = do
    raise_if (not (length caches == length tokens)) invalid_argument
    if length tokens == 0
        then pure no_logits
        else decode_slots 0 caches >>= run_batch decode_slot (length tokens) tokens

  unfoldable pub forward_spec_batch :
      List ℕ → List ℕ → List (Option Ref) → Method World (Tensor Float)
  unfolding verify_slots verify_slot run_batch
  forward_spec_batch tokens counts caches = do
    raise_if (not (length caches == length counts)) invalid_argument
    checked ← verify_slots 0 caches counts
    raise_if (not (checked.1 == length tokens)) invalid_argument
    if checked.1 == 0 then pure no_logits else run_batch verify_slot (checked.1) tokens (checked.0)
