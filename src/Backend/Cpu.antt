-- ===== src/Backend/Cpu.antt =====
-- cpp/src/backend.cpp: the backend of the CPU, and the choice of a backend in a build without CUDA.
use nanoinfer.Prelude.{◌&&◌, if◌then◌else◌, Result, ok, throw, invalid_argument, runtime_error}
use nanoinfer.Floats.{FloatOps}
use nanoinfer.Tensor.{Device, cpu, cuda, metal, make_tensor}
use nanoinfer.Ops.Heads as Heads
use nanoinfer.Ops.Elementwise as Elementwise
use nanoinfer.Ops.Embedding as Embedding
use nanoinfer.Ops.Linear as Linear
use nanoinfer.Ops.Norms as Norms
use nanoinfer.Ops.Rope as Rope
use nanoinfer.Ops.Attention as Attention
use nanoinfer.Quant.Weights.{make_quantized, make_q8_embed}
use nanoinfer.Backend.{Backend, BackendConfig}
use nanoinfer.Backend.Rows as Rows

module _ (fp : FloatOps) where
  open fp use {Float, zero_f}

  unfoldable pub cpu_backend : Backend Float
  cpu_backend = record {
    device = cpu;
    embedding = λ table ids. Embedding.embedding zero_f table ids;
    linear = λ x w bias. Linear.linear fp x w bias;
    rmsnorm = λ x w eps. Norms.rmsnorm fp x w eps;
    silu = λ x. ok (Elementwise.silu fp x);
    mul = λ a b. Elementwise.mul fp a b;
    add = λ a b. Elementwise.add fp a b;
    split_heads = λ x n dim. Heads.split_heads zero_f x n dim;
    merge_heads = λ x. Heads.merge_heads zero_f x;
    repeat_kv = λ x n_rep. Heads.repeat_kv zero_f x n_rep;
    apply_rope = λ x cos sin off. Rope.apply_rope fp x cos sin off;
    attention = λ q k v causal off. Attention.attention fp q k v causal off;
    alloc = λ shape. ok (make_tensor zero_f shape cpu);
    extract_row = λ x s heads dim. ok (Rows.extract_row fp x s heads dim);
    place_row = λ dst s row. ok (Rows.place_row fp dst s row);
    extract_rows = λ x start count. ok (Rows.extract_rows fp x start count);
    place_rows = λ dst start block. ok (Rows.place_rows fp dst start block);
    to_host_copy = λ x. Rows.to_host_copy fp x;
    zeros = λ shape. ok (Rows.zeros fp shape);
    gather_rows = λ x rows. ok (Rows.gather_rows fp x rows);
    scatter_add_rows = λ dst rows scale src. ok (Rows.scatter_add_rows fp dst rows scale src);
    finalize_logits = λ logits. ok logits;
    to_resident = λ w half_eligible. ok w;
    make_quant_weight = λ w mode. make_quantized fp w mode;
    make_embed_weight = λ w. make_q8_embed fp w;
  }

  unfoldable pub make_backend : Device → BackendConfig → Result (Backend Float)
  make_backend device cfg =
      if cfg.fp16_weights && cfg.bf16_weights then throw invalid_argument else elim device [
        | cpu ↦ ok cpu_backend
        | cuda ↦ throw runtime_error
        | metal ↦ throw runtime_error
      ]
