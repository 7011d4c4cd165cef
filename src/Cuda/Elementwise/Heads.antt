-- ===== src/Cuda/Elementwise/Heads.antt =====
-- cpp/src/cuda/cuda_elementwise.cu against cpp/src/ops.cpp: split_heads and repeat_kv.
use native.Mathlib.Nat.{div-add-mod'}
use nanoinfer.Prelude.{ℕ, ◌+◌, ◌*◌, ◌/◌, ◌%◌, ◌^◌, ◌≤◌, ◌<◌, ◌≡◌, sym, ap, ◌∙◌, [], ◌∷◌, arith, ok}
use nanoinfer.Prelude.Tabulate.{tabulate}
use nanoinfer.Prelude.Arith.{div-lt_of_lt_mul}
use nanoinfer.Floats.{FloatOps}
use nanoinfer.Tensor.{Tensor, at3}
use nanoinfer.Tensor.Access.{Is2d, Is3d, at2_row, offset3_row}
use nanoinfer.Ops.Heads as Cpu
use nanoinfer.Ops.Heads.Laws.{split_heads-at3, repeat_kv-at3}
use nanoinfer.Cuda.Launch.{IsOrder}
use nanoinfer.Cuda.Device.{DeviceTensor, Gpu}
use nanoinfer.Cuda.Device.Laws.{Mirrors}
use nanoinfer.Cuda.Elementwise.{load, split_heads, repeat_kv}
use nanoinfer.Cuda.Elementwise.Index.{index3, mod-lt_of_lt_mul, values-at3}
use nanoinfer.Cuda.Elementwise.Fill.{numel3, launch_on_fill}

module _ (fp : FloatOps) (g : Gpu fp.Float) (w : IsOrder g.order) where
  open fp use {Float, zero_f}

  pub split_heads-Mirrors :
      (x : Tensor Float) (dx : DeviceTensor Float) (seq n_heads head_dim : ℕ)
      → Is2d seq (n_heads * head_dim) x
      → Mirrors dx x
      → 0 < n_heads * seq * head_dim
      → n_heads * seq * head_dim ≤ 2 ^ 32
      → (y : Tensor Float) × (dy : DeviceTensor Float) × (Cpu.split_heads zero_f x n_heads head_dim
          ≡ ok y)
        × (split_heads fp g dx n_heads head_dim ≡ ok dy)
        × Mirrors dy y
  unfolding split_heads
  split_heads-Mirrors x dx seq n_heads head_dim v m pos small =
      let (y, split, yv, yat) = split_heads-at3 zero_f x seq n_heads head_dim v in
      let from : ℕ → ℕ = λ idx.
        idx % (seq * head_dim) / head_dim * (n_heads * head_dim)
        + idx / (seq * head_dim) * head_dim
        + idx % (seq * head_dim) % head_dim in
      let f : ℕ → Float = λ idx. load fp dx.buffer (from idx) in
      let entries : y.values ≡ tabulate (n_heads * seq * head_dim) f =
        values-at3 zero_f n_heads seq head_dim y f yv λ idx h.
          let i = index3 n_heads seq head_dim idx h in
          yat _ _ _ i.plane i.row i.column
          ∙ at2_row zero_f seq (n_heads * head_dim) x v _ _
          ∙ ap (load fp x.values) (omega arith)
          ∙ ap (λ vs. load fp vs (from idx)) (sym m.same_entries) in
      let (dy, run, my) =
        launch_on_fill fp g w (n_heads ∷ seq ∷ head_dim ∷ []) (n_heads * seq * head_dim) f y
          (numel3 n_heads seq head_dim) pos small yv.shape yv.numel entries in
      (y, dy, split, rw (m.same_shape, v.shape) run, my)

  pub repeat_kv-Mirrors :
      (x : Tensor Float) (dx : DeviceTensor Float) (kv seq dim n_rep : ℕ)
      → Is3d kv seq dim x
      → Mirrors dx x
      → 0 < n_rep
      → n_rep < 2 ^ 63
      → 0 < kv * n_rep * seq * dim
      → kv * n_rep * seq * dim ≤ 2 ^ 32
      → (y : Tensor Float) × (dy : DeviceTensor Float) × (Cpu.repeat_kv zero_f x n_rep ≡ ok y)
        × (repeat_kv fp g dx n_rep ≡ ok dy)
        × Mirrors dy y
  unfolding repeat_kv at3
  repeat_kv-Mirrors x dx kv seq dim n_rep v m some_rep few_rep pos small =
      let (y, repeat, yv, yat) = repeat_kv-at3 zero_f x kv seq dim n_rep v some_rep few_rep in
      let from : ℕ → ℕ = λ idx.
        (idx / (seq * dim) / n_rep * seq + idx % (seq * dim) / dim) * dim
        + idx % (seq * dim) % dim in
      let f : ℕ → Float = λ idx. load fp dx.buffer (from idx) in
      let entries : y.values ≡ tabulate (kv * n_rep * seq * dim) f =
        values-at3 zero_f (kv * n_rep) seq dim y f yv λ idx h.
          let i = index3 (kv * n_rep) seq dim idx h in
          let oh = idx / (seq * dim) in
          ap (λ o. at3 zero_f y o (idx % (seq * dim) / dim) (idx % (seq * dim) % dim))
            (sym (div-add-mod' oh n_rep))
          ∙ yat (oh / n_rep) (oh % n_rep) _ _ (div-lt_of_lt_mul n_rep oh kv i.plane)
              (mod-lt_of_lt_mul kv n_rep oh i.plane) i.row i.column
          ∙ ap (load fp x.values) (offset3_row zero_f kv seq dim x v _ _ _)
          ∙ ap (λ vs. load fp vs (from idx)) (sym m.same_entries) in
      let (dy, run, my) =
        launch_on_fill fp g w ((kv * n_rep) ∷ seq ∷ dim ∷ []) (kv * n_rep * seq * dim) f y
          (numel3 (kv * n_rep) seq dim) pos small yv.shape yv.numel entries in
      (y, dy, repeat, rw (m.same_shape, v.shape) run, my)
