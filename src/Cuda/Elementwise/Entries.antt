-- ===== src/Cuda/Elementwise/Entries.antt =====
-- cpp/src/cuda/cuda_elementwise.cu against cpp/src/ops.cpp: silu, mul, add, embedding and apply_rope.
use mathlib.Core.Path.{fun_ext}
use nanoinfer.Prelude.{
  ℕ, ◌+◌, ◌-◌, ◌*◌, ◌/◌, ◌%◌, ◌^◌, ◌≤◌, ◌<◌, ◌≡◌, sym, ap, ap₂, subst, ◌∙◌, List, [], ◌∷◌, arith,
  length, set, leb, ltb, if◌then◌else◌, get_or, ok, Yields, Yields-ok,
}
use nanoinfer.Prelude.Tabulate.{tabulate, eq_tabulate}
use nanoinfer.Prelude.Arith.{div-lt_of_lt_mul}
use nanoinfer.Floats.{FloatOps}
use nanoinfer.Tensor.{Tensor, f32, at3, numel_from}
use nanoinfer.Tensor.Access.{Is2d, Is3d, at2_row, offset3_row}
use nanoinfer.Tensor.Host.{IsHost}
use nanoinfer.Ops.Elementwise as Cpu
use nanoinfer.Ops.Elementwise.{silu_of}
use nanoinfer.Ops.Elementwise.Laws.{IsFilled, Zipped, mul-add-Zipped, silu-IsFilled}
use nanoinfer.Ops.Embedding as CpuEmbedding
use nanoinfer.Ops.Embedding.Rows.{Embedded, embedding-Embedded}
use nanoinfer.Ops.Rope as CpuRope
use nanoinfer.Ops.Rope.Laws.{apply_rope-at3}
use nanoinfer.Ops.Shapes.{silu-IsHost, mul-IsHost, add-IsHost}
use nanoinfer.Cuda.Launch.{IsOrder}
use nanoinfer.Cuda.Device.{DeviceTensor, Gpu, device_alloc}
use nanoinfer.Cuda.Device.Laws.{Mirrors}
use nanoinfer.Cuda.Elementwise.{
  load, launch_on, mul_kernel, add_kernel, rope_kernel, silu, mul, add, embedding, apply_rope,
}
use nanoinfer.Cuda.Elementwise.Index.{index3, mod-lt_of_lt_mul, values-at2, values-at3}
use nanoinfer.Cuda.Elementwise.Fill.{numel2, numel3, launch_on_fill}

module _ (fp : FloatOps) (g : Gpu fp.Float) (w : IsOrder g.order) where
  open fp use {Float, zero_f, mul_f, add_f, neg_f}

  -- The entries of a tensor that an operation filled.
  filled-values :
      (shape : List ℕ) (f : ℕ → Float) (y : Tensor Float)
      → IsHost shape y
      → IsFilled fp shape f y
      → y.values ≡ tabulate (numel_from 1 shape) f
  filled-values shape f y v (shaped, same) =
      eq_tabulate y.values (numel_from 1 shape) f zero_f v.stored same

  pub silu-Mirrors :
      (x : Tensor Float) (dx : DeviceTensor Float)
      → x.numel ≡ numel_from 1 x.shape
      → Mirrors dx x
      → 0 < x.numel
      → x.numel ≤ 2 ^ 32
      → (dy : DeviceTensor Float) × (silu fp g dx ≡ ok dy) × Mirrors dy (Cpu.silu fp x)
  unfolding silu
  silu-Mirrors x dx counted m pos small =
      let y = Cpu.silu fp x in
      let v : IsHost x.shape y = silu-IsHost fp x in
      let f : ℕ → Float = λ i. silu_of fp (load fp dx.buffer i) in
      let entries : y.values ≡ tabulate x.numel f =
        filled-values x.shape (λ i. silu_of fp (load fp x.values i)) y v
          (silu-IsFilled fp x counted)
        ∙ ap (λ n. tabulate n (λ i. silu_of fp (load fp x.values i))) (sym counted)
        ∙ ap (λ vs. tabulate x.numel (λ i. silu_of fp (load fp vs i))) (sym m.same_entries) in
      let (dy, run, my) =
        launch_on_fill fp g w x.shape x.numel f y counted pos small v.shaped
          (v.counted ∙ sym counted) entries in
      (dy, rw (m.same_shape, m.same_numel) run, my)

  guard_swap :
      (i n : ℕ) (a b : List Float) → (if ltb i n then a else b) ≡ (if leb n i then b else a)
  guard_swap i n a b = ground arith

  swap_kernel :
      (n : ℕ) (f : ℕ → Float)
      → ◌≡◌ {A = ℕ → List Float → List Float}
          (λ i o. if ltb i n then set o i (f i) else o)
          (λ i o. if leb n i then o else set o i (f i))
  swap_kernel n f = fun_ext λ i. fun_ext λ o. guard_swap i n (set o i (f i)) o

  -- The entry that a thread of `rope_kernel` writes.
  abbrev rope_entry : ℕ → ℕ → ℕ → List Float → List Float → List Float → ℕ → Float
  rope_entry seq dim pos_offset x cos_t sin_t idx =
      let h = idx / (seq * dim) in
      let rem = idx % (seq * dim) in
      let p = rem / dim in
      let d = rem % dim in
      let pos = pos_offset + p in
      let base = h * seq * dim + p * dim in
      let rot =
        if ltb d (dim / 2)
        then neg_f (load fp x (base + (d + dim / 2)))
        else load fp x (base + (d - dim / 2)) in
      add_f (mul_f (load fp x idx) (load fp cos_t (pos * dim + d)))
        (mul_f rot (load fp sin_t (pos * dim + d)))

  module _ (a b : Tensor Float) (da db : DeviceTensor Float)
      (counted : a.numel ≡ numel_from 1 a.shape) (same : a.shape ≡ b.shape) (ma : Mirrors da a)
      (mb : Mirrors db b) (pos : 0 < a.numel) (small : a.numel ≤ 2 ^ 32) where
    zip-entries :
        (op : Float → Float → Float) (y : Tensor Float)
        → IsHost a.shape y
        → IsFilled fp a.shape (λ i. op (load fp a.values i) (load fp b.values i)) y
        → y.values ≡ tabulate a.numel (λ i. op (load fp da.buffer i) (load fp db.buffer i))
    zip-entries op y v filled =
        filled-values a.shape (λ i. op (load fp a.values i) (load fp b.values i)) y v filled
        ∙ ap (λ n. tabulate n (λ i. op (load fp a.values i) (load fp b.values i))) (sym counted)
        ∙ ap₂ (λ us vs. tabulate a.numel (λ i. op (load fp us i) (load fp vs i)))
            (sym ma.same_entries) (sym mb.same_entries)

    pub mul-Mirrors :
        (y : Tensor Float)
        → Cpu.mul fp a b ≡ ok y
        → (dy : DeviceTensor Float) × (mul fp g da db ≡ ok dy) × Mirrors dy y
    unfolding mul mul_kernel
    mul-Mirrors y e =
        let v : IsHost a.shape y =
          Yields-ok (subst (Yields (IsHost a.shape)) e (mul-IsHost fp a b)) in
        let z : Zipped fp mul_f a b (ok y) =
          subst (Zipped fp mul_f a b) e (mul-add-Zipped fp a b counted).0 in
        let (dy, run, my) =
          launch_on_fill fp g w a.shape a.numel
            (λ i. mul_f (load fp da.buffer i) (load fp db.buffer i)) y counted pos small v.shaped
            (v.counted ∙ sym counted) (zip-entries mul_f y v z.1) in
        (
          dy,
          rw (ma.same_shape, ma.same_numel)
              (ap (λ k. launch_on fp g a.numel k (device_alloc fp g 0 a.shape f32))
                  (swap_kernel a.numel (λ i. mul_f (load fp da.buffer i) (load fp db.buffer i)))
                ∙ run),
          my,
        )

    pub add-Mirrors :
        (y : Tensor Float)
        → Cpu.add fp a b ≡ ok y
        → (dy : DeviceTensor Float) × (add fp g da db ≡ ok dy) × Mirrors dy y
    unfolding add add_kernel
    add-Mirrors y e =
        let v : IsHost a.shape y =
          Yields-ok (subst (Yields (IsHost a.shape)) e (add-IsHost fp a b)) in
        let z : Zipped fp add_f a b (ok y) =
          subst (Zipped fp add_f a b) e (mul-add-Zipped fp a b counted).1 in
        let (dy, run, my) =
          launch_on_fill fp g w a.shape a.numel
            (λ i. add_f (load fp da.buffer i) (load fp db.buffer i)) y counted pos small v.shaped
            (v.counted ∙ sym counted) (zip-entries add_f y v z.1) in
        (
          dy,
          rw (ma.same_shape, ma.same_numel)
              (ap (λ k. launch_on fp g a.numel k (device_alloc fp g 0 a.shape f32))
                  (swap_kernel a.numel (λ i. add_f (load fp da.buffer i) (load fp db.buffer i)))
                ∙ run),
          my,
        )

  pub embedding-Mirrors :
      (table : Tensor Float) (dt : DeviceTensor Float) (ids : List ℕ) (vocab hidden : ℕ)
      (y : Tensor Float)
      → Is2d vocab hidden table
      → Mirrors dt table
      → 0 < length ids * hidden
      → length ids * hidden ≤ 2 ^ 32
      → CpuEmbedding.embedding zero_f table ids ≡ ok y
      → (dy : DeviceTensor Float) × (embedding fp g dt ids ≡ ok dy) × Mirrors dy y
  unfolding embedding
  embedding-Mirrors table dt ids vocab hidden y v m pos small e =
      let (yv, known, rows) =
        subst (Embedded zero_f vocab hidden table ids) e
          (embedding-Embedded zero_f vocab hidden table ids v) in
      let from : ℕ → ℕ = λ idx. get_or ids (idx / hidden) 0 * hidden + idx % hidden in
      let f : ℕ → Float = λ idx. load fp dt.buffer (from idx) in
      let entries : y.values ≡ tabulate (length ids * hidden) f =
        values-at2 zero_f (length ids) hidden y f yv λ idx h.
          rows (idx / hidden) (idx % hidden) (div-lt_of_lt_mul hidden idx (length ids) h)
            (mod-lt_of_lt_mul (length ids) hidden idx h)
          ∙ at2_row zero_f vocab hidden table v (get_or ids (idx / hidden) 0) (idx % hidden)
          ∙ ap (λ vs. load fp vs (from idx)) (sym m.same_entries) in
      let (dy, run, my) =
        launch_on_fill fp g w (length ids ∷ hidden ∷ []) (length ids * hidden) f y
          (numel2 (length ids) hidden) pos small yv.shape yv.numel entries in
      (dy, rw (m.same_shape, v.shape) run, my)

  -- On copies of a tensor and of tables that reach all its positions, apply_rope on the device gives
  -- a copy of what apply_rope on the host gives, in every order of threads, if the tensor has at
  -- least one entry and at most 2^32.
  pub apply_rope-Mirrors :
      (x cos sin : Tensor Float) (dx dc ds : DeviceTensor Float)
      (heads seq dim reach pos_offset : ℕ)
      → Is3d heads seq dim x
      → Is2d reach dim cos
      → Is2d reach dim sin
      → Mirrors dx x
      → Mirrors dc cos
      → Mirrors ds sin
      → pos_offset + seq ≤ reach
      → 0 < heads * seq * dim
      → heads * seq * dim ≤ 2 ^ 32
      → (y : Tensor Float) × (dy : DeviceTensor Float) × (CpuRope.apply_rope fp x cos sin pos_offset
          ≡ ok y)
        × (apply_rope fp g dx dc ds pos_offset ≡ ok dy)
        × Mirrors dy y
  unfolding apply_rope rope_kernel at3
  apply_rope-Mirrors x cos sin dx dc ds heads seq dim reach pos_offset v vc vs m mc ms room pos
        small =
      let (y, rope, yv, yat) =
        apply_rope-at3 fp x cos sin heads seq dim reach pos_offset v vc vs room in
      let turn : List Float → List Float → List Float → ℕ → Float = rope_entry seq dim pos_offset in
      let entries : y.values ≡ tabulate (heads * seq * dim) (turn dx.buffer dc.buffer ds.buffer) =
        values-at3 zero_f heads seq dim y (turn dx.buffer dc.buffer ds.buffer) yv λ idx h.
          let i = index3 heads seq dim idx h in
          let h' = idx / (seq * dim) in
          let p = idx % (seq * dim) / dim in
          let d = idx % (seq * dim) % dim in
          let base = h' * seq * dim + p * dim in
          let read : (k : ℕ) → at3 zero_f x h' p k ≡ load fp dx.buffer (base + k) = λ k.
            ap (load fp x.values) (offset3_row zero_f heads seq dim x v h' p k ∙ omega arith)
            ∙ ap (λ us. load fp us (base + k)) (sym m.same_entries) in
          let here : base + d ≡ idx = omega (arith, i.whole) in
          yat _ _ _ i.plane i.row i.column
          ∙ ap₂ add_f
              (ap₂ mul_f (read d ∙ ap (load fp dx.buffer) here) (
                at2_row zero_f reach dim cos vc (pos_offset + p) d
                ∙ ap (λ us. load fp us ((pos_offset + p) * dim + d)) (sym mc.same_entries)))
              (ap₂ mul_f
                (ap₂ (λ far near. if ltb d (dim / 2) then neg_f far else near) (read (d + dim / 2))
                  (read (d - dim / 2)))
                (at2_row zero_f reach dim sin vs (pos_offset + p) d
                  ∙ ap (λ us. load fp us ((pos_offset + p) * dim + d)) (sym ms.same_entries))) in
      let (dy, run, my) =
        launch_on_fill fp g w (heads ∷ seq ∷ dim ∷ []) (heads * seq * dim)
          (turn dx.buffer dc.buffer ds.buffer) y (numel3 heads seq dim) pos small yv.shape yv.numel
          entries in
      (
        y,
        dy,
        rope,
        ap
              (λ sh.
                let a = get_or sh 0 0 in
                let b = get_or sh 1 0 in
                let c = get_or sh 2 0 in
                launch_on fp g (a * b * c)
                  (rope_kernel fp dx.buffer dc.buffer ds.buffer a b c pos_offset)
                  (device_alloc fp g 0 (a ∷ b ∷ c ∷ []) f32))
              (m.same_shape ∙ v.shape)
            ∙ run,
        my,
      )
