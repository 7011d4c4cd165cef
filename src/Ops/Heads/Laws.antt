-- ===== src/Ops/Heads/Laws.antt =====
-- cpp/src/ops.cpp: where split_heads, merge_heads and repeat_kv put each entry.
use native.Mathlib.Nat.{div-add-mod'}
use nanoinfer.Prelude.{
  ℕ, ◌+◌, ◌*◌, ◌<◌, ◌≡◌, ◌∙◌, [], ◌∷◌, arith, ==_refl, ok, subst, ◌/◌, ◌%◌, ◌^◌, le→leb, false,
  is_negative,
}
use nanoinfer.Prelude.Arith.{row_inj, row_bound, div-lt_of_lt_mul}
use nanoinfer.Prelude.Loops.{
  for_range, for_range-keep, for_range-hit, for3, for3-hit, for3-miss, for3-keep,
}
use nanoinfer.Tensor.{Tensor, cpu, make_tensor, at2, at3, set_at2, set_at3}
use nanoinfer.Tensor.Access.{
  Is2d, Is3d, make_tensor-Is2d, make_tensor-Is3d, at3-set_at3_self, at3-set_at3_ne, set_at3-Is3d,
  at2-set_at2_self, at2-set_at2_ne, set_at2-Is2d,
}
use nanoinfer.Ops.Heads.{split_heads, merge_heads, repeat_kv}

not_negative : (n : ℕ) → n < 2 ^ 63 → is_negative n ≡ false
not_negative n h = ground arith

module _ {F : Type 0} (nought : F) where
  -- The loops of `split_heads`.
  splits : (seq n_heads head_dim : ℕ) → Tensor F → Tensor F
  splits seq n_heads head_dim x =
      for3 seq n_heads head_dim (λ s h d out. set_at3 out h s d (at2 nought x s (h * head_dim + d)))
        (make_tensor nought (n_heads ∷ seq ∷ head_dim ∷ []) cpu)

  split_heads-eq :
      (x : Tensor F) (seq n_heads head_dim : ℕ)
      → Is2d seq (n_heads * head_dim) x
      → split_heads nought x n_heads head_dim ≡ ok (splits seq n_heads head_dim x)
  unfolding split_heads splits
  split_heads-eq x seq n_heads head_dim v = rw (v.shape, ==_refl (n_heads * head_dim))

  -- A row of `n_heads * head_dim` entries becomes one row for each head.
  pub split_heads-at3 :
      (x : Tensor F) (seq n_heads head_dim : ℕ)
      → Is2d seq (n_heads * head_dim) x
      → (y : Tensor F) × (split_heads nought x n_heads head_dim ≡ ok y)
        × Is3d n_heads seq head_dim y
        × ((h s d : ℕ)
            → h < n_heads
            → s < seq
            → d < head_dim
            → at3 nought y h s d ≡ at2 nought x s (h * head_dim + d))
  unfolding splits
  split_heads-at3 x seq n_heads head_dim v =
      let body : ℕ → ℕ → ℕ → Tensor F → Tensor F =
        λ s h d out. set_at3 out h s d (at2 nought x s (h * head_dim + d)) in
      let keeps : (s h d : ℕ) (u : Tensor F)
          → Is3d n_heads seq head_dim u
          → Is3d n_heads seq head_dim (body s h d u) =
        λ s h d u w. set_at3-Is3d nought n_heads seq head_dim u h s d _ w in
      (
        splits seq n_heads head_dim x,
        split_heads-eq x seq n_heads head_dim v,
        for3-keep (Is3d n_heads seq head_dim) body keeps seq n_heads head_dim _
            (make_tensor-Is3d nought n_heads seq head_dim),
        λ h s d hh hs hd.
            for3-hit (Is3d n_heads seq head_dim) body keeps seq n_heads head_dim
              (λ u. at3 nought u h s d) s h d (at2 nought x s (h * head_dim + d)) _ hs hh hd
              (λ u w. at3-set_at3_self nought n_heads seq head_dim u h s d _ w hh hs hd)
              (λ s' h' d' u hs' hh' hd' ne w.
                at3-set_at3_ne nought n_heads seq head_dim u h s d h' s' d' _ w hs hd hs' hd'
                  (λ e. ne (e.1, e.0, e.2)))
              (make_tensor-Is3d nought n_heads seq head_dim),
      )

  -- Head `h` of the sequence comes back at columns `h * head_dim` and on.
  pub merge_heads-at2 :
      (x : Tensor F) (heads seq dim : ℕ)
      → Is3d heads seq dim x
      → (y : Tensor F) × (merge_heads nought x ≡ ok y)
        × Is2d seq (heads * dim) y
        × ((h s d : ℕ)
            → h < heads
            → s < seq
            → d < dim
            → at2 nought y s (h * dim + d) ≡ at3 nought x h s d)
  unfolding merge_heads
  merge_heads-at2 x heads seq dim v =
      let body : ℕ → ℕ → ℕ → Tensor F → Tensor F =
        λ h s d out. set_at2 out s (h * dim + d) (at3 nought x h s d) in
      let keeps : (h s d : ℕ) (u : Tensor F)
          → Is2d seq (heads * dim) u
          → Is2d seq (heads * dim) (body h s d u) =
        λ h s d u w. set_at2-Is2d nought seq (heads * dim) u s (h * dim + d) _ w in
      (
        for3 heads seq dim body (make_tensor nought (seq ∷ (heads * dim) ∷ []) cpu),
        rw v.shape,
        for3-keep (Is2d seq (heads * dim)) body keeps heads seq dim _
            (make_tensor-Is2d nought seq (heads * dim)),
        λ h s d hh hs hd.
            for3-hit (Is2d seq (heads * dim)) body keeps heads seq dim
              (λ u. at2 nought u s (h * dim + d)) h s d (at3 nought x h s d) _ hh hs hd
              (λ u w.
                at2-set_at2_self nought seq (heads * dim) u s (h * dim + d) _ w hs
                  (row_bound dim heads h d hh hd))
              (λ h' s' d' u hh' hs' hd' ne w.
                at2-set_at2_ne nought seq (heads * dim) u s (h * dim + d) s' (h' * dim + d') _ w
                  (row_bound dim heads h d hh hd) (row_bound dim heads h' d' hh' hd')
                  (λ e. let (eh, ed) = row_inj dim h' d' h d hd' hd e.1 in ne (eh, e.0, ed)))
              (make_tensor-Is2d nought seq (heads * dim)),
      )

  -- Splitting a tensor into heads and merging them succeeds and gives every entry back.
  pub merge-split_heads :
      (x : Tensor F) (seq n_heads head_dim : ℕ)
      → Is2d seq (n_heads * head_dim) x
      → (y z : Tensor F) × (split_heads nought x n_heads head_dim ≡ ok y)
        × (merge_heads nought y ≡ ok z)
        × Is2d seq (n_heads * head_dim) z
        × ((s c : ℕ) → s < seq → c < n_heads * head_dim → at2 nought z s c ≡ at2 nought x s c)
  merge-split_heads x seq n_heads head_dim v =
      let (y, split, yv, yat) = split_heads-at3 x seq n_heads head_dim v in
      let (z, merge, zv, zat) = merge_heads-at2 y n_heads seq head_dim yv in
      (
        y,
        z,
        split,
        merge,
        zv,
        λ s c hs hc.
            let h = c / head_dim in
            let d = c % head_dim in
            let hh : h < n_heads = div-lt_of_lt_mul head_dim c n_heads hc in
            let hd : d < head_dim = ground arith in
            subst (λ k. at2 nought z s k ≡ at2 nought x s k) (div-add-mod' c head_dim)
              (zat h s d hh hs hd ∙ yat h s d hh hs hd),
      )

  -- Every query head reads the entries of its KV head: head `j * n_rep + r` is head `j`.
  pub repeat_kv-at3 :
      (x : Tensor F) (kv seq dim n_rep : ℕ)
      → Is3d kv seq dim x
      → 0 < n_rep
      → n_rep < 2 ^ 63
      → (y : Tensor F) × (repeat_kv nought x n_rep ≡ ok y)
        × Is3d (kv * n_rep) seq dim y
        × ((j r s d : ℕ)
            → j < kv
            → r < n_rep
            → s < seq
            → d < dim
            → at3 nought y (j * n_rep + r) s d ≡ at3 nought x j s d)
  unfolding repeat_kv
  repeat_kv-at3 x kv seq dim n_rep v pos small =
      let body : ℕ → ℕ → ℕ → ℕ → Tensor F → Tensor F =
        λ j r s d out. set_at3 out (j * n_rep + r) s d (at3 nought x j s d) in
      let keeps : (j r s d : ℕ) (u : Tensor F)
          → Is3d (kv * n_rep) seq dim u
          → Is3d (kv * n_rep) seq dim (body j r s d u) =
        λ j r s d u w. set_at3-Is3d nought (kv * n_rep) seq dim u (j * n_rep + r) s d _ w in
      let rounds : (j : ℕ) (u : Tensor F)
          → Is3d (kv * n_rep) seq dim u
          → Is3d (kv * n_rep) seq dim (for3 n_rep seq dim (body j) u) =
        λ j u w. for3-keep (Is3d (kv * n_rep) seq dim) (body j) (keeps j) n_rep seq dim u w in
      (
        for_range kv 0 (λ j out. for3 n_rep seq dim (body j) out)
            (make_tensor nought ((kv * n_rep) ∷ seq ∷ dim ∷ []) cpu),
        rw (v.shape, not_negative n_rep small, le→leb 1 n_rep pos),
        for_range-keep (Is3d (kv * n_rep) seq dim) _ rounds kv 0 _
            (make_tensor-Is3d nought (kv * n_rep) seq dim),
        λ j r s d hj hr hs hd.
            for_range-hit (Is3d (kv * n_rep) seq dim) _ rounds
              (λ u. at3 nought u (j * n_rep + r) s d) j (at3 nought x j s d) kv 0 _ (omega arith)
              (omega arith)
              (λ u w.
                for3-hit (Is3d (kv * n_rep) seq dim) (body j) (keeps j) n_rep seq dim
                  (λ u. at3 nought u (j * n_rep + r) s d) r s d (at3 nought x j s d) u hr hs hd
                  (λ u w.
                    at3-set_at3_self nought (kv * n_rep) seq dim u (j * n_rep + r) s d _ w
                      (row_bound n_rep kv j r hj hr) hs hd)
                  (λ r' s' d' u hr' hs' hd' ne w.
                    at3-set_at3_ne nought (kv * n_rep) seq dim u (j * n_rep + r) s d
                      (j * n_rep + r') s' d' _ w hs hd hs' hd'
                      (λ e. ne ((row_inj n_rep j r' j r hr' hr e.0).1, e.1, e.2)))
                  w)
              (λ j' u _ hj' ne w.
                for3-miss (Is3d (kv * n_rep) seq dim) (body j') (keeps j') n_rep seq dim
                  (λ u. at3 nought u (j * n_rep + r) s d) u
                  (λ r' s' d' u hr' hs' hd' w.
                    at3-set_at3_ne nought (kv * n_rep) seq dim u (j * n_rep + r) s d
                      (j' * n_rep + r') s' d' _ w hs hd hs' hd'
                      (λ e. ne (row_inj n_rep j' r' j r hr' hr e.0).0))
                  w)
              (make_tensor-Is3d nought (kv * n_rep) seq dim),
      )
