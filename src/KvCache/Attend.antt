-- ===== src/KvCache/Attend.antt =====
-- cpp/src/cache.cpp: KVCache::attend, which gathers the history, expands the KV heads and calls the
-- attention operation.
use native.Mathlib.Nat.{div-add-mod'}
use nanoinfer.Prelude.{
  ℕ, ◌+◌, ◌*◌, ◌/◌, ◌%◌, ◌^◌, ◌≤◌, ◌<◌, ◌≡◌, refl, sym, ap, ◌∙◌, Bool, arith, length, ok, Result,
  Method, continue, and_then,
}
use nanoinfer.Prelude.Arith.{div-lt_of_lt_mul}
use nanoinfer.Floats.{FloatOps}
use nanoinfer.Tensor.{Tensor, size, at3}
use nanoinfer.Tensor.Access.{Is3d}
use nanoinfer.Ops.Heads.{repeat_kv}
use nanoinfer.Ops.Heads.Laws.{repeat_kv-at3}
use nanoinfer.Ops.Attention.{attention, attend_heads}
use nanoinfer.Ops.Attention.Agreement.{attention-eq, attend_heads-cong}
use nanoinfer.KvCache.{KvCache, update}
use nanoinfer.KvCache.Buffers.{read}
use nanoinfer.KvCache.Update.{IsCache, entry}
use nanoinfer.KvCache.Contract.{IsUpdated, update_total}

module _ (fp : FloatOps) where
  open fp use {Float, zero_f}

  -- `attend` after its `update`.
  unfoldable pub attend_gathered :
      Tensor Float → ℕ → Bool → ℕ → Tensor Float × Tensor Float → Result (Tensor Float)
  attend_gathered q n_rep causal query_offset kv =
      and_then (repeat_kv zero_f (kv.0) n_rep) λ kk.
        and_then (repeat_kv zero_f (kv.1) n_rep) λ vv. attention fp q kk vv causal query_offset

  unfoldable pub attend :
      ℕ
      → Tensor Float
      → Tensor Float
      → Tensor Float
      → ℕ
      → Bool
      → ℕ
      → Method (KvCache Float) (Tensor Float)
  unfolding attend_gathered
  attend layer q k v n_rep causal query_offset c =
      continue (update zero_f layer k v c)
        λ kv c'. (attend_gathered q n_rep causal query_offset kv, c')

  -- The expanded heads read the entries of their KV head.
  gathered-eq :
      (n_kv n_rep sq sk dim off : ℕ) (q k v : Tensor Float) (causal : Bool)
      → 0 < n_rep
      → n_rep < 2 ^ 63
      → Is3d (n_kv * n_rep) sq dim q
      → Is3d n_kv sk dim k
      → Is3d n_kv sk dim v
      → off + sq ≡ sk
      → attend_gathered q n_rep causal off (k, v)
        ≡ ok (
            attend_heads fp q
              (λ h. at3 zero_f k (h / n_rep))
              (λ h. at3 zero_f v (h / n_rep))
              sk
              causal
              off)
  unfolding attend_gathered
  gathered-eq n_kv n_rep sq sk dim off q k v causal pos small wq wk wv end =
      let (kk, ek, wkk, read_k) = repeat_kv-at3 zero_f k n_kv sk dim n_rep wk pos small in
      let (vv, ev, wvv, read_v) = repeat_kv-at3 zero_f v n_kv sk dim n_rep wv pos small in
      simp (ek, ev)
        (attention-eq fp (n_kv * n_rep) sq sk dim q kk vv causal off wq wkk wvv end
          ∙ ap ok (
              attend_heads-cong fp q _ _ _ _ sk causal off (rw wq.shape (omega arith))
                (λ h j x hh hj hx.
                  expanded h j x kk k read_k (rw wq.shape at hh) hj (rw wq.shape at hx))
                (λ h j x hh hj hx.
                  expanded h j x vv v read_v (rw wq.shape at hh) hj (rw wq.shape at hx))))
    where
      expanded :
          (h j x : ℕ) (y z : Tensor Float)
          → ((i r s d : ℕ)
              → i < n_kv
              → r < n_rep
              → s < sk
              → d < dim
              → at3 zero_f y (i * n_rep + r) s d ≡ at3 zero_f z i s d)
          → h < n_kv * n_rep
          → j < sk
          → x < dim
          → at3 zero_f y h j x ≡ at3 zero_f z (h / n_rep) j x
      expanded h j x y z same hh hj hx =
          ap (λ i. at3 zero_f y i j x) (sym (div-add-mod' h n_rep))
          ∙ same (h / n_rep) (h % n_rep) j x (div-lt_of_lt_mul n_rep h n_kv hh) (omega arith) hj hx

  -- With room left, `attend` stores the new tokens and returns the attention over the entries that the
  -- cache then holds, each query head reading its KV head.
  pub attend-eq :
      (layer n_rep t : ℕ) (q k v : Tensor Float) (causal : Bool) (c : KvCache Float)
      → IsCache zero_f c
      → layer < length c.k
      → layer < 2 ^ 63
      → 0 < n_rep
      → n_rep < 2 ^ 63
      → size k 1 ≡ t
      → c.filled + t ≤ c.max_seq
      → Is3d (c.n_kv_heads * n_rep) t c.head_dim q
      → (c' : KvCache Float) × (out : Tensor Float × Tensor Float) × (attend layer q k v n_rep
            causal c.filled c
          ≡ (
            ok (
                attend_heads fp q
                  (λ h j x. (entry zero_f c' layer (h / n_rep) j x).0)
                  (λ h j x. (entry zero_f c' layer (h / n_rep) j x).1)
                  (c.filled + t)
                  causal
                  c.filled),
            c',
          ))
        × IsUpdated zero_f layer t (k, v) c c' out
  unfolding attend
  attend-eq layer n_rep t q k v causal c w h small pos rep_small et room wq =
      let (out, c', e, u) = update_total zero_f layer k v c w h small (rw et room) in
      let done : IsUpdated zero_f layer t (k, v) c c' out = rw et at u in
      (
        c',
        out,
        simp e (
            ap
              (λ (r : Result (Tensor Float)).
                let s : Result (Tensor Float) × KvCache Float = (r, c') in s)
              (gathered-eq c.n_kv_heads n_rep t (c.filled + t) c.head_dim c.filled q (out.0) (out.1)
                  causal pos rep_small wq done.shaped.0 done.shaped.1 refl
                ∙ ap ok (
                    attend_heads-cong fp q _ _ _ _ (c.filled + t) causal c.filled
                      (rw wq.shape (omega arith))
                      (λ x j d hx hj hd. ap (λ (p : Float × Float). p.0) (same done x j d hx hj hd))
                      (λ x j d hx hj hd.
                        ap (λ (p : Float × Float). p.1) (same done x j d hx hj hd))))),
        done,
      )
    where
      same :
          {c' : KvCache Float} {out : Tensor Float × Tensor Float}
          → IsUpdated zero_f layer t (k, v) c c' out
          → (x j d : ℕ) → x < size q 0
          → j < c.filled + t
          → d < size q 2
          → read zero_f out (x / n_rep) j d ≡ entry zero_f c' layer (x / n_rep) j d
      same done x j d hx hj hd =
          done.returned (x / n_rep) j d (div-lt_of_lt_mul n_rep x c.n_kv_heads (rw wq.shape at hx))
            hj (rw wq.shape at hd)
