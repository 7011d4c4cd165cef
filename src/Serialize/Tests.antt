-- ===== src/Serialize/Tests.antt =====
-- A small file, and the witnesses of the theorems on files.
use nanoinfer.Prelude.{
  ℕ, ◌<◌, ◌^◌, ◌≡◌, refl, true, [], ◌∷◌, ◌++◌, some, arith, ok, throw, runtime_error, ◌>>=◌,
}
use nanoinfer.Prelude.Text.{Text, codes, same_text}
use nanoinfer.Tensor.{Tensor, cpu, f32, make_tensor, numel_from, strides_from_right}
use nanoinfer.Tensor.Wrap.{extent, int64_numel, int64_strides}
use nanoinfer.Tensor.Host.{IsHost}
use nanoinfer.Tensor.Tests.{rows}
use nanoinfer.Ops.Tests.{numbers}
use nanoinfer.Serialize.{
  save_bin, load_bin, read_i32, take_word, load_dense, read_shape, load_payload, take_halves,
}
use nanoinfer.Serialize.RoundTrip.{AreDims, ArePatterns, load_bin-save_bin}
use nanoinfer.Serialize.Exact.{IsSized}
use nanoinfer.Serialize.Safety.{load_bin-IsHost}

rows-IsHost : IsHost (2 ∷ 2 ∷ []) rows
unfolding numel_from strides_from_right
rows-IsHost = record { shaped = refl; strided = refl; counted = refl; stored = refl }

rows-AreDims : AreDims (2 ∷ 2 ∷ [])
rows-AreDims = AreDims.one_more (omega arith) (AreDims.one_more (omega arith) AreDims.none_left)

rows-ArePatterns : ArePatterns numbers (1 ∷ 2 ∷ 3 ∷ 4 ∷ [])
rows-ArePatterns = ArePatterns.one_more refl (omega arith) (
    ArePatterns.one_more refl (omega arith) (
      ArePatterns.one_more refl (omega arith)
        (ArePatterns.one_more refl (omega arith) ArePatterns.none_left)))

load_bin-save_bin_example :
    (save_bin numbers true rows >>= λ bytes. load_bin numbers (some bytes)) ≡ ok rows
load_bin-save_bin_example =
    load_bin-save_bin numbers (2 ∷ 2 ∷ []) rows rows-IsHost refl refl rows-ArePatterns rows-AreDims
      (omega arith)

-- A file of two halves, and the tensor that it holds.
abbrev halves : Text
halves = codes "NIT1" ++ (1 ∷ 0 ∷ 0 ∷ 0 ∷ 1 ∷ 0 ∷ 0 ∷ 0 ∷ 2 ∷ 0 ∷ 0 ∷ 0 ∷ 128 ∷ 63 ∷ 0 ∷ 64 ∷ [])

abbrev pair : Tensor ℕ
pair = record {
  shape = 2 ∷ [];
  strides = 1 ∷ [];
  values = 1065353216 ∷ 1073741824 ∷ [];
  numel = 2;
  device = cpu;
  dtype = f32;
}

halves_read : load_bin numbers (some halves) ≡ ok pair
unfolding load_bin same_text read_i32 take_word load_dense read_shape load_payload make_tensor
    take_halves numel_from strides_from_right
halves_read = refl

pair_small : extent (2 ∷ []) < 2 ^ 63
unfolding extent
pair_small = omega arith

load_bin-IsHost_example :
    IsHost (2 ∷ []) pair
    × (2 ≡ int64_numel 1 (2 ∷ []))
    × ((1 ∷ []) ≡ (int64_strides (2 ∷ [])).0)
    × IsSized numbers halves pair
load_bin-IsHost_example = load_bin-IsHost numbers halves pair halves_read pair_small

-- One byte too many is refused.
trailing_refused : load_bin numbers (some (halves ++ (9 ∷ []))) ≡ throw runtime_error
unfolding load_bin same_text read_i32 take_word load_dense read_shape load_payload make_tensor
    take_halves numel_from
trailing_refused = refl
