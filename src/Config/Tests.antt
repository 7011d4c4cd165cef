-- ===== src/Config/Tests.antt =====
-- A small configuration file, and the witnesses of the theorems on configurations.
use nanoinfer.Prelude.{ℕ, ◌≡◌, refl, Bool, throw, true, false, some, arith, Result, Yields, ok}
use nanoinfer.Prelude.Text.{Text, codes, same_text}
use nanoinfer.Ops.Tests.{numbers}
use nanoinfer.Config.{Config, default_config}
use nanoinfer.Config.Stream.{Stream, read_int, read_word, skip_spaces, span_word, span_digits}
use nanoinfer.Config.Load.{
  load_config, read_fields, read_value, read_field, int_field, float_field, read_word_value,
  act_fn_of, validate, need,
}
use nanoinfer.Config.Valid.{IsValid, load_config-IsValid}
use nanoinfer.Config.Fuel.{read_int-le, read_fields_enough}

abbrev file : Text
file =
    codes
      "vocab_size 8\nhidden_size 4\nintermediate_size 4\nnum_layers 2\nnum_attention_heads 2\nnum_kv_heads 1\nhead_dim 2\nmax_position_embeddings 16\nact_fn silu\nqk_norm 1\n"

abbrev is_ok : {A : Type 0} → Result A → Bool
is_ok (ok a) = true
is_ok (throw e) = false

-- The file is accepted.
file_read : is_ok (load_config numbers read_int 0 (some file)) ≡ true
unfolding load_config read_fields read_value read_field int_field float_field read_word_value
    act_fn_of validate need same_text read_word read_int skip_spaces span_word span_digits
    default_config
file_read = refl

abbrev stream : Stream
stream = record { rest = codes "num_layers 2 qk_norm 1"; good = true; failed = false }

load_config-IsValid_example : Yields IsValid (load_config numbers read_int 0 (some file))
load_config-IsValid_example = load_config-IsValid numbers read_int 0 (some file)

read_fields_enough_example :
    (r : Result (Config ℕ)) × (read_fields numbers read_int 24 (default_config numbers 0) stream
      ≡ some r)
    × (read_fields numbers read_int 40 (default_config numbers 0) stream ≡ some r)
read_fields_enough_example =
    read_fields_enough numbers read_int read_int-le 24 40 (default_config numbers 0) stream
      (omega arith) (omega arith)

-- The fields that the file names are set.
fields_read :
    read_fields numbers read_int 24 (default_config numbers 0) stream
    ≡ some (ok (record (default_config numbers 0) { num_layers = 2; qk_norm = 1 }))
unfolding read_fields read_value read_field int_field same_text read_word read_int skip_spaces
    span_word span_digits default_config
fields_read = refl
