-- ===== src/Generate/Tests.antt =====
-- A run of the generation loop, and the witnesses of the theorems on it.
use nanoinfer.Prelude.{ℕ}
use nanoinfer.Sampling.Tests.{params}
use nanoinfer.Generate.{GenerateConfig}

-- At most two tokens, greedily.
abbrev request : GenerateConfig ℕ
request = record { max_tokens = 2; params = params; seed = 7; eos_id = 1 }
