-- ===== src/Training/Constants.antt =====
-- samgraph/common/__init__.py: the names of devices, architectures, kinds of sampling and cache
-- policies, with their numbers in the C++ library.
use fgnn_artifacts.Prelude.{ℕ, String, ◌<>◌, Option, none, some, [], ◌∷◌}
use fgnn_artifacts.Prelude.Dict.{Dict}
use fgnn_artifacts.Prelude.Text.{show}

abbrev pub cpu : ℕ → String
cpu device_id = "cpu:" <> show device_id

abbrev pub gpu : ℕ → String
gpu device_id = "cuda:" <> show device_id

abbrev pub sample_types : Dict ℕ
sample_types =
    ("khop0", 0)
    ∷ ("khop1", 1)
    ∷ ("khop2", 5)
    ∷ ("random_walk", 3)
    ∷ ("weighted_khop", 2)
    ∷ ("weighted_khop_prefix", 4)
    ∷ ("weighted_khop_hash_dedup", 6)
    ∷ []

-- An entry of builtin_archs. The last three have no devices.
pub record BuiltinArch : Type 0 where
  pub arch : ℕ
  pub sampler_ctx : Option String
  pub trainer_ctx : Option String

abbrev pair : ℕ → String → String → BuiltinArch
pair arch sampler_ctx trainer_ctx = record {
  arch = arch;
  sampler_ctx = some sampler_ctx;
  trainer_ctx = some trainer_ctx;
}

abbrev without_devices : ℕ → BuiltinArch
without_devices arch = record { arch = arch; sampler_ctx = none; trainer_ctx = none }

unfoldable pub builtin_archs : Dict BuiltinArch
builtin_archs =
    ("arch0", pair 0 (cpu 0) (gpu 0))
    ∷ ("arch1", pair 1 (gpu 0) (gpu 0))
    ∷ ("arch2", pair 2 (gpu 0) (gpu 0))
    ∷ ("arch3", pair 3 (gpu 0) (gpu 1))
    ∷ ("arch4", pair 4 (gpu 1) (gpu 0))
    ∷ ("arch5", without_devices 5)
    ∷ ("arch6", without_devices 6)
    ∷ ("arch7", without_devices 7)
    ∷ []

abbrev pub cache_policies : Dict ℕ
cache_policies =
    ("degree", 0)
    ∷ ("heuristic", 1)
    ∷ ("pre_sample", 2)
    ∷ ("degree_hop", 3)
    ∷ ("presample_static", 4)
    ∷ ("fake_optimal", 5)
    ∷ ("dynamic_cache", 6)
    ∷ ("random", 7)
    ∷ []
