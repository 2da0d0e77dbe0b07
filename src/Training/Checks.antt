-- ===== src/Training/Checks.antt =====
-- When process_common_config of example/samgraph/common_config.py accepts the options.
use fgnn_artifacts.Prelude.{
  ℕ, ◌≡◌, Bool, true, false, ◌&&◌, none, some, Option-cases, inl, inr, leb, is_ok, ok, arith,
  Result-cases,
}
use fgnn_artifacts.Prelude.Dict.{lookup, has_key}
use fgnn_artifacts.Training.Integers.{is_positive, is_nonzero, is_natural, natural, divided}
use fgnn_artifacts.Training.Constants.{sample_types, BuiltinArch, builtin_archs, cache_policies}
use fgnn_artifacts.Training.Config.{
  normal, fgnn, sgnn, sgnn_dgl, RunConfig, process_mode, process_common_config, started, finish,
}

-- The architecture has devices of its own.
abbrev has_devices : BuiltinArch → Bool
has_devices b = elim b.sampler_ctx [
  | none ↦ false
  | some _ ↦ elim b.trainer_ctx [ none ↦ false | some _ ↦ true ]
]

-- What a mode asks of the architecture and of the numbers of processes.
unfoldable pub fits_mode : BuiltinArch → RunConfig → Bool
fits_mode builtin c = elim c.run_mode [
  | normal ↦ has_devices builtin
  | fgnn ↦ is_positive c.num_train_worker && is_positive c.num_sample_worker
  | sgnn ↦ is_nonzero c.num_worker
  | sgnn_dgl ↦ is_nonzero c.num_worker
]

abbrev arch_fits : RunConfig → Bool
arch_fits c = elim (lookup c.arch builtin_archs) [ none ↦ false | some b ↦ fits_mode b c ]

-- What is asked in every mode.
unfoldable pub fits_all : RunConfig → Bool
fits_all c =
    has_key c.sample_type sample_types
    && (has_key c.cache_policy cache_policies
        && (is_natural c.cache_percentage
            && (leb (natural c.cache_percentage) 10000
                && (is_positive c.max_sampling_jobs && is_positive c.max_copying_jobs))))

-- The options that are accepted.
unfoldable pub is_valid : RunConfig → Bool
unfolding fits_mode fits_all
is_valid c = arch_fits c && fits_all c

process_mode-is_ok :
    (threads : ℕ) (b : BuiltinArch) (c : RunConfig)
    → is_ok (process_mode threads b c) ≡ fits_mode b c
unfolding process_mode fits_mode divided
process_mode-is_ok threads b c = ground arith

finish-is_ok : (c : RunConfig) → is_ok (finish c) ≡ fits_all c
unfolding finish fits_all
finish-is_ok c = ground arith

-- What process_mode keeps.
process_mode_keeps :
    (threads : ℕ) (b : BuiltinArch) (c c' : RunConfig)
    → process_mode threads b c ≡ ok c'
    → fits_all c' ≡ fits_all c
unfolding process_mode fits_all divided
process_mode_keeps threads b c c' h = ground arith

-- process_common_config returns, and raises no exception, exactly if the options are valid: the
-- architecture is known; in the normal mode it has devices of its own, in the mode FGNN both numbers
-- of processes are positive, and in the modes SGNN and SGNN_DGL the number of processes is not zero
-- (a negative one is accepted); the kind of sampling and the cache policy are known; the cache
-- percentage is at least 0 and at most 100; and both numbers of jobs are positive.
pub process_common_config-is_valid :
    (threads : ℕ) (c : RunConfig) → is_ok (process_common_config threads c) ≡ is_valid c
unfolding process_common_config is_valid
process_common_config-is_valid threads c = elim (Option-cases (lookup c.arch builtin_archs)) [
  | inl unknown ↦ ground (arith, unknown)
  | inr (b, known) ↦ elim (Result-cases (process_mode threads b (started b c))) [
    | inl (c', made) ↦ ground (
      arith,
      known,
      made,
      process_mode-is_ok threads b (started b c),
      finish-is_ok c',
      process_mode_keeps threads b (started b c) c' made,
    )
    | inr (e, raised) ↦ ground (arith, known, raised, process_mode-is_ok threads b (started b c))
  ]
]
