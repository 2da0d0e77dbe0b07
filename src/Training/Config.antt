-- ===== src/Training/Config.antt =====
-- example/samgraph/common_config.py: the options of a training script before and after
-- process_common_config. The dict of the script is a record here: the options that
-- get_default_common_config and the arguments put in, and what process_common_config adds, which is
-- none or empty before. The cache percentage is a number of hundredths. Of the numbers that are natural
-- here the checks ask nothing.
use fgnn_artifacts.Prelude.{
  ℕ, zero, suc, ◌+◌, String, ◌<>◌, Bool, false, ◌&&◌, Option, none, some, List, [], ◌∷◌, leb, ◌=ˢ◌,
  if◌then◌else◌, Result, ok, raise, ◌>>=◌, ◌>>◌, assert, key_error,
}
use fgnn_artifacts.Prelude.Dict.{Dict, lookup}
use fgnn_artifacts.Training.Integers.{ℤ, pos, is_positive, is_natural, natural, divided}
use fgnn_artifacts.Training.Constants.{
  gpu, sample_types, BuiltinArch, builtin_archs, cache_policies,
}

pub data RunMode : Type 0 where
  normal fgnn sgnn sgnn_dgl : RunMode

pub record RunConfig : Type 0 where
  pub run_mode : RunMode
  pub arch : String
  pub num_train_worker : ℤ
  pub num_sample_worker : ℤ
  pub num_worker : ℤ
  pub single_gpu : Bool
  pub override_device : Bool
  pub override_train_device : String
  pub override_sample_device : String
  pub sample_type : String
  pub root_path : String
  pub dataset : String
  pub pipeline : Bool
  pub cache_policy : String
  pub cache_percentage : ℤ
  pub num_epoch : ℕ
  pub batch_size : ℕ
  pub num_hidden : ℕ
  pub max_sampling_jobs : ℤ
  pub max_copying_jobs : ℤ
  pub barriered_epoch : ℕ
  pub presample_epoch : ℕ
  pub omp_thread_num : ℤ
  -- What process_common_config sets.
  pub dataset_path : String
  pub arch_number : Option ℕ
  pub sample_type_number : Option ℕ
  pub cache_policy_number : Option ℕ
  pub sampler_ctx : Option String
  pub trainer_ctx : Option String
  pub train_workers : List String
  pub sample_workers : List String
  pub workers : List String
  pub torch_thread_num : Option ℤ

abbrev default_arch : RunMode → String
default_arch fgnn = "arch5"
default_arch sgnn = "arch6"
default_arch sgnn_dgl = "arch7"
default_arch normal = "arch3"

-- `get_default_common_config(run_mode)`, with the defaults of the arguments that have no entry there.
-- An option of another mode is not read.
unfoldable pub get_default_common_config : RunMode → RunConfig
get_default_common_config run_mode = record {
  run_mode = run_mode;
  arch = default_arch run_mode;
  num_train_worker = pos 1;
  num_sample_worker = pos 1;
  num_worker = pos 1;
  single_gpu = false;
  override_device = false;
  override_train_device = "cuda:0";
  override_sample_device = "cuda:1";
  sample_type = "khop0";
  root_path = "/graph-learning/samgraph/";
  dataset = "reddit";
  pipeline = false;
  cache_policy = "pre_sample";
  cache_percentage = pos 0;
  num_epoch = 10;
  batch_size = 8000;
  num_hidden = 256;
  max_sampling_jobs = pos 10;
  max_copying_jobs = pos 1;
  barriered_epoch = 0;
  presample_epoch = 1;
  omp_thread_num = pos 40;
  dataset_path = "";
  arch_number = none;
  sample_type_number = none;
  cache_policy_number = none;
  sampler_ctx = none;
  trainer_ctx = none;
  train_workers = [];
  sample_workers = [];
  workers = [];
  torch_thread_num = none;
}

-- `[sam.gpu(start + i) for i in range(count)]`
unfoldable pub gpus : ℕ → ℕ → List String
gpus start zero = []
gpus start (suc count) = gpu start ∷ gpus (suc start) count

-- `d[key]`
abbrev pub entry {ℓ} : {V : Type ℓ} → String → Dict V → Result V
entry key d = elim (lookup key d) [ none ↦ raise key_error | some v ↦ ok v ]

abbrev required : Option String → Result String
required none = raise key_error
required (some ctx) = ok ctx

-- One device for the one process of each kind.
abbrev with_single_gpu : RunConfig → RunConfig
with_single_gpu c =
    if c.single_gpu
    then record c {
      num_sample_worker = pos 1;
      num_train_worker = pos 1;
      train_workers = gpu 0 ∷ [];
      sample_workers = gpu 0 ∷ [];
      pipeline = false;
    }
    else c

-- What the modes do. `threads` is `torch.get_num_threads()`.
unfoldable pub process_mode : ℕ → BuiltinArch → RunConfig → Result RunConfig
unfolding gpus divided
process_mode threads builtin c = elim c.run_mode [
  | normal ↦ do
    sampler_ctx ← required builtin.sampler_ctx
    trainer_ctx ← required builtin.trainer_ctx
    ok (
        if c.override_device
        then record c {
          sampler_ctx = some c.override_sample_device;
          trainer_ctx = some c.override_train_device;
        }
        else record c { sampler_ctx = some sampler_ctx; trainer_ctx = some trainer_ctx })
  | fgnn ↦ do
    omp_thread_num ← divided c.omp_thread_num c.num_train_worker
    assert (is_positive c.num_sample_worker)
    assert (is_positive c.num_train_worker)
    ok (
        with_single_gpu (record c {
          omp_thread_num = omp_thread_num;
          train_workers = gpus 0 (natural c.num_train_worker);
          sample_workers = gpus (natural c.num_train_worker) (natural c.num_sample_worker);
        }))
  | sgnn ↦ do
    omp_thread_num ← divided c.omp_thread_num c.num_worker
    ok (record c { omp_thread_num = omp_thread_num; workers = gpus 0 (natural c.num_worker) })
  | sgnn_dgl ↦ do
    omp_thread_num ← divided c.omp_thread_num c.num_worker
    torch_thread_num ← divided (pos threads) c.num_worker
    ok (record c {
      omp_thread_num = omp_thread_num;
      torch_thread_num = some torch_thread_num;
      workers = gpus 0 (natural c.num_worker);
    })
]

-- arch1 does not support pipelining.
abbrev without_pipeline : RunConfig → RunConfig
without_pipeline c = if c.arch =ˢ "arch1" then record c { pipeline = false } else c

-- The first epoch is used to warm up.
abbrev pub started : BuiltinArch → RunConfig → RunConfig
started builtin c = record c {
  dataset_path = c.root_path <> c.dataset;
  num_epoch = c.num_epoch + 1;
  arch_number = some builtin.arch;
}

-- From the kind of sampling on. The environment variables for the C++ library are left out.
unfoldable pub finish : RunConfig → Result RunConfig
unfolding lookup
finish c = do
  sample_type ← entry c.sample_type sample_types
  cache_policy ← entry c.cache_policy cache_policies
  assert (is_natural c.cache_percentage && leb (natural c.cache_percentage) 10000)
  assert (is_positive c.max_sampling_jobs)
  assert (is_positive c.max_copying_jobs)
  ok (
      without_pipeline (record c {
        sample_type_number = some sample_type;
        cache_policy_number = some cache_policy;
      }))

unfoldable pub process_common_config : ℕ → RunConfig → Result RunConfig
unfolding process_mode lookup builtin_archs finish
process_common_config threads c = do
  builtin ← entry c.arch builtin_archs
  c' ← process_mode threads builtin (started builtin c)
  finish c'
