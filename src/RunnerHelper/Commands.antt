-- ===== src/RunnerHelper/Commands.antt =====
-- class RunConfig of exp/common/runner_helper.py: command lines, and runs.
use fgnn_artifacts.Prelude.{
  ℕ, zero, suc, String, ◌<>◌, Bool, Option, none, some, List, [], ◌∷◌, ◌++◌, if◌then◌else◌, Result,
  ok, raise, ◌>>=◌, assertion_error,
}
use fgnn_artifacts.Prelude.Text.{show, join}
use fgnn_artifacts.Runner.Value.{show_app}
use fgnn_artifacts.RunnerHelper.Options.{
  samgraph, dgl, no_cache, get_samgraph_policy_param_name, get_presample_epoch, arch_name,
  show_sample_type, show_dataset,
}
use fgnn_artifacts.RunnerHelper.RunConfig.{
  RunConfig, show_percent, preprocess_sample_type, get_log_fname,
}

-- The texts one after another, as `+=` builds a command line.
unfoldable pub concat : List String → String
concat [] = ""
concat (t ∷ ts) = t <> concat ts

-- `' '.join([str(dev_id) for dev_id in range(n)])`, by the devices left.
unfoldable devices : ℕ → ℕ → List String
devices zero i = []
devices (suc rounds) i = show i ∷ devices rounds (suc i)

abbrev pub out_log : String → String
out_log fname = fname <> ".log"

abbrev pub err_log : String → String
err_log fname = fname <> ".err.log"

abbrev pub redirections : String → List String
redirections fname = " > \"" ∷ out_log fname ∷ "\"" ∷ " 2> \"" ∷ err_log fname ∷ "\"" ∷ ";" ∷ []

-- What both systems are told in the same words.
abbrev common_options : RunConfig → List String
common_options c =
    " --root-path \""
    ∷ c.root_path
    ∷ "\""
    ∷ " --dataset "
    ∷ show_dataset c.dataset
    ∷ " --num-epoch "
    ∷ show c.epoch
    ∷ " --batch-size "
    ∷ show c.batch_size
    ∷ []

abbrev dgl_script : RunConfig → List String
dgl_script c =
    (if c.multi_gpu
      then (if c.async_train
          then "python dgl/multi_gpu/async/train_"
          else "python dgl/multi_gpu/train_")
      else "python dgl/train_")
    ∷ show_app c.app
    ∷ ".py"
    ∷ []

abbrev rate_option : Option String → List String
rate_option none = []
rate_option (some lr) = " --lr " ∷ lr ∷ []

-- Before the redirections.
unfoldable pub dgl_options : RunConfig → List String
unfolding devices
dgl_options c =
    dgl_script c
    ++ ((if c.dgl_gpu_sampling then " --use-gpu-sampling" else " --no-use-gpu-sampling")
          ∷ (if c.multi_gpu then " --devices " ∷ join " " (devices c.num_trainer 0) ∷ [] else [])
        ++ ((if c.pipeline then " --pipelining" else " --no-pipelining")
            ∷ (common_options c ++ (rate_option c.lr ++ (" " ∷ c.custom_arg ∷ " " ∷ [])))))

abbrev pub remove_using : String → List String
remove_using fname = " sed -i \"/^Using.*/d\" \"" ∷ err_log fname ∷ "\"" ∷ []

unfoldable pub form_dgl_cmd : Bool → RunConfig → Result (String × RunConfig)
unfolding concat dgl_options get_log_fname
form_dgl_cmd durable_log c = elim c.system [
  | dgl ↦
      let (fname, c') = get_log_fname c in
      ok (
        if durable_log
        then (concat (dgl_options c ++ (redirections fname ++ remove_using fname)), c')
        else (concat (dgl_options c), c))
  | samgraph ↦ raise assertion_error
]

abbrev samgraph_script : RunConfig → List String
samgraph_script c =
    if c.multi_gpu
    then (if c.async_train
        then "python ../../example/samgraph/multi_gpu/async/train_"
        else "python ../../example/samgraph/multi_gpu/train_")
      ∷ show_app c.app
      ∷ ".py"
      ∷ []
    else (if c.multi_gpu_sgnn
        then "python ../../example/samgraph/sgnn/train_" ∷ show_app c.app ∷ ".py" ∷ []
        else "python ../../example/samgraph/train_"
          ∷ show_app c.app
          ∷ ".py --arch "
          ∷ arch_name c.arch
          ∷ [])

-- The name of the policy is looked up only if there is a cache.
unfoldable pub cache_options : RunConfig → Result (List String)
unfolding get_samgraph_policy_param_name
cache_options c = elim c.cache_policy [
  | no_cache ↦ ok (" --cache-percentage 0.0" ∷ [])
  | policy ↦ do
    name ← get_samgraph_policy_param_name policy
    ok (" --cache-policy " ∷ name ∷ " --cache-percentage " ∷ show_percent c.cache_percent ∷ [])
]

-- For a configuration with its sample type set.
unfoldable pub samgraph_options : RunConfig → Result (List String)
unfolding cache_options show_sample_type get_presample_epoch
samgraph_options c = do
  sample_type ← show_sample_type c.sample_type
  cache ← cache_options c
  ok (
      "export SAMGRAPH_LOG_NODE_ACCESS=0; "
      ∷ "export SAMGRAPH_LOG_NODE_ACCESS_SIMPLE="
      ∷ show c.report_optimal
      ∷ "; "
      ∷ "export SAMGRAPH_DUMP_TRACE="
      ∷ show c.dump_trace
      ∷ "; "
      ∷ (samgraph_script c
          ++ (" --sample-type "
                ∷ sample_type
                ∷ " --max-sampling-jobs "
                ∷ show c.sample_job
                ∷ " --max-copying-jobs "
                ∷ show c.copy_job
                ∷ (if c.multi_gpu
                    then " --num-sample-worker "
                      ∷ show c.num_sampler
                      ∷ " "
                      ∷ " --num-train-worker "
                      ∷ show c.num_trainer
                      ∷ " "
                      ∷ []
                    else [])
              ++ ((if c.pipeline then " --pipeline" else " --no-pipeline")
                  ∷ (cache
                      ++ (" --presample-epoch "
                          ∷ show (get_presample_epoch c.cache_policy)
                          ∷ " --barriered-epoch 1"
                          ∷ (common_options c
                              ++ (" --profile-level "
                                  ∷ show c.profile_level
                                  ∷ " --log-level "
                                  ∷ c.log_level
                                  ∷ " --empty-feat "
                                  ∷ show c.empty_feat
                                  ∷ " "
                                  ∷ c.custom_arg
                                  ∷ " "
                                  ∷ []))))))))

unfoldable pub form_samgraph_cmd : Bool → RunConfig → Result (String × RunConfig)
unfolding preprocess_sample_type samgraph_options concat get_log_fname
form_samgraph_cmd durable_log c = elim c.system [
  | samgraph ↦ do
    let c' = preprocess_sample_type c
    cmd_line ← samgraph_options c'
    let (fname, c'') = get_log_fname c'
    ok (
        if durable_log
        then (concat (cmd_line ++ redirections fname), c'')
        else (concat cmd_line, c'))
  | dgl ↦ raise assertion_error
]

unfoldable pub form_cmd : Bool → RunConfig → Result (String × RunConfig)
unfolding form_samgraph_cmd form_dgl_cmd
form_cmd durable_log c = elim c.system [
  | samgraph ↦ form_samgraph_cmd durable_log c
  | dgl ↦ form_dgl_cmd durable_log c
]
