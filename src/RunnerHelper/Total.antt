-- ===== src/RunnerHelper/Total.antt =====
-- When the methods of exp/common/runner_helper.py raise, and what a run leaves behind.
use fgnn_artifacts.Prelude.{
  String, ◌<>◌, ◌≡◌, refl, ◌∙◌, Bool, true, false, not, List, [], ◌∷◌, all_of, length, ap, suc,
  if◌then◌else◌, Result-cases, inl, inr, ok, is_ok, arith,
}
use fgnn_artifacts.Runner.Os.{Os}
use fgnn_artifacts.RunnerHelper.Options.{
  samgraph, dgl, CachePolicy, cache_by_presample_max, SampleType, default_for_app, show_sample_type,
  get_samgraph_policy_param_name,
}
use fgnn_artifacts.RunnerHelper.RunConfig.{RunConfig, preprocess_sample_type, beauty}
use fgnn_artifacts.RunnerHelper.Commands.{
  cache_options, samgraph_options, form_samgraph_cmd, form_dgl_cmd, form_cmd,
}
use fgnn_artifacts.RunnerHelper.Execution.{Callback, called, run, run_in_list}

abbrev pub is_max : CachePolicy → Bool
is_max cache_by_presample_max = true
is_max _ = false

-- A command line of samgraph needs a name for its policy.
unfoldable pub can_form : RunConfig → Bool
can_form c = elim c.system [ dgl ↦ true | samgraph ↦ not (is_max c.cache_policy) ]

abbrev pub is_default : SampleType → Bool
is_default default_for_app = true
is_default _ = false

pub preprocess_lem :
    (c : RunConfig)
    → (is_default (preprocess_sample_type c).sample_type ≡ false)
      × ((preprocess_sample_type c).cache_policy ≡ c.cache_policy)
      × ((preprocess_sample_type c).system ≡ c.system)
      × (preprocess_sample_type (preprocess_sample_type c) ≡ preprocess_sample_type c)
unfolding preprocess_sample_type
preprocess_lem c = ground arith

cache_options-is_ok : (c : RunConfig) → is_ok (cache_options c) ≡ not (is_max c.cache_policy)
unfolding cache_options get_samgraph_policy_param_name
cache_options-is_ok c = ground arith

show_sample_type-is_ok : (t : SampleType) → is_ok (show_sample_type t) ≡ not (is_default t)
unfolding show_sample_type
show_sample_type-is_ok t = ground arith

samgraph_options-is_ok :
    (c : RunConfig)
    → is_default c.sample_type ≡ false
    → is_ok (samgraph_options c) ≡ not (is_max c.cache_policy)
unfolding samgraph_options
samgraph_options-is_ok c h =
    ground (arith, cache_options-is_ok c, show_sample_type-is_ok c.sample_type)

module _ (durable_log : Bool) (c : RunConfig) where
  form_samgraph_cmd-is_ok :
      c.system ≡ samgraph → is_ok (form_samgraph_cmd durable_log c) ≡ not (is_max c.cache_policy)
  unfolding form_samgraph_cmd
  form_samgraph_cmd-is_ok h =
      ground (arith, samgraph_options-is_ok (preprocess_sample_type c), preprocess_lem c)

  -- form_cmd returns a command line and raises nothing, exactly if the system is dgl or the cache
  -- policy is not cache_by_presample_max, whether or not the log goes to a file.
  pub form_cmd-can_form : is_ok (form_cmd durable_log c) ≡ can_form c
  unfolding form_cmd form_dgl_cmd can_form
  form_cmd-can_form = ground (arith, form_samgraph_cmd-is_ok)

can_form-preprocess : (c : RunConfig) → can_form (preprocess_sample_type c) ≡ can_form c
unfolding can_form
can_form-preprocess c = ground (arith, preprocess_lem c)

-- Whatever the command line is, the configuration has its sample type set, or is as before.
pub form_cmd-total :
    (durable_log : Bool) (c : RunConfig)
    → can_form c ≡ true
    → (cmd : String) × (c' : RunConfig) × (form_cmd durable_log c ≡ ok (cmd, c'))
form_cmd-total durable_log c h = elim (Result-cases (form_cmd durable_log c)) [
  | inl ((cmd, c'), e) ↦ (cmd, c', e)
  | inr (x, e) ↦ absurd (ground (arith, form_cmd-can_form durable_log c))
]

module _ (os : Os) where
  -- A callback that raises nothing.
  abbrev pub Returns : Callback os → Type 0
  Returns callback =
      (c : RunConfig) (s : os.State)
      → (c' : RunConfig) × (s' : os.State) × (called os callback c s ≡ ok (c', s'))

  module _ (callback : Callback os) (returns : Returns callback) where
    -- The state before the command of a run that is not mocked.
    abbrev before : Bool → RunConfig → os.State → os.State
    before durable_log c s =
        let (message, c') = beauty c in
        let s₁ = os.print message s in
        if durable_log then (os.system ("mkdir -p " <> c'.logdir) s₁).1 else s₁

    run-total :
        (mock durable_log : Bool) (c : RunConfig) (s : os.State)
        → can_form c ≡ true
        → (c' : RunConfig) × (s' : os.State) × (run os mock durable_log callback c s ≡ ok (c', s'))
    unfolding run beauty
    run-total true durable_log c s h =
        let (cmd, c', e) = form_cmd-total durable_log c h in (c', os.print cmd s, ground (arith, e))
    run-total false true c s h =
        let (cmd, c', e) =
          form_cmd-total true (preprocess_sample_type c) (can_form-preprocess c ∙ h) in
        let (c'', s', back) = returns c' (os.system cmd (before true c s)).1 in
        (c'', s', ground (arith, e, back))
    run-total false false c s h =
        let (cmd, c', e) =
          form_cmd-total false (preprocess_sample_type c) (can_form-preprocess c ∙ h) in
        let (c'', s', back) = returns c' (os.system cmd (before false c s)).1 in
        (c'', s', ground (arith, e, back))

    pub run_in_list-total :
        (mock durable_log : Bool) (cs : List RunConfig) (s : os.State)
        → all_of can_form cs ≡ true
        → (cs' : List RunConfig) × (s' : os.State) × (run_in_list os mock durable_log callback cs s
            ≡ ok (cs', s'))
          × (length cs' ≡ length cs)
    unfolding run_in_list
    run_in_list-total mock durable_log [] s h = ([], s, refl, refl)
    run_in_list-total mock durable_log (c ∷ cs) s h =
        let (c', s₁, here) = run-total mock durable_log c s (ground arith) in
        let (cs', s₂, rest, same) = run_in_list-total mock durable_log cs s₁ (ground arith) in
        (c' ∷ cs', s₂, ground (arith, here, rest), ap suc same)
