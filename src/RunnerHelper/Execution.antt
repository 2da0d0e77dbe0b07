-- ===== src/RunnerHelper/Execution.antt =====
-- RunConfig.run and run_in_list of exp/common/runner_helper.py. A run leaves its configuration with
-- the sample type set, so it returns the configuration.
use fgnn_artifacts.Prelude.{String, ◌<>◌, Bool, true, false, Option, none, some, List, [], ◌∷◌, ok}
use fgnn_artifacts.Runner.Os.{Os, Io, pure, bind, lift}
use fgnn_artifacts.RunnerHelper.RunConfig.{RunConfig, beauty}
use fgnn_artifacts.RunnerHelper.Commands.{form_cmd}

module _ (os : Os) where
  abbrev pub Callback : Type 0
  Callback = Option (RunConfig → Io os RunConfig)

  abbrev say : String → Io os (Unit {0})
  say line s = ok (tt, os.print line s)

  abbrev command : String → Io os (Unit {0})
  command cmd s = ok (tt, (os.system cmd s).1)

  abbrev make_logdir : Bool → RunConfig → Io os (Unit {0})
  make_logdir true c = command ("mkdir -p " <> c.logdir)
  make_logdir false c = pure os tt

  abbrev pub called : Callback → RunConfig → Io os RunConfig
  called none c = pure os c
  called (some callback) c = callback c

  -- `run(mock, durable_log, callback)`
  unfoldable pub run : Bool → Bool → Callback → RunConfig → Io os RunConfig
  unfolding form_cmd beauty
  run true durable_log callback c =
      bind os (lift os (form_cmd durable_log c)) λ (cmd, c'). bind os (say cmd) λ _. pure os c'
  run false durable_log callback c =
      let (message, c') = beauty c in
      bind os (say message) λ _. bind os (make_logdir durable_log c') λ _.
        bind os (lift os (form_cmd durable_log c'))
          λ (cmd, c''). bind os (command cmd) λ _. called callback c''

  unfoldable pub run_in_list : Bool → Bool → Callback → List RunConfig → Io os (List RunConfig)
  unfolding run
  run_in_list mock durable_log callback [] = pure os []
  run_in_list mock durable_log callback (c ∷ cs) =
      bind os (run mock durable_log callback c)
        λ c'. bind os (run_in_list mock durable_log callback cs) λ cs'. pure os (c' ∷ cs')
