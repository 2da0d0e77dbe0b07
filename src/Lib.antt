-- ===== src/Lib.antt =====
-- The experiment runner of the FGNN artifacts, the experiments that are written with it, and how
-- the processes of a training script share their work.
--
-- The program. A training script prints lines `config:<key>=<value>` and
-- `test_result:<key>=<value>`. exp/common/runner_helper2.py runs such scripts in bulk:
--   * a ConfigList starts as all pairs of an app and a dataset, and its methods select among them
--     and override their options;
--   * `run` forms a command line for each configuration, runs it with the output going to a log
--     file that is named after the position in the list, and keeps the statuses in
--     run_status.txt, so that a second run leaves out what succeeded before;
--   * a LogTable has, for each cell, a row definition, which must match exactly one configuration,
--     and for each column the name of a metric; `parse_logs` reads the log of the configuration
--     that a cell's definition matches and fills the cell.
-- The scripts exp/table1, table4, table5, fig14a, fig14b and fig15 are the clients: each has
-- functions that create a table (logtable_def.py) and functions that build a list, run it and parse
-- its logs into the table (run.py). The scripts of example/auto_runner do the same with a runner of
-- their own, example/auto_runner/common.py.
--
-- The experiments that sweep over cache sizes (exp/table2, table6, fig4 and 5, fig10 to fig13) use an
-- earlier runner, exp/common/runner_helper.py: its RunConfig has an attribute for each option, forms
-- the command lines of two systems, and names the log after the options.
--
-- The commands that are run are training scripts such as example/samgraph/multi_gpu/train_gcn.py, in
-- which some processes sample batches and others train on them, each on the device that
-- example/samgraph/common_config.py gives it; a barrier keeps them in step.
--
-- The files.
--   * Runner.Value: the enumerations App, Dataset and RunStatus, the values of options and Python's
--     `==`, `in` and `str` on them.
--   * Runner.Os: what the runner uses of the operating system, as a record that the definitions
--     take: `os.system`, reading and writing a file, printing; also the conversion of a float by
--     `'{:.2f}'.format(float(v))` and the order of a set. An action takes a state of the system and
--     returns a value and a state, or raises.
--   * Runner.LogTable: class LogTable of exp/common/runner_helper2.py.
--   * Runner.RunConfig: class RunConfig; form_cmd, run, match and parse_log are the methods of these
--     names.
--   * Runner.ConfigList: the methods of class ConfigList that build a list, under their names.
--     `divide` is the loop that they share.
--   * Runner.Execution: ConfigList.run with the methods it calls. run_all is its loop.
--   * Runner.Report: ConfigList.parse_logs, with one function for each of its loops.
--   * Runner.Pipeline: run and then parse_logs, as the scripts chain them.
--   * Experiments.Testing: what a function `*_test` of the scripts does; Experiments.Table1 and so
--     on: the tables and lists of each script, call by call.
--   * AutoRunner.Datasets and AutoRunner.Common: the Dataset and the first list of
--     example/auto_runner/common.py; AutoRunner.Samgraph and so on: the table and the list of each
--     function *_test of a script, up to its call of run; AutoRunner.Ready: a check of all of them.
--     The methods that build a table or a list are those of Runner, since they have the same text
--     here, but for the references to logs that a table keeps.
--   * RunnerHelper: exp/common/runner_helper.py. Options has its enumerations, RunConfig the
--     attributes and the names of logs, Commands the command lines, Execution run and run_in_list,
--     ConfigList the lists, and Doubles the floating-point arithmetic that the names of logs need.
--   * Figures: exp/<name>/runner.py for the scripts over that runner, statement by statement.
--   * Training.Config: get_default_common_config and process_common_config of
--     example/samgraph/common_config.py, with Python's integers in Training.Integers.
--     Training.Constants: the names and numbers of samgraph/common/__init__.py that it looks up.
--   * Workers: how many steps of an epoch each process of example/samgraph/multi_gpu/train_gcn.py
--     does. Workers.Barriers: the order in which a process waits at the barrier and calls the
--     sampler, as a list of events; run_sample and run_train are the functions of these names.
--     Workers.Barriers.System: the main part of the script, as a step relation on all its processes.
--   * Switcher: run_sample and run_train of example/samgraph/balance_switcher/train_pinsage.py, in which
--     the GPU of a sampler that has finished an epoch helps to train it: the waits at the barrier and
--     the uses of the semaphore and of the events. Switcher.System: its main part, as a step relation
--     on all its processes and what they share.
--   * Prelude: texts, dicts, results and lists. Prelude.Text models the operations of Python's `str`
--     and `os.path` that the runner uses, and `re.match` for its patterns `<word>(.+)=(.+)\n`.
--   * Tests: the theorems at concrete inputs, on a system whose files are a dict.
--
-- How the model corresponds to the code. A method that changes its object and returns it is a
-- function from the old object to the new one. An exception is a value of Result; the model stops
-- where Python raises. `except: pass` keeps what was done before the exception. A deep copy is the
-- same value, and a list has no two items that share a dict, which is what the deep copies of the
-- source ensure. A dict is an association list in insertion order; a set of texts is a list without
-- repetition. Indices and numbers of epochs are natural numbers. A loop `for x in range(a, b)` is
-- recursion on the number of rounds left, so it needs no fuel and no bound. A command comes back with
-- a status; one that never ends is not in the model.
--
-- In Training the numbers of processes, threads and jobs are integers, and a cache percentage is a
-- number of hundredths. In Workers.Barriers and Switcher a process that uses a variable without a
-- value stops there; the processes that then wait for it wait for ever, since the timeout of the
-- barrier is left out.
--
-- In RunnerHelper an attribute name that a method takes is the function that sets or tests the
-- attribute. A cache size is a whole number or the double nearest to a number of hundredths; the loop
-- that scales a quotient to 53 bits has 1074 rounds, the largest shift that a double has. In
-- Workers.Barriers.System and Switcher.System a step is a call of one process or the opening of the
-- barrier; the calls between two waits are taken to return, and what the training processes agree on
-- through torch.distributed and what is computed from the logged times and sizes are left out.
--
-- What is not modelled. The progress bar and the counter of failures of `run`, which nothing reads;
-- arguments and the choice of the output directory in the scripts of Experiments and AutoRunner; how
-- the scripts of example/auto_runner run their lists and parse the logs, with run, parse_log,
-- parse_logs and parse_logs_no_output of their own runner, their files test_result.txt, and which of
-- their functions the main parts call; parse_logs_no_output and find_recent_outdir of
-- exp/common/runner_helper2.py; the files table*.dat and fig*.dat that the scripts of exp write in
-- the end, and their plots;
-- exp/common/common_parser.py and the parsers of the sweeps, which compute with floats and pandas;
-- the other training scripts under example and what train_gcn.py computes; the declarations of
-- arguments and the environment variables in common_config.py; the rest of the Python binding of
-- samgraph and the C++ and CUDA code, which the commands run that are given to `system` here.
pub mod Prelude
pub mod Runner
pub mod Experiments
pub mod AutoRunner
pub mod RunnerHelper
pub mod Figures
pub mod Training
pub mod Workers
pub mod Switcher
pub mod Tests
