-- ===== src/Runner/RunConfig/Logs.antt =====
-- The log files of two configurations of a list are different files.
use text.Mathlib.TextLemmas
use fgnn_artifacts.Prelude.{ℕ, String, ◌<>◌, ◌≡◌, ◌≢◌, refl, false}
use fgnn_artifacts.Prelude.Text.Paths.{path_join-injective}
use fgnn_artifacts.Prelude.Text.{show, starts_with}
use fgnn_artifacts.Prelude.Text.Basic.{strip_prefix}
use fgnn_artifacts.Prelude.Text.Decimal.RoundTrip.{show-injective}
use fgnn_artifacts.Runner.RunConfig.{std_out_path}

relative : (s : String) → starts_with ("test" <> s) "/" ≡ false
unfolding starts_with strip_prefix
relative s = rw TextLemmas.cons-append refl

std_out_path-injective :
    (logdir : String) (i j : ℕ) → std_out_path logdir i ≡ std_out_path logdir j → i ≡ j
std_out_path-injective logdir i j e = show-injective i j (
    TextLemmas.append_cancel_right _ _ ".log" (
      TextLemmas.append_cancel_left "test" _ _ (
        path_join-injective logdir _ _ (relative (show i <> ".log")) (relative (show j <> ".log"))
          e)))

-- In one log directory, whatever its name, the logs of two different positions are different
-- files.
pub std_out_path_distinct :
    (logdir : String) (i j : ℕ) → i ≢ j → std_out_path logdir i ≢ std_out_path logdir j
std_out_path_distinct logdir i j ne e = ne (std_out_path-injective logdir i j e)
