-- ===== src/Runner/Value.antt =====
-- The enumerations App, Dataset and RunStatus, and the values that a configuration holds.
use fgnn_artifacts.Prelude.{
  ℕ, ◌*◌, ◌/◌, ◌%◌, String, ◌<>◌, Bool, false, ◌||◌, List, [], ◌∷◌, ◌==◌, ◌=ˢ◌, if◌then◌else◌,
  Result, ok, raise, type_error,
}
use fgnn_artifacts.Prelude.Text.{show, starts_with}
use fgnn_artifacts.AutoRunner.Datasets

pub data App : Type 0 where
  gcn graphsage pinsage : App

-- The value of the enumeration's member.
abbrev pub app_value : App → ℕ
app_value gcn = 0
app_value graphsage = 1
app_value pinsage = 2

abbrev pub show_app : App → String
show_app gcn = "gcn"
show_app graphsage = "graphsage"
show_app pinsage = "pinsage"

pub data Dataset : Type 0 where
  products papers100m uk_2006_05 twitter : Dataset

abbrev pub dataset_value : Dataset → ℕ
dataset_value products = 0
dataset_value papers100m = 1
dataset_value uk_2006_05 = 2
dataset_value twitter = 3

abbrev pub show_dataset : Dataset → String
show_dataset products = "products"
show_dataset papers100m = "papers100M"
show_dataset uk_2006_05 = "uk-2006-05"
show_dataset twitter = "twitter"

pub data RunStatus : Type 0 where
  run_ok not_ok : RunStatus

abbrev pub show_status : RunStatus → String
show_status run_ok = "1"
show_status not_ok = "0"

-- `wide d` is a dataset of example/auto_runner. `hundredths n` is the float literal n / 100: the scripts write at most two decimals.
pub data Value : Type 0 where
  app : App → Value
  dataset : Dataset → Value
  wide : Datasets.Dataset → Value
  text : String → Value
  int : ℕ → Value
  hundredths : ℕ → Value

-- Python's `==`: members of an enumeration are equal to themselves only, and an `int` to a `float`
-- of the same number.
unfoldable pub same : Value → Value → Bool
same (app a) (app b) = app_value a == app_value b
same (dataset a) (dataset b) = dataset_value a == dataset_value b
same (wide a) (wide b) = Datasets.dataset_value a == Datasets.dataset_value b
same (text a) (text b) = a =ˢ b
same (int a) (int b) = a == b
same (int a) (hundredths b) = a * 100 == b
same (hundredths a) (int b) = a == b * 100
same (hundredths a) (hundredths b) = a == b
same _ _ = false

-- The decimals of a float, at least one.
decimals : ℕ → String
unfolding show
decimals r = if r % 10 == 0 then show (r / 10) else show (r / 10) <> show (r % 10)

-- `str(v)`
unfoldable pub show_value : Value → String
unfolding show decimals
show_value (app a) = show_app a
show_value (dataset d) = show_dataset d
show_value (wide d) = Datasets.show_dataset d
show_value (text s) = s
show_value (int n) = show n
show_value (hundredths h) = show (h / 100) <> ("." <> decimals (h % 100))

-- What stands behind `in` in a selection: a list of values, or a text (and then `in` looks for a
-- part of it).
pub data Indicator : Type 0 where
  among : List Value → Indicator
  within : String → Indicator

abbrev pub any_same : Value → List Value → Bool
any_same v [] = false
any_same v (w ∷ ws) = same v w || any_same v ws

-- `t in s` for texts.
unfoldable pub is_part : String → String → Bool
unfolding starts_with
is_part t String.[] = starts_with String.[] t
is_part t (String.◌∷◌ c s) = starts_with (String.◌∷◌ c s) t || is_part t s

abbrev pub contained : Value → Indicator → Result Bool
contained v (among vs) = ok (any_same v vs)
contained (text t) (within s) = ok (is_part t s)
contained _ (within s) = raise type_error
