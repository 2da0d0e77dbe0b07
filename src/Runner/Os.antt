-- ===== src/Runner/Os.antt =====
-- What the runners use of the operating system, and Python's conversion of floats. Neither is
-- implemented in the repository, so both are parameters.
use fgnn_artifacts.Prelude.{◌≡◌, ℕ, String, Option, none, some, List, Result, raise, ok, os_error}

pub record Os : Type 1 where
  pub State : Type 0
  -- `os.system(command)`: the status, and what the command did.
  pub system : String → State → ℕ × State
  pub print : String → State → State
  -- The content of a text file, if it can be read.
  pub read : String → State → Option String
  -- Replaces a file; `none` is an `OSError`.
  pub write : String → String → State → Option State
  -- `'{:.2f}'.format(float(value))`; `none` is a `ValueError`.
  pub format_2f : String → Option String
  -- The order in which a set of texts is iterated.
  pub set_order : List String → List String

-- An action on the system that may raise. Nothing in the runners handles an exception of an
-- action, so the state at the point of the exception is not kept.
abbrev pub Io {ℓ} : Os → Type ℓ → Type ℓ
Io os A = os.State → Result (A × os.State)

module _ (os : Os) where
  abbrev pub pure {ℓ} : {A : Type ℓ} → A → Io os A
  pure a s = ok (a, s)

  abbrev pub lift {ℓ} : {A : Type ℓ} → Result A → Io os A
  lift (ok a) s = ok (a, s)
  lift (raise e) s = raise e

  abbrev pub bind {ℓ κ} : {A : Type ℓ} {B : Type κ} → Io os A → (A → Io os B) → Io os B
  bind m f s = elim (m s) [ ok (a, s') ↦ f a s' | raise e ↦ raise e ]

  -- A write that fails raises.
  abbrev pub write_file : String → String → Io os (Unit {0})
  write_file path content s = elim (os.write path content s) [
    | none ↦ raise os_error
    | some s' ↦ ok (tt, s')
  ]

-- Every write succeeds.
abbrev pub WritesAll : Os → Type 0
WritesAll os =
    (path content : String) (s : os.State) → (s' : os.State) × (os.write path content s ≡ some s')
