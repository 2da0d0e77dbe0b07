-- ===== src/Runner/Pipeline/Planned.antt =====
-- After a run, a row definition that matched one configuration matches one that has a log.
use mathlib.Core.List.{cons-eq-cons}
use fgnn_artifacts.Prelude.{
  ℕ, suc, String, ◌≡◌, refl, ap, ◌∙◌, some, List, [], ◌∷◌, length, arith, Bool-cases, inl, inr,
}
use fgnn_artifacts.Prelude.Dict.{Dict}
use fgnn_artifacts.Runner.Value.{Value}
use fgnn_artifacts.Runner.RunConfig
use fgnn_artifacts.Runner.RunConfig.{RunConfig, std_out_path}
use fgnn_artifacts.Runner.RunConfig.Parsing.{Core}
use fgnn_artifacts.Runner.ConfigList
use fgnn_artifacts.Runner.Execution.Options.{options_of}
use fgnn_artifacts.Runner.Execution.Total.{planned}
use fgnn_artifacts.Runner.Report.Cores.{cores, match-same_configs}
use fgnn_artifacts.Runner.Report.Growth.{HasOne}

one_element {ℓ} : {A : Type ℓ} (xs : List A) → length xs ≡ 1 → (c : A) × (xs ≡ c ∷ [])
one_element [] h = cc
one_element (c ∷ []) h = (c, refl)
one_element (c ∷ d ∷ xs) h = absurd (omega arith)

module _ (params : Dict Value) (logdir : String) where
  length-match-planned :
      (i : ℕ) (xs ys : List RunConfig)
      → cores ys ≡ planned logdir i (options_of xs)
      → length (ConfigList.match params ys) ≡ length (ConfigList.match params xs)
  unfolding ConfigList.match planned
  length-match-planned i [] [] e = refl
  length-match-planned i [] (y ∷ ys) e = cc
  length-match-planned i (x ∷ xs) [] e = cc
  length-match-planned i (x ∷ xs) (y ∷ ys) e =
      let (head, rest) = cons-eq-cons.0 e in
      ground (
        arith,
        match-same_configs params y x (ap (λ (k : Core). k.configs) head),
        length-match-planned (suc i) xs ys rest,
      )

  match-logged :
      (i : ℕ) (xs ys : List RunConfig) (c : RunConfig)
      → cores ys ≡ planned logdir i (options_of xs)
      → ConfigList.match params ys ≡ c ∷ []
      → (path : String) × (c.std_out_log ≡ some path)
  unfolding ConfigList.match planned
  match-logged i [] [] c e h = cc
  match-logged i [] (y ∷ ys) c e h = cc
  match-logged i (x ∷ xs) [] c e h = cc
  match-logged i (x ∷ xs) (y ∷ ys) c e h =
      let (head, rest) = cons-eq-cons.0 e in
      elim (Bool-cases (RunConfig.match params y)) [
        | inl hit ↦ (std_out_path logdir i, ground (arith, ap (λ (k : Core). k.log) head))
        | inr miss ↦ match-logged (suc i) xs ys c rest (ground arith)
      ]

  pub HasOne-planned :
      (xs ys : List RunConfig)
      → cores ys ≡ planned logdir 0 (options_of xs)
      → length (ConfigList.match params xs) ≡ 1
      → HasOne params ys
  HasOne-planned xs ys e one =
      let (c, only) =
        one_element (ConfigList.match params ys) (length-match-planned 0 xs ys e ∙ one) in
      let (path, logged) = match-logged 0 xs ys c e only in
      record { conf = c; path = path; only = only; logged = logged }
