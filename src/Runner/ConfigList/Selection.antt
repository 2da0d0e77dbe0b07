-- ===== src/Runner/ConfigList/Selection.antt =====
-- What the selecting and extending methods of ConfigList give, over lists of values.
use fgnn_artifacts.Prelude.{
  ℕ, ◌*◌, String, ◌≡◌, ◌≢◌, refl, ap, inl, inr, Bool, Bool-cases, false, ◌&&◌, none, some, List, [],
  ◌∷◌, ◌++◌, map, ◌=ˢ◌, if◌then◌else◌, Result, ok, ◌>>=◌, retain, reject, retain-append, length,
  length-append, arith,
}
use fgnn_artifacts.Prelude.Dict.{Dict, lookup, lookup-insert}
use fgnn_artifacts.Runner.Value.{Value, among, any_same, same}
use fgnn_artifacts.Runner.RunConfig
use fgnn_artifacts.Runner.RunConfig.{RunConfig}
use fgnn_artifacts.Runner.ConfigList.{
  ConfigList, with_list, selected, divide, select, assign, copies, override, combo, match,
}

-- The configuration has the key, with one of the values.
abbrev pub has_one : String → List Value → RunConfig → Bool
has_one key vs cfg = elim (lookup key cfg.configs) [ none ↦ false | some v ↦ any_same v vs ]

pub selected-among :
    (key : String) (vs : List Value) (cfg : RunConfig)
    → selected key (among vs) cfg ≡ ok (has_one key vs cfg)
unfolding selected
selected-among key vs cfg = ground arith

-- A test that never raises splits a list as the filters do.
pub divide-eq-filters :
    (test : RunConfig → Result Bool) (p : RunConfig → Bool)
    → ((cfg : RunConfig) → test cfg ≡ ok (p cfg))
    → (cfgs : List RunConfig) → divide test cfgs ≡ ok (retain p cfgs, reject p cfgs)
unfolding divide
divide-eq-filters test p h [] = refl
divide-eq-filters test p h (cfg ∷ cfgs) = ground (arith, h cfg, divide-eq-filters test p h cfgs)

pub divide-among :
    (key : String) (vs : List Value) (cfgs : List RunConfig)
    → divide (selected key (among vs)) cfgs
      ≡ ok (retain (has_one key vs) cfgs, reject (has_one key vs) cfgs)
divide-among key vs =
    divide-eq-filters (selected key (among vs)) (has_one key vs) (selected-among key vs)

pub select-among :
    (key : String) (vs : List Value) (cl : ConfigList)
    → select key (among vs) cl ≡ ok (with_list cl (retain (has_one key vs) cl.conf_list))
unfolding select
select-among key vs cl = rw (divide-among key vs)

lookup-assign :
    (key j : String) (v : Value) (cfg : RunConfig)
    → lookup j (assign key v cfg).configs ≡ (if key =ˢ j then some v else lookup j cfg.configs)
unfolding assign
lookup-assign key j v cfg = lookup-insert j key v cfg.configs

-- A value that was just set is the one that a selection by its key sees.
has_one-assign :
    (key : String) (v : Value) (ws : List Value) (cfg : RunConfig)
    → has_one key ws (assign key v cfg) ≡ any_same v ws
has_one-assign key v ws cfg = ground (arith, lookup-assign key key v cfg)

-- `key` is not among the keys of the parameters.
abbrev pub Lacks : String → Dict Value → Type 0
Lacks key [] = Unit
Lacks key ((j, _) ∷ params) = ((key =ˢ j) ≡ false) × Lacks key params

match_config-assign-Lacks :
    (key : String) (v : Value) (params : Dict Value) (cfg : RunConfig)
    → Lacks key params
    → RunConfig.match params (assign key v cfg) ≡ RunConfig.match params cfg
unfolding RunConfig.match
match_config-assign-Lacks key v [] cfg l = refl
match_config-assign-Lacks key v ((j, w) ∷ params) cfg (ne, l) =
    ground (arith, lookup-assign key j v cfg, match_config-assign-Lacks key v params cfg l)

match_config-assign :
    (key : String) (v w : Value) (params : Dict Value) (cfg : RunConfig)
    → Lacks key params
    → RunConfig.match ((key, w) ∷ params) (assign key v cfg)
      ≡ same w v && RunConfig.match params cfg
unfolding RunConfig.match
match_config-assign key v w params cfg l =
    ground (arith, lookup-assign key key v cfg, match_config-assign-Lacks key v params cfg l)

length-match_assigned :
    (key : String) (v w : Value) (params : Dict Value) (cfgs : List RunConfig)
    → Lacks key params
    → length (match ((key, w) ∷ params) (map (assign key v) cfgs))
      ≡ (if same w v then length (match params cfgs) else 0)
unfolding match
length-match_assigned key v w params [] l = ground arith
length-match_assigned key v w params (cfg ∷ cfgs) l =
    ground
      (arith, match_config-assign key v w params cfg l, length-match_assigned key v w params cfgs l)

-- How many of the values are equal to one.
abbrev pub count_same : Value → List Value → ℕ
count_same w vals = length (retain (same w) vals)

match-append :
    (params : Dict Value) (xs ys : List RunConfig)
    → match params (xs ++ ys) ≡ match params xs ++ match params ys
unfolding match
match-append params [] ys = refl
match-append params (x ∷ xs) ys = ground (arith, match-append params xs ys)

length-match-copies :
    (key : String) (w : Value) (vals : List Value) (params : Dict Value) (cfgs : List RunConfig)
    → Lacks key params
    → length (match ((key, w) ∷ params) (copies key vals cfgs))
      ≡ count_same w vals * length (match params cfgs)
unfolding copies
length-match-copies key w [] params cfgs l = unfold match in omega arith
length-match-copies key w (v ∷ vals) params cfgs l =
    rw
      (
        match-append ((key, w) ∷ params) (map (assign key v) cfgs) (copies key vals cfgs),
        length-append,
      )
      (rw
        (length-match_assigned key v w params cfgs l, length-match-copies key w vals params cfgs l)
        (elim (Bool-cases (same w v)) [ inl e ↦ rw e (omega arith) | inr e ↦ rw e (omega arith) ]))

-- After `override(key, vals)` with at least one value, the configurations that match `key = w` and
-- further parameters on other keys are as many as those that matched the further parameters
-- before, times the number of values that are equal to `w`.
pub length-match-override :
    (key : String) (w : Value) (vals : List Value) (params : Dict Value) (cl : ConfigList)
    → vals ≢ []
    → Lacks key params
    → length (match ((key, w) ∷ params) (override key vals cl).conf_list)
      ≡ count_same w vals * length (match params cl.conf_list)
unfolding override
length-match-override key w [] params cl some_value l = absurd (some_value refl)
length-match-override key w (v ∷ vals) params cl some_value l =
    length-match-copies key w (v ∷ vals) params cl.conf_list l

retain_same :
    (key : String) (v : Value) (ws : List Value) (cfgs : List RunConfig)
    → retain (has_one key ws) (map (assign key v) cfgs)
      ≡ (if any_same v ws then map (assign key v) cfgs else [])
retain_same key v ws [] = ground arith
retain_same key v ws (cfg ∷ cfgs) =
    ground (arith, has_one-assign key v ws cfg, retain_same key v ws cfgs)

retain-copies :
    (key : String) (vals ws : List Value) (cfgs : List RunConfig)
    → retain (has_one key ws) (copies key vals cfgs)
      ≡ copies key (retain (λ v. any_same v ws) vals) cfgs
unfolding copies
retain-copies key [] ws cfgs = refl
retain-copies key (v ∷ vals) ws cfgs =
    rw (retain-append (has_one key ws) (map (assign key v) cfgs) (copies key vals cfgs))
      (ground (arith, retain_same key v ws cfgs, retain-copies key vals ws cfgs))

-- Selecting by a key that was just overridden with some values keeps exactly the copies that were
-- made for the selected values.
pub select-override :
    (key : String) (v : Value) (vals ws : List Value) (cl : ConfigList)
    → select key (among ws) (override key (v ∷ vals) cl)
      ≡ ok (with_list cl (copies key (retain (λ u. any_same u ws) (v ∷ vals)) cl.conf_list))
unfolding override
select-override key v vals ws cl =
    rw select-among (ap (λ l. ok (with_list cl l)) (retain-copies key (v ∷ vals) ws cl.conf_list))

-- `combo` with a list of values for its key that is not empty, where it selects by a list of values,
-- leaves the configurations that are not selected as they are, in
-- front, and behind them stands what `select` and then `override` make of the list.
pub combo-select-override :
    (k j : String) (vs : List Value) (v : Value) (vals : List Value) (cl : ConfigList)
    → combo k (among vs) j (v ∷ vals) cl ≡ (
        select k (among vs) cl >>= λ chosen. ok (
          with_list cl
            (reject (has_one k vs) cl.conf_list ++ (override j (v ∷ vals) chosen).conf_list)))
unfolding combo override
combo-select-override k j vs v vals cl = rw (divide-among k vs, select-among)
