-- ===== src/Tests/Selecting.antt =====
-- Selecting and overriding, at the lists of the scripts.
use fgnn_artifacts.Prelude.{
  ◌+◌, ◌*◌, ◌≡◌, refl, List, [], ◌∷◌, ◌++◌, length, reject, retain, ok, ◌>>=◌, text_discrete,
}
use fgnn_artifacts.Prelude.Dict.{insert}
use fgnn_artifacts.Runner.Value.{
  same, gcn, graphsage, products, twitter, Value, app, dataset, text, int, among, any_same,
}
use fgnn_artifacts.Runner.RunConfig.{RunConfig}
use fgnn_artifacts.Runner.ConfigList.{
  ConfigList, with_list, config_list, all_keys, any_key, select_op, divide, list_select, copies,
  select, override, combo, multi_combo, multi_combo_multi_override, multi_combo_multi_override_list,
  match,
}
use fgnn_artifacts.Runner.ConfigList.Selection.{
  has_one, count_same, select-override, combo-select-override, length-match-override,
}
use fgnn_artifacts.Runner.ConfigList.Combos.{
  multi_combo-combo, override_list-override, length-multi_combo,
}

abbrev models : List Value
models = app gcn ∷ app graphsage ∷ []

abbrev datasets : List Value
datasets = dataset products ∷ dataset twitter ∷ []

unfoldable pub everything : ConfigList
unfolding config_list
everything = config_list "test"

abbrev archs : List Value
archs = text "arch2" ∷ []

select-override_example :
    select "arch" (among archs) (override "arch" (text "arch0" ∷ text "arch2" ∷ []) everything)
    ≡ ok (
        with_list everything (
          copies "arch"
            (retain (λ u. any_same u archs) (text "arch0" ∷ text "arch2" ∷ []))
            everything.conf_list))
select-override_example = select-override "arch" (text "arch0") (text "arch2" ∷ []) archs everything

combo-select-override_example :
    combo "app" (among models) "fanout" (text "25 10" ∷ []) everything ≡ (
      select "app" (among models) everything >>= λ chosen. ok (
        with_list everything (
          reject (has_one "app" models) everything.conf_list
          ++ (override "fanout" (text "25 10" ∷ []) chosen).conf_list)))
combo-select-override_example =
    combo-select-override "app" "fanout" models (text "25 10") [] everything

length-match-override_example :
    length (
      match
        (("num_worker", int 2) ∷ ("app", app gcn) ∷ [])
        (override "num_worker" (int 1 ∷ int 2 ∷ int 2 ∷ []) everything).conf_list)
    ≡ count_same (int 2) (int 1 ∷ int 2 ∷ int 2 ∷ [])
      * length (match (("app", app gcn) ∷ []) everything.conf_list)
unfolding text_discrete
length-match-override_example =
    length-match-override "num_worker" (int 2) (int 1 ∷ int 2 ∷ int 2 ∷ []) (("app", app gcn) ∷ [])
      everything (λ e. cc) (refl, tt)

multi_combo-combo_example :
    multi_combo "or" (("app", among models) ∷ []) "fanout" (text "25 10" ∷ []) everything
    ≡ combo "app" (among models) "fanout" (text "25 10" ∷ []) everything
unfolding select_op text_discrete
multi_combo-combo_example =
    multi_combo-combo "or" any_key "app" "fanout" (among models) (text "25 10" ∷ []) everything refl

override_list-override_example :
    multi_combo_multi_override_list "and"
      (("app", among models) ∷ [])
      ((("fanout", text "25 10") ∷ []) ∷ [])
      everything
    ≡ multi_combo_multi_override "and"
        (("app", among models) ∷ [])
        (("fanout", text "25 10") ∷ [])
        everything
override_list-override_example =
    override_list-override "and" (("app", among models) ∷ []) (("fanout", text "25 10") ∷ [])
      everything (λ e. cc)

abbrev gcn_confs : List RunConfig
gcn_confs = retain (has_one "app" (app gcn ∷ [])) everything.conf_list

abbrev other_confs : List RunConfig
other_confs = reject (has_one "app" (app gcn ∷ [])) everything.conf_list

abbrev workers : List Value
workers = int 1 ∷ int 2 ∷ []

length-multi_combo_example :
    length (other_confs ++ copies "num_worker" workers gcn_confs) + length gcn_confs
    ≡ length everything.conf_list + length workers * length gcn_confs
unfolding text_discrete select_op list_select divide everything insert same multi_combo
length-multi_combo_example =
    length-multi_combo "and" all_keys (("app", among (app gcn ∷ [])) ∷ []) "num_worker" (int 1)
      (int 2 ∷ []) everything gcn_confs other_confs
      {cl' = with_list everything (other_confs ++ copies "num_worker" workers gcn_confs)} refl refl
      refl
