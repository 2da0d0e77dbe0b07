-- ===== src/Runner/ConfigList/Combos.antt =====
-- How the methods that select and override at once agree with one another.
use mathlib.Core.Path.{fun_ext}
use fgnn_artifacts.Prelude.{
  ◌+◌, ◌*◌, String, ◌≡◌, ◌≢◌, refl, ap, Bool, List, [], ◌∷◌, ◌++◌, map, Result, ok, raise, >>=-ok,
  length, length-append, length-map, arith,
}
use fgnn_artifacts.Prelude.Dict.{Dict}
use fgnn_artifacts.Runner.Value.{Value, Indicator}
use fgnn_artifacts.Runner.RunConfig.{RunConfig}
use fgnn_artifacts.Runner.ConfigList.{
  ConfigList, selected, divide, SelectOp, all_keys, any_key, select_op, list_select, copies, combo,
  multi_combo, assign_all, multi_combo_multi_override, variants, multi_combo_multi_override_list,
}

list_select_one :
    (how : SelectOp) (key : String) (vals : Indicator) (cfg : RunConfig)
    → list_select how ((key, vals) ∷ []) cfg ≡ selected key vals cfg
unfolding list_select
list_select_one all_keys key vals cfg = ground arith
list_select_one any_key key vals cfg = ground arith

divide-list_select_one :
    (how : SelectOp) (key : String) (vals : Indicator)
    → divide (list_select how ((key, vals) ∷ [])) ≡ divide (selected key vals)
divide-list_select_one how key vals = ap divide (fun_ext (list_select_one how key vals))

-- With one key, `multi_combo` is `combo`, whichever of the two operators is given, also where the
-- selection raises.
pub multi_combo-combo :
    (op : String) (how : SelectOp) (k j : String) (indicator : Indicator) (vals : List Value)
    (cl : ConfigList)
    → select_op op ≡ ok how
    → multi_combo op ((k, indicator) ∷ []) j vals cl ≡ combo k indicator j vals cl
unfolding multi_combo combo
multi_combo-combo op how k j indicator [] cl h = rw h
multi_combo-combo op how k j indicator (v ∷ vals) cl h =
    rw (h, divide-list_select_one how k indicator)

variants_one :
    (d : Dict Value) (cfgs : List RunConfig) → variants (d ∷ []) cfgs ≡ map (assign_all d) cfgs
unfolding variants
variants_one d [] = refl
variants_one d (cfg ∷ cfgs) = ap (λ l. assign_all d cfg ∷ l) (variants_one d cfgs)

-- With one dict that is not empty, the method that takes a list of dicts does the same as the one
-- that takes a dict: the same configurations in the same order, or the same exception.
pub override_list-override :
    (op : String) (sel : Dict Indicator) (d : Dict Value) (cl : ConfigList)
    → d ≢ []
    → multi_combo_multi_override_list op sel (d ∷ []) cl ≡ multi_combo_multi_override op sel d cl
unfolding multi_combo_multi_override multi_combo_multi_override_list
override_list-override op sel [] cl h = absurd (h refl)
override_list-override op sel (kv ∷ kvs) cl h = simp variants_one

length-copies :
    (key : String) (vals : List Value) (cfgs : List RunConfig)
    → length (copies key vals cfgs) ≡ length vals * length cfgs
unfolding copies
length-copies key [] cfgs = omega arith
length-copies key (v ∷ vals) cfgs =
    rw (length-append, length-map, length-copies key vals cfgs) (omega arith)

length-variants :
    (ds : List (Dict Value)) (cfgs : List RunConfig)
    → length (variants ds cfgs) ≡ length ds * length cfgs
unfolding variants
length-variants ds [] = omega arith
length-variants ds (cfg ∷ cfgs) =
    rw (length-append, length-map, length-variants ds cfgs) (omega arith)

length-divide :
    (test : RunConfig → Result Bool) (cfgs newlist others : List RunConfig)
    → divide test cfgs ≡ ok (newlist, others)
    → length newlist + length others ≡ length cfgs
unfolding divide
length-divide test [] newlist others h = ground arith
length-divide test (cfg ∷ cfgs) newlist others h =
    let (chosen, tested, rest) = >>=-ok (test cfg) h in
    let (parts, split, placed) = >>=-ok (divide test cfgs) rest in
    let ih : length parts.0 + length parts.1 ≡ length cfgs =
      length-divide test cfgs parts.0 parts.1 split in
    ground arith

abbrev confs_of : Result ConfigList → List RunConfig
confs_of (ok cl) = cl.conf_list
confs_of (raise _) = []

-- `multi_combo` with a list of n values that is not empty, where its selection takes m configurations of the list and does not
-- raise, makes n * m of those m: the list grows by n * m - m.
pub length-multi_combo :
    (op : String) (how : SelectOp) (sel : Dict Indicator) (key : String) (v : Value)
    (vals : List Value) (cl : ConfigList) (newlist others : List RunConfig) {cl' : ConfigList}
    → select_op op ≡ ok how
    → divide (list_select how sel) cl.conf_list ≡ ok (newlist, others)
    → multi_combo op sel key (v ∷ vals) cl ≡ ok cl'
    → length cl'.conf_list + length newlist
      ≡ length cl.conf_list + length (v ∷ vals) * length newlist
unfolding multi_combo
length-multi_combo op how sel key v vals cl newlist others {cl'} h split done =
    let e : others ++ copies key (v ∷ vals) newlist ≡ cl'.conf_list =
      ap confs_of (rw (h, split) at done) in
    rw (← e, length-append, length-copies key (v ∷ vals) newlist)
      (omega (arith, length-divide (list_select how sel) cl.conf_list newlist others split))
