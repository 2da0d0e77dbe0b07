-- ===== src/Runner/Execution/Status.antt =====
-- run_status.txt: what write_run_status writes, load_run_status reads back.
use Prim.Native.Char.{Char}
use mathlib.Core.Path.{subst}
use text.Mathlib.TextLemmas
use fgnn_artifacts.Prelude.{
  ℕ, suc, String, ◌<>◌, ◌≡◌, refl, ap, ◌∙◌, inl, false, none, some, List, [], ◌∷◌, ◌++◌,
  append_assoc, length, set, get_elem?, get_elem?-append_at, get_elem?-length, set-append_at,
  length-append, map, append-nil, text_discrete, ok, arith,
}
use fgnn_artifacts.Prelude.Text.{show, match_line, lines_of}
use fgnn_artifacts.Prelude.Text.Basic.{Avoids, Avoids-append, lines_of-line}
use fgnn_artifacts.Prelude.Text.Decimal.RoundTrip.{
  parse_int-show, show-split, show-AllDigits, AllDigits, AllDigits-Avoids,
}
use fgnn_artifacts.Prelude.Text.Matching.RoundTrip.{match_line-line}
use fgnn_artifacts.Runner.Value.{RunStatus, run_ok, not_ok, show_status}
use fgnn_artifacts.Runner.RunConfig.{RunConfig}
use fgnn_artifacts.Runner.Os.{Os, write_file}
use fgnn_artifacts.Runner.ConfigList.{ConfigList}
use fgnn_artifacts.Runner.Execution.{
  status_line, status_lines, unlines, set_status, set_status_at, status_of, load_line, load_lines,
  output, write_run_status, load_run_status, status_path,
}

-- A line of the file, as the pattern of load_run_status sees it.
value_line :
    (st : RunStatus) (prefix : String) (i : ℕ)
    → match_line prefix (prefix <> (show i <> ("=" <> (show_status st <> "\n"))))
      ≡ some (show i, show_status st)
value_line st prefix i =
    let (c, s, e) = show-split i in rw e (keyed st c s (subst AllDigits e (show-AllDigits i)))
  where
    keyed :
        (st : RunStatus) (c : Char) (s : String)
        → AllDigits (String.◌∷◌ c s)
        → match_line prefix (prefix <> (String.◌∷◌ c s <> ("=" <> (show_status st <> "\n"))))
          ≡ some (String.◌∷◌ c s, show_status st)
    keyed run_ok c s h =
        match_line-line "1" "" ((λ e. absurd (omega arith)), tt) ((λ e. absurd (omega arith)), tt)
          prefix c s (AllDigits-Avoids b'\n' (String.◌∷◌ c s) (inl (omega arith)) h)
    keyed not_ok c s h =
        match_line-line "0" "" ((λ e. absurd (omega arith)), tt) ((λ e. absurd (omega arith)), tt)
          prefix c s (AllDigits-Avoids b'\n' (String.◌∷◌ c s) (inl (omega arith)) h)

match-status_line :
    (i : ℕ) (conf : RunConfig)
    → match_line "Test" (status_line i conf <> "\n") ≡ some (show i, show_status conf.status)
unfolding status_line
match-status_line i conf = simp TextLemmas.append_assoc (value_line conf.status "Test" i)

status_of-show_status : (st : RunStatus) → status_of (show_status st) ≡ st
unfolding status_of text_discrete
status_of-show_status run_ok = refl
status_of-show_status not_ok = refl

-- Loading a written line sets the status that was written.
load-status_line :
    (i : ℕ) (conf old : RunConfig) (confs : List RunConfig)
    → get_elem? confs i ≡ some old
    → load_line (status_line i conf <> "\n") confs ≡ some (set confs i (set_status conf.status old))
unfolding load_line set_status_at
load-status_line i conf old confs found =
    ground (arith, match-status_line i conf, parse_int-show i, status_of-show_status conf.status)

load-status_line_past :
    (i : ℕ) (conf : RunConfig) (confs : List RunConfig)
    → get_elem? confs i ≡ none
    → load_line (status_line i conf <> "\n") confs ≡ none
unfolding load_line set_status_at
load-status_line_past i conf confs missing =
    ground (arith, match-status_line i conf, parse_int-show i)

-- The configurations of one list with the statuses of another, as far as that reaches.
abbrev pub with_statuses : List RunConfig → List RunConfig → List RunConfig
with_statuses [] confs = []
with_statuses (old ∷ olds) [] = old ∷ olds
with_statuses (old ∷ olds) (conf ∷ confs) = set_status conf.status old ∷ with_statuses olds confs

file_lines : ℕ → List RunConfig → List String
file_lines i confs = map (λ l. l <> "\n") (status_lines i confs)

load-file_lines :
    (confs olds done : List RunConfig)
    → load_lines (file_lines (length done) confs) (done ++ olds) ≡ done ++ with_statuses olds confs
unfolding load_lines file_lines status_lines
load-file_lines [] [] done = refl
load-file_lines [] (old ∷ olds) done = refl
load-file_lines (conf ∷ confs) [] done =
    rw append-nil
      (ground (arith, load-status_line_past (length done) conf done (get_elem?-length done)))
load-file_lines (conf ∷ confs) (old ∷ olds) done =
    let x = set_status conf.status old in
    let e : length (done ++ x ∷ []) ≡ suc (length done) =
      omega (arith, length-append done (x ∷ [])) in
    rw
      (
        load-status_line (length done) conf old (done ++ old ∷ olds)
            (get_elem?-append_at olds old done),
        set-append_at olds old (set_status conf.status old) done,
        load_lines,
      )
      (rw
        (e, append_assoc done (x ∷ []) olds, append_assoc done (x ∷ []) (with_statuses olds confs))
        at (load-file_lines confs olds (done ++ x ∷ [])))

line_free : (i : ℕ) (conf : RunConfig) → Avoids b'\n' (status_line i conf)
unfolding status_line
line_free i conf = Avoids-append b'\n' "Test" _ (omega arith) (
    Avoids-append b'\n' (show i) _
      (AllDigits-Avoids b'\n' (show i) (inl (omega arith)) (show-AllDigits i))
      (Avoids-append b'\n' "=" _ (omega arith) (shown conf.status)))
  where
    shown : (st : RunStatus) → Avoids b'\n' (show_status st)
    shown run_ok = omega arith
    shown not_ok = omega arith

lines_of-unlines :
    (i : ℕ) (confs : List RunConfig)
    → lines_of (unlines (status_lines i confs)) ≡ file_lines i confs
unfolding unlines status_lines file_lines lines_of
lines_of-unlines i [] = refl
lines_of-unlines i (conf ∷ confs) =
    rw (TextLemmas.append_assoc, TextLemmas.cons-append, TextLemmas.nil-append)
      (lines_of-line (status_line i conf) (unlines (status_lines (suc i) confs)) (line_free i conf)
        ∙ ap (λ l. (status_line i conf <> "\n") ∷ l) (lines_of-unlines (suc i) confs))

-- What a system must do for files to be kept: a file that was written is read back.
abbrev pub ReadsBack : Os → Type 0
ReadsBack os =
    (path content : String) (s s' : os.State)
    → os.write path content s ≡ some s'
    → os.read path s' ≡ some content

write_file-ok :
    (os : Os) (path content : String) (s s' : os.State)
    → write_file os path content s ≡ ok (tt, s')
    → os.write path content s ≡ some s'
write_file-ok os path content s s' h = ground arith

-- On a system that reads back what was written to a file: when a list of configurations has written
-- its statuses to a log directory, any list that loads them from there takes over the status at
-- each position that both lists have, and changes nothing else, also where the two lists have
-- different lengths.
pub load-write_run_status :
    (os : Os) (logdir : String) (cl old : ConfigList) (s s' : os.State)
    → ReadsBack os
    → write_run_status os logdir false cl s ≡ ok (tt, s')
    → (load_run_status os logdir old s').conf_list ≡ with_statuses old.conf_list cl.conf_list
unfolding write_run_status load_run_status output
load-write_run_status os logdir cl old s s' kept written =
    let stored =
      write_file-ok os (status_path logdir) (unlines (status_lines 0 cl.conf_list)) _ s' written in
    ground (
      arith,
      kept (status_path logdir) (unlines (status_lines 0 cl.conf_list)) _ s' stored,
      lines_of-unlines 0 cl.conf_list,
      load-file_lines cl.conf_list old.conf_list [],
    )
