-- ===== src/RunnerHelper/Logs.antt =====
-- Where the output of a run of exp/common/runner_helper.py goes.
use text.Mathlib.TextLemmas
use fgnn_artifacts.Prelude.{
  String, ◌<>◌, ◌≡◌, refl, ap, sym, ◌∙◌, true, List, [], ◌∷◌, ◌++◌, Result-cases, inl, inr, ok,
  arith,
}
use fgnn_artifacts.RunnerHelper.Options.{System-cases}
use fgnn_artifacts.RunnerHelper.RunConfig.{RunConfig, preprocess_sample_type, get_log_fname}
use fgnn_artifacts.RunnerHelper.Commands.{
  concat, redirections, remove_using, dgl_options, samgraph_options, form_samgraph_cmd,
  form_dgl_cmd, form_cmd,
}
use fgnn_artifacts.RunnerHelper.Total.{preprocess_lem}

concat-append : (xs ys : List String) → concat (xs ++ ys) ≡ concat xs <> concat ys
unfolding concat
concat-append [] ys = sym (TextLemmas.nil-append (concat ys))
concat-append (x ∷ xs) ys =
    rw (concat-append xs ys) (sym (TextLemmas.append_assoc x (concat xs) (concat ys)))

concat-parts :
    (xs ys zs : List String) → concat (xs ++ (ys ++ zs)) ≡ concat xs <> (concat ys <> concat zs)
concat-parts xs ys zs = concat-append xs (ys ++ zs) ∙ ap (λ t. concat xs <> t) (concat-append ys zs)

-- Setting the sample type first changes neither the name nor what is left.
get_log_fname-preprocess :
    (c : RunConfig) → get_log_fname (preprocess_sample_type c) ≡ get_log_fname c
unfolding get_log_fname
get_log_fname-preprocess c = rw (preprocess_lem c).3 refl

-- The part of a command line that says where the output and the errors go.
abbrev pub to_files : String → String
to_files fname = " > \"" <> (fname <> (".log\"" <> (" 2> \"" <> (fname <> ".err.log\";"))))

redirections_lem : (fname : String) → concat (redirections fname) ≡ to_files fname
unfolding concat
redirections_lem fname =
    rw
      (
        TextLemmas.append_assoc fname ".log"
            ("\"" <> (" 2> \"" <> ((fname <> ".err.log") <> ("\"" <> (";" <> ""))))),
        TextLemmas.append_assoc fname ".err.log" ("\"" <> (";" <> "")),
        TextLemmas.append_assoc ".log" "\"" (" 2> \"" <> (fname <> ".err.log\";")),
      )
      refl

-- What form_cmd_log says of one command line.
pub Redirects : RunConfig → String → RunConfig → Type 0
Redirects c cmd c' =
    (front : String) × (back : String) × (cmd ≡ front <> (to_files (get_log_fname c).0 <> back))
    × ((get_log_fname c').0 ≡ (get_log_fname c).0)

form_dgl_cmd_log :
    (c c' : RunConfig) (cmd : String) → form_dgl_cmd true c ≡ ok (cmd, c') → Redirects c cmd c'
unfolding form_dgl_cmd Redirects
form_dgl_cmd_log c c' cmd h = elim (System-cases c.system) [
  | inl e ↦ absurd (ground (arith, e, h))
  | inr e ↦
      let fname = (get_log_fname c).0 in
      let parts = dgl_options c ++ (redirections fname ++ remove_using fname) in
      let same : cmd ≡ concat parts = ground (arith, e, h) in
      let left : c' ≡ preprocess_sample_type c = ground (arith, e, h) in
      (
        concat (dgl_options c),
        concat (remove_using fname),
        same
            ∙ concat-parts (dgl_options c) (redirections fname) (remove_using fname)
            ∙ ap (λ t. concat (dgl_options c) <> (t <> concat (remove_using fname)))
                (redirections_lem fname),
        ap (λ x. (get_log_fname x).0) left ∙ ap (λ r. r.0) (get_log_fname-preprocess c),
      )
]

form_samgraph_cmd_log :
    (c c' : RunConfig) (cmd : String) → form_samgraph_cmd true c ≡ ok (cmd, c') → Redirects c cmd c'
unfolding form_samgraph_cmd Redirects
form_samgraph_cmd_log c c' cmd h = elim (System-cases c.system) [
  | inr e ↦ absurd (ground (arith, e, h))
  | inl e ↦ elim (Result-cases (samgraph_options (preprocess_sample_type c))) [
    | inr (x, raised) ↦ absurd (ground (arith, e, h, raised))
    | inl (cmd_line, made) ↦
        let fname = (get_log_fname c).0 in
        let again = get_log_fname-preprocess c in
        let same : cmd
            ≡ concat (cmd_line ++ redirections (get_log_fname (preprocess_sample_type c)).0) =
          ground (arith, e, h, made) in
        let left : c' ≡ preprocess_sample_type (preprocess_sample_type c) =
          ground (arith, e, h, made) in
        (
          concat cmd_line,
          "",
          same
              ∙ ap (λ r. concat (cmd_line ++ redirections r.0)) again
              ∙ concat-append cmd_line (redirections fname)
              ∙ ap (λ t. concat cmd_line <> t) (redirections_lem fname)
              ∙ ap (λ t. concat cmd_line <> t) (sym (TextLemmas.append-nil (to_files fname))),
          ap (λ x. (get_log_fname x).0) left
              ∙ ap (λ r. r.0) (get_log_fname-preprocess (preprocess_sample_type c))
              ∙ ap (λ r. r.0) again,
        )
  ]
]

-- Where a command line with a durable log is formed, it has the part ` > "F.log" 2> "F.err.log";`,
-- where F is the name that get_log_fname gives the configuration, and the configuration as form_cmd leaves it, which a callback gets, has the same name.
pub form_cmd_log :
    (c c' : RunConfig) (cmd : String) → form_cmd true c ≡ ok (cmd, c') → Redirects c cmd c'
unfolding form_cmd
form_cmd_log c c' cmd h = elim (System-cases c.system) [
  | inl e ↦ form_samgraph_cmd_log c c' cmd (ground (arith, e, h))
  | inr e ↦ form_dgl_cmd_log c c' cmd (ground (arith, e, h))
]
