-- ===== src/Runner/RunConfig/Commands.antt =====
-- When a command line can be formed, and what that changes.
use fgnn_artifacts.Prelude.{
  ℕ, String, ◌≡◌, refl, ◌∙◌, Bool, true, false, not, ◌&&◌, ◌||◌, some, [], ◌∷◌, ◌=ˢ◌, if◌then◌else◌,
  ok, is_ok, arith,
}
use fgnn_artifacts.Prelude.Dict.{Dict, has_key}
use fgnn_artifacts.Prelude.Text.{starts_with}
use fgnn_artifacts.Runner.Value.{Value, text}
use fgnn_artifacts.Runner.RunConfig.{RunConfig, option, options, form_cmd, std_out_path}

abbrev pub is_text : Value → Bool
is_text (text s) = true
is_text _ = false

-- Every option whose key begins with `BOOL_` has a text for its value.
unfoldable pub flags_are_texts : Dict Value → Bool
unfolding starts_with
flags_are_texts [] = true
flags_are_texts ((k, v) ∷ d) =
    ((k =ˢ "app") || (not (starts_with k "BOOL_") || is_text v)) && flags_are_texts d

option-is_ok :
    (k : String) (v : Value) → is_ok (option k v) ≡ (not (starts_with k "BOOL_") || is_text v)
unfolding option
option-is_ok k (text t) = ground arith
option-is_ok k v = ground arith

options-is_ok : (d : Dict Value) → is_ok (options d) ≡ flags_are_texts d
unfolding options flags_are_texts
options-is_ok [] = refl
options-is_ok ((k, v) ∷ d) = ground (arith, option-is_ok k v, options-is_ok d)

-- The command line can be formed: there is an app, and each flag is a text.
abbrev pub can_form : Dict Value → Bool
can_form d = has_key "app" d && flags_are_texts d

module _ (idx : ℕ) (appdir logdir : String) (durable_log : Bool) (c : RunConfig) where
  -- A command line can be formed, and no exception is raised, exactly if the configuration has an app
  -- and each of its options with a key that begins with `BOOL_` has a text for its value.
  pub is_ok-form_cmd : is_ok (form_cmd idx appdir logdir durable_log c) ≡ can_form c.configs
  unfolding form_cmd
  is_ok-form_cmd = ground (arith, options-is_ok c.configs)

  pub form_cmd-is_ok :
      can_form c.configs ≡ true → is_ok (form_cmd idx appdir logdir durable_log c) ≡ true
  form_cmd-is_ok h = is_ok-form_cmd ∙ h

  -- What a command line leaves behind.
  pub form_cmd_keeps :
      (cmd : String) (c' : RunConfig)
      → form_cmd idx appdir logdir durable_log c ≡ ok (cmd, c')
      → (c'.configs ≡ c.configs)
        × (c'.std_out_log ≡ (if durable_log then some (std_out_path logdir idx) else c.std_out_log))
        × (c'.status ≡ c.status)
  unfolding form_cmd
  form_cmd_keeps cmd c' h = ground arith
