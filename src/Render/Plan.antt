-- ===== src/Render/Plan.antt =====
-- What `Write` of internal/render/render.go is to do, without the system calls: a list of steps,
-- each of which replaces one file as a whole, from what the files show at its time.
use Prim.Native.String.{◌++◌}
use mathlib.Core.List as L
use llama_stack.Base.{
  Option, none, some, List, [], ◌∷◌, map, String, Result, ok, err, ◌≡◌, refl, if◌then◌else◌,
}
use llama_stack.Base.Split.{join_with}
use llama_stack.Config.{Config}
use llama_stack.System.View.{Content, Shown, install}
use llama_stack.Render.Json.{Printer, mcp_configuration, tool_connections}
use llama_stack.Render.Writing.{
  Output, rooted, outputs, environment, environment_path, settings, settings_path,
}

abbrev pub Step : Type 0
Step = Shown → Option (String × Content)

abbrev pub apply : Option (String × Content) → Shown → Shown
apply none f = f
apply (some (path, c)) f = install path c f

abbrev pub perform : List Step → Shown → Shown
perform [] f = f
perform (step ∷ steps) f = perform steps (apply (step f) f)

pub perform-append :
    (xs ys : List Step) (f : Shown) → perform (L.◌++◌ xs ys) f ≡ perform ys (perform xs f)
perform-append [] ys f = refl
perform-append (x ∷ xs) ys f = perform-append xs ys (apply (x f) f)

abbrev pub output_step : Output → Step
output_step o f = some (o.path, record { mode = o.mode; text = o.content })

abbrev pub rooted_output : String → Output → Output
rooted_output root o = record o { path = rooted root o.path }

-- A step on the text of a file that shows.
abbrev pub with_text {ℓ} : {A : Type ℓ} → Option Content → (String → Option A) → Option A
with_text none k = none
with_text (some c) k = k c.text

abbrev pub with_result {ℓ κ} : {A : Type ℓ} {B : Type κ} → Result A → (A → Option B) → Option B
with_result (err e) k = none
with_result (ok a) k = k a

module _ (printer : Printer) (quote : String → String) (cfg : Config) (root : String) where
  abbrev pub with_connections :
      Shown → (Option String → Option (String × Content)) → Option (String × Content)
  with_connections f k =
      if cfg.agent_tools.enabled
      then with_text (f (rooted root cfg.agent_tools.api_key_file))
          (λ key. with_result (printer.marshal (tool_connections cfg key)) (λ c. k (some c)))
      else k none

  abbrev pub environment_step : Step
  environment_step f = with_text (f (rooted root cfg.open_webui.secret_file)) (λ secret.
      with_text (f (rooted root cfg.llama.api_key_file)) (λ api_key.
        with_connections f (λ connections. some (
          rooted root environment_path,
          record {
            mode = 0x180;
            text = join_with "\n" (environment printer cfg secret api_key connections) ++ "\n";
          },
        ))))

  abbrev pub settings_step : Step
  settings_step f = with_text (f (rooted root cfg.searxng.secret_file)) (λ secret.
      some (rooted root (settings_path cfg), record { mode = 0x1a0; text = settings quote secret }))

  abbrev pub printed_or_empty : Result String → String
  printed_or_empty (err e) = ""
  printed_or_empty (ok s) = s

  abbrev pub planned_outputs : List Output
  planned_outputs = outputs cfg (printed_or_empty (printer.marshal_indent (mcp_configuration cfg)))

  -- The steps of `Write`: the ten outputs, the environment of Open WebUI, the settings of SearXNG.
  abbrev pub plan : List Step
  plan =
      L.◌++◌ (map (λ o. output_step (rooted_output root o)) planned_outputs)
        (environment_step ∷ settings_step ∷ [])

  -- The files that the last two steps read or replace.
  abbrev pub secret_files : List String
  secret_files =
      rooted root cfg.open_webui.secret_file
      ∷ rooted root cfg.llama.api_key_file
      ∷ rooted root cfg.agent_tools.api_key_file
      ∷ rooted root environment_path
      ∷ rooted root cfg.searxng.secret_file
      ∷ rooted root (settings_path cfg)
      ∷ []

  -- The files that the plan reads or replaces.
  abbrev pub touched : List String
  touched = L.◌++◌ (map (λ o. rooted root o.path) planned_outputs) secret_files
