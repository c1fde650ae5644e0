-- ===== src/Render/Tests.antt =====
-- The theorems on the renderer, applied to the sample configuration.

use llama_stack.Base.{
  ◌≡◌, refl, Bool, true, false, Option, none, some, List, [], ◌∷◌, String, ok, str_eq, All, any,
  if◌then◌else◌,
}
use llama_stack.Base.Actions.{◌>>=◌}
use llama_stack.Base.Int.{pos}
use llama_stack.Base.Text.{has_prefix, trim_space, is_space}
use llama_stack.Config.Samples.{raw}
use llama_stack.Doctor.{healthy, run}
use llama_stack.Doctor.Sample.{host}
use llama_stack.Doctor.Required.{IsActive}
use llama_stack.System.{Files, Node, System, call}
use llama_stack.System.View.{view}
use llama_stack.Render.Json.{Printer}
use llama_stack.Render.Writing.{
  write_all, write_outputs, write_atomic, write_open_webui_environment, write_searxng_settings,
  rooted, outputs,
}
use llama_stack.Render.Plan.{plan}
use llama_stack.Render.Refinement.{write_all-Refines}
use llama_stack.Render.Refinement.Steps.{Refines}
use llama_stack.Render.Services.{wanted_units, wanted-IsActive}
use llama_stack.Render.Units.{target_unit}

abbrev printer : Printer
printer = record { marshal = λ j. ok "{}"; marshal_indent = λ j. ok "{}" }

abbrev temporary : String
temporary = "/tmp/.llama-stack-1"

abbrev is_temp : String → Bool
is_temp path = str_eq path temporary

abbrev pick : Files → String → String → String
pick files directory pattern_text = temporary

-- A host with the secrets, whose calls all succeed.
abbrev secret_file : Option Node
secret_file =
    some (record { directory = false; mode = 0x1a0; uid = pos 0; gid = pos 0; text = "s\n" })

abbrev secret_paths : List String
secret_paths =
    raw.open_webui.secret_file ∷ raw.llama.api_key_file ∷ raw.agent_tools.api_key_file
    ∷ raw.searxng.secret_file ∷ []

abbrev before : System
before = record {
  nodes = λ path. if any (str_eq path) secret_paths then secret_file else none;
  answers = [];
  processes = [];
}

write_all-Refines_example :
    Refines is_temp
      (plan printer (λ s. s) raw "")
      (view is_temp before.nodes)
      (write_all pick printer (λ s. s) raw "" before)
unfolding rooted outputs
write_all-Refines_example =
    write_all-Refines is_temp pick (λ files d t. refl) printer (λ s. s) raw "" before
      (
        refl,
        (
          refl,
          (
            refl,
            (
              refl,
              (
                refl,
                (
                  refl,
                  (
                    refl,
                    (refl, (refl, (refl, (refl, (refl, (refl, (refl, (refl, (refl, tt))))))))),
                  ),
                ),
              ),
            ),
          ),
        ),
      )

-- The run of the example goes through all steps.
written : (write_all pick printer (λ s. s) raw "" before).0 ≡ ok tt
unfolding write_all write_outputs write_atomic write_open_webui_environment write_searxng_settings
    rooted outputs call ◌>>=◌
written = refl

settled : healthy (run host raw) ≡ true
unfolding healthy run has_prefix trim_space is_space
settled = refl

wanted-IsActive_example : All (IsActive host) (wanted_units (target_unit raw))
wanted-IsActive_example = wanted-IsActive host raw settled

-- A path that climbs leaves the alternate root.
rooted_above : rooted "/srv/image" "/../etc/mcp.json" ≡ "/srv/etc/mcp.json"
unfolding rooted
rooted_above = refl
