-- ===== src/Render/Services.antt =====
-- The units that the target of internal/render/render.go wants, and those that the doctor checks.
use Prim.Native.String.{◌++◌}
use llama_stack.Base.{◌≡◌, refl, sym, subst, Bool, true, false, List, [], ◌∷◌, String, All}
use llama_stack.Base.Split.{split, cut, join_with, trim_left_char, trim_right_char}
use llama_stack.Config.{Config}
use llama_stack.Doctor.{Host, healthy, run, field, field_loop}
use llama_stack.Doctor.Required.{IsActive, required_units}
use llama_stack.Doctor.Ready.{run-IsReady}
use llama_stack.Render.Units.{lines, target_unit, units_of}

-- The units in the setting `Wants` of a unit file.
unfoldable pub wanted_units : String → List String
unfolding split field_loop cut trim_left_char trim_right_char
wanted_units contents = split b' ' (field "Wants" contents)

-- The target unit, by what is enabled: the agent tools, Open WebUI, SearXNG and the downloads.
abbrev target_of : Bool → Bool → Bool → Bool → String
target_of tools webui search downloads = lines (
    "[Unit]"
    ∷ "Description=Local AI service stack"
    ∷ ("Wants=" ++ join_with " " (units_of tools webui search downloads))
    ∷ "After=network-online.target"
    ∷ ""
    ∷ "[Install]"
    ∷ "WantedBy=multi-user.target"
    ∷ [])

wanted-target_of :
    (tools webui search downloads : Bool)
    → wanted_units (target_of tools webui search downloads) ≡ units_of tools webui search downloads
unfolding wanted_units join_with
wanted-target_of true true true true = refl
wanted-target_of true true true false = refl
wanted-target_of true true false true = refl
wanted-target_of true true false false = refl
wanted-target_of true false true true = refl
wanted-target_of true false true false = refl
wanted-target_of true false false true = refl
wanted-target_of true false false false = refl
wanted-target_of false true true true = refl
wanted-target_of false true true false = refl
wanted-target_of false true false true = refl
wanted-target_of false true false false = refl
wanted-target_of false false true true = refl
wanted-target_of false false true false = refl
wanted-target_of false false false true = refl
wanted-target_of false false false false = refl

-- Reading the generated target back gives the units that the doctor requires, in the same order.
pub wanted_units-target_unit : (cfg : Config) → wanted_units (target_unit cfg) ≡ required_units cfg
unfolding target_unit join_with
wanted_units-target_unit cfg =
    wanted-target_of cfg.agent_tools.enabled cfg.open_webui.service.enabled
      cfg.searxng.service.enabled cfg.downloads.service.enabled

-- On a host that the doctor calls healthy every unit that the generated target wants is active, in
-- every configuration.
pub wanted-IsActive :
    (host : Host) (cfg : Config)
    → healthy (run host cfg) ≡ true
    → All (IsActive host) (wanted_units (target_unit cfg))
wanted-IsActive host cfg h =
    subst (All (IsActive host)) (sym (wanted_units-target_unit cfg))
      ((run-IsReady host cfg).0 h).services
