-- ===== src/Config/Tests.antt =====
-- A configuration like the packaged one, and the theorems on `Validate` and `Load` applied to it.
use llama_stack.Base.{◌≡◌, refl, Bool, true, false, List, String, ok}
use llama_stack.Base.Int.{ℤ}
use llama_stack.Base.Text.{trim_space, trim_left, trim_right, is_space, has_prefix, strip_prefix}
use llama_stack.Config.{Config}
use llama_stack.Config.Samples.{raw}
use llama_stack.Config.Validation.{
  validate, check_names, check_paths, check_ports, check_agent_tools, check_toolbox, is_abs,
}
use llama_stack.Config.Accepted.{IsValid, validate-IsValid}
use llama_stack.Config.Loading.{load, with_defaults, load-stable}

abbrev join : List String → String
join parts = "/var/lib/llama-stack/generated/model-presets.ini"

abbrev parses : String → Bool
parses s = true

abbrev in_order : List (String × ℤ) → List (String × ℤ)
in_order ps = ps

abbrev cfg : Config
cfg = with_defaults join false raw

loaded : load join parses in_order (ok (raw, false)) ≡ ok cfg
unfolding load with_defaults validate check_names check_paths check_ports check_agent_tools
    check_toolbox is_abs trim_space trim_left trim_right is_space has_prefix strip_prefix
loaded = refl

valid : validate parses in_order cfg ≡ ok tt
unfolding load with_defaults validate check_names check_paths check_ports check_agent_tools
    check_toolbox is_abs trim_space trim_left trim_right is_space has_prefix strip_prefix
valid = refl

validate-IsValid_example : IsValid parses cfg
validate-IsValid_example = validate-IsValid parses in_order cfg (λ w. refl) valid

load-stable_example : IsValid parses cfg × (load join parses in_order (ok (cfg, true)) ≡ ok cfg)
load-stable_example = load-stable join parses in_order raw false cfg (λ c w. refl) loaded
