-- ===== src/Config/Loading.antt =====
-- `Load` of internal/config/config.go. The decoder of the file is not part of the repository: its
-- answer is an argument, the configuration and whether the file defines
-- `open_webui.auto_select_tools`. So is `filepath.Join`.
use llama_stack.Base.{
  Bool, true, List, [], ◌∷◌, String, Result, ok, ◌>>=◌, ◌>>◌, str_eq, ◌≡◌, refl, subst,
  if◌then◌else◌, parts_of_ok, ok-injective, Bool-cases, inl, inr, eq_iff, SameEntries,
}
use llama_stack.Base.Int.{ℤ}
use llama_stack.Base.Text.{has_prefix, strip_prefix}
use llama_stack.Config.{Config}
use llama_stack.Config.Validation.{validate, is_abs, port_map}
use llama_stack.Config.Accepted.{IsValid, validate-IsValid}

abbrev pub default_model_profiles_file : String
default_model_profiles_file = "/usr/share/llama-stack/model-profiles.toml"

abbrev pub when_empty : String → String → String
when_empty value s = if str_eq s "" then value else s

-- The defaults that `Load` fills in.
unfoldable pub with_defaults : (List String → String) → Bool → Config → Config
with_defaults join defined cfg = record cfg {
  llama = record (cfg.llama) {
    models_preset_file =
        when_empty (join (cfg.paths.state ∷ "generated" ∷ "model-presets.ini" ∷ []))
          cfg.llama.models_preset_file;
    model_profiles_file = when_empty default_model_profiles_file cfg.llama.model_profiles_file;
  };
  open_webui = record (cfg.open_webui) {
    function_calling = when_empty "native" cfg.open_webui.function_calling;
    auto_select_tools = if defined then cfg.open_webui.auto_select_tools else true;
  };
}

module _ (join : List String → String) (parse_ip : String → Bool)
    (visit : List (String × ℤ) → List (String × ℤ)) where
  unfoldable pub load : Result (Config × Bool) → Result Config
  unfolding with_defaults
  load decoded = do
    (cfg, defined) ← decoded
    validate parse_ip visit (with_defaults join defined cfg)
    ok (with_defaults join defined cfg)

  loading :
      (raw : Config) (defined : Bool) (cfg : Config)
      → load (ok (raw, defined)) ≡ ok cfg
      → (with_defaults join defined raw ≡ cfg)
        × (validate parse_ip visit (with_defaults join defined raw) ≡ ok tt)
  unfolding load
  loading raw defined cfg h =
      let (u, valid, result) =
        parts_of_ok (validate parse_ip visit (with_defaults join defined raw)) _ h in
      (ok-injective result, valid)

  kept_path : (value s : String) → is_abs s ≡ true → when_empty value s ≡ s
  unfolding is_abs has_prefix strip_prefix
  kept_path value s h = elim (Bool-cases (str_eq s "")) [
    | inl e ↦ absurd (cc (rw ((eq_iff s "").0 e) at h))
    | inr e ↦ rw e refl
  ]

  kept_mode : (s : String) → when_empty "native" (when_empty "native" s) ≡ when_empty "native" s
  kept_mode s = elim (Bool-cases (str_eq s "")) [ inl e ↦ rw e refl | inr e ↦ rw (e, e) refl ]

  -- On an accepted configuration the defaults change nothing more.
  settled :
      (raw : Config) (defined : Bool)
      → IsValid parse_ip (with_defaults join defined raw)
      → with_defaults join true (with_defaults join defined raw) ≡ with_defaults join defined raw
  unfolding with_defaults
  settled raw defined v i = record (with_defaults join defined raw) {
    llama = record ((with_defaults join defined raw).llama) {
      models_preset_file =
          kept_path (join (raw.paths.state ∷ "generated" ∷ "model-presets.ini" ∷ []))
            (with_defaults join defined raw).llama.models_preset_file v.filed.1.1.1.0 i;
      model_profiles_file =
          kept_path default_model_profiles_file
            (with_defaults join defined raw).llama.model_profiles_file v.filed.1.1.1.1.0 i;
    };
    open_webui = record ((with_defaults join defined raw).open_webui) {
      function_calling = kept_mode raw.open_webui.function_calling i;
    };
  }

-- A configuration that `Load` returns is valid with its defaults filled in, and loading a file
-- that spells it out returns the same configuration again.
pub load-stable :
    (join : List String → String) (parse_ip : String → Bool)
    (visit : List (String × ℤ) → List (String × ℤ)) (raw : Config) (defined : Bool) (cfg : Config)
    → ((c : Config) → SameEntries (visit (port_map c)) (port_map c))
    → load join parse_ip visit (ok (raw, defined)) ≡ ok cfg
    → IsValid parse_ip cfg × (load join parse_ip visit (ok (cfg, true)) ≡ ok cfg)
unfolding load
load-stable join parse_ip visit raw defined cfg visits h =
    let (same, valid) = loading join parse_ip visit raw defined cfg h in
    let filled = with_defaults join defined raw in
    let good : IsValid parse_ip filled =
      validate-IsValid parse_ip visit filled (visits filled) valid in
    let again : with_defaults join true filled ≡ filled =
      settled join parse_ip visit raw defined good in
    (
      subst (IsValid parse_ip) same good,
      subst (λ c. load join parse_ip visit (ok (c, true)) ≡ ok c) same
          (rw (again, valid, load) refl),
    )
