-- ===== src/Config/Validation.antt =====
-- `Validate` of internal/config/config.go, and what a configuration that passes it is.
use Prim.Native.String.{◌++◌}
use llama_stack.Base.{
  Bool, not, ◌&&◌, ◌||◌, List, [], ◌∷◌, String, Result, ok, message, fail_if, ◌>>◌, str_eq,
  if◌then◌else◌, any,
}
use llama_stack.Base.Int.{ℤ, pos, ltb_ℤ, leb_ℤ}
use llama_stack.Base.Text.{trim_space, has_prefix}
use llama_stack.Config.{Config}

-- `filepath.IsAbs`.
unfoldable pub is_abs : String → Bool
unfolding has_prefix
is_abs path = has_prefix path "/"

abbrev pub is_blank : String → Bool
is_blank s = str_eq (trim_space s) ""

abbrev pub default_admin_group : String
default_admin_group = "llama-stack-admins"

-- The loop over `serviceNames`, as pairs of a name and its value.
unfoldable pub check_names : List (String × String) → Result (Unit {0})
check_names [] = ok tt
check_names ((name, value) ∷ rest) =
    fail_if (is_blank value) (message (name ++ " must not be empty")) >> check_names rest

-- The loop over `paths`.
unfoldable pub check_paths : List String → Result (Unit {0})
unfolding is_abs
check_paths [] = ok tt
check_paths (path ∷ rest) =
    fail_if (not (is_abs path)) (message ("managed path " ++ path ++ " must be absolute"))
    >> check_paths rest

abbrev pub outside : ℤ → ℤ → ℤ → Bool
outside lo hi n = ltb_ℤ n lo || ltb_ℤ hi n

-- The loop over the map of ports, in the order in which it is visited.
unfoldable pub check_ports : List (String × ℤ) → Result (Unit {0})
check_ports [] = ok tt
check_ports ((name, port) ∷ rest) =
    fail_if (outside (pos 1) (pos 65535) port) (message (name ++ " must be between 1 and 65535"))
    >> check_ports rest

abbrev pub service_names : Config → List (String × String)
service_names cfg =
    ("stack.user", cfg.stack.user)
    ∷ ("stack.group", cfg.stack.group)
    ∷ ("stack.admin_group", cfg.stack.admin_group)
    ∷ []

abbrev pub managed_paths : Config → List String
managed_paths cfg =
    cfg.paths.state ∷ cfg.paths.cache ∷ cfg.paths.models ∷ cfg.paths.users ∷ cfg.paths.artifacts
    ∷ []

abbrev pub port_map : Config → List (String × ℤ)
port_map cfg =
    ("llama.port", cfg.llama.port)
    ∷ ("open_webui.port", cfg.open_webui.service.port)
    ∷ ("searxng.port", cfg.searxng.service.port)
    ∷ ("downloads.port", cfg.downloads.service.port)
    ∷ ("orchestrator.port", cfg.orchestrator.port)
    ∷ []

-- The file paths that the condition on absolute paths reads, but that of the agent tools.
abbrev pub file_paths : Config → List String
file_paths cfg =
    cfg.llama.binary ∷ cfg.llama.api_key_file ∷ cfg.llama.mcp_servers_file
    ∷ cfg.llama.models_preset_file ∷ cfg.llama.model_profiles_file ∷ cfg.open_webui.secret_file
    ∷ cfg.searxng.secret_file ∷ cfg.ports.database ∷ cfg.ports.admin_token_file ∷ cfg.jobs.database
    ∷ []

abbrev pub hosts : Config → List String
hosts cfg =
    cfg.llama.host ∷ cfg.open_webui.service.host ∷ cfg.searxng.service.host
    ∷ cfg.downloads.service.host ∷ cfg.ports.listen_host ∷ cfg.orchestrator.host ∷ []

module _ (parse_ip : String → Bool) where
  unfoldable pub check_agent_tools : Config → Result (Unit {0})
  check_agent_tools cfg = do
    fail_if (not (parse_ip cfg.agent_tools.host)) (message "agent_tools.host must be an IP address")
    fail_if (outside (pos 1) (pos 65535) cfg.agent_tools.port)
        (message "agent_tools.port must be between 1 and 65535")
    fail_if (ltb_ℤ cfg.agent_tools.max_output (pos 1024))
        (message "agent_tools.max_output_bytes must be at least 1024")

  unfoldable pub check_toolbox : Config → Result (Unit {0})
  check_toolbox cfg = do
    fail_if (not (str_eq cfg.toolbox.runtime "podman")) (message "toolbox.runtime must be podman")
    fail_if (is_blank cfg.toolbox.image || is_blank cfg.llama.tools)
        (message "enabled toolbox requires toolbox.image and llama.tools")

  -- `Validate`; `visit` is the order in which the loop goes through the map of ports.
  unfoldable pub validate : (List (String × ℤ) → List (String × ℤ)) → Config → Result (Unit {0})
  unfolding check_names check_paths check_ports check_agent_tools check_toolbox is_abs
  validate visit cfg = do
    check_names (service_names cfg)
    fail_if (not (str_eq cfg.stack.admin_group default_admin_group))
        (message "stack.admin_group must be llama-stack-admins")
    check_paths (managed_paths cfg)
    fail_if
        (any (λ path. not (is_abs path)) (file_paths cfg)
          || (cfg.agent_tools.enabled && not (is_abs cfg.agent_tools.api_key_file)))
        (message "binary, generated, and secret file paths must be absolute")
    fail_if (any (λ host. not (parse_ip host)) (hosts cfg))
        (message "service hosts must be IP addresses")
    check_ports (visit (port_map cfg))
    if cfg.agent_tools.enabled then check_agent_tools cfg else ok tt
    fail_if (leb_ℤ cfg.llama.context_size cfg.open_webui.context_compaction_threshold)
        (message "context compaction threshold must be below llama context size")
    fail_if
        (not (str_eq cfg.open_webui.function_calling "native")
          && not (str_eq cfg.open_webui.function_calling "legacy"))
        (message "open_webui.function_calling must be native or legacy")
    fail_if
        (ltb_ℤ cfg.open_webui.context_compaction_token_cap
          cfg.open_webui.context_compaction_threshold)
        (message "context compaction token cap must not be below its threshold")
    if cfg.toolbox.enabled then check_toolbox cfg else ok tt
    fail_if
        (ltb_ℤ cfg.ports.start (pos 1024)
          || ltb_ℤ cfg.ports.end cfg.ports.start
          || ltb_ℤ (pos 65535) cfg.ports.end)
        (message "ports range must be ordered, unprivileged, and within 1024-65535")
    fail_if
        (ltb_ℤ cfg.ports.default_ttl (pos 1)
          || ltb_ℤ cfg.ports.maximum_ttl cfg.ports.default_ttl
          || ltb_ℤ cfg.ports.maximum_per_run (pos 1)
          || ltb_ℤ cfg.ports.maximum_per_user cfg.ports.maximum_per_run
          || ltb_ℤ cfg.ports.maximum_wait (pos 0))
        (message "port TTL, quota, or wait configuration is invalid")
    fail_if
        (ltb_ℤ cfg.jobs.poll_interval (pos 1)
          || ltb_ℤ cfg.jobs.recovery_timeout (pos 1)
          || ltb_ℤ cfg.jobs.database_lock_retries (pos 1)
          || ltb_ℤ cfg.jobs.database_lock_delay (pos 1))
        (message "job scheduler timing and retry configuration must be positive")
