-- ===== src/Doctor/Ready.antt =====
-- What a healthy report of internal/doctor/doctor.go says of the host.

use llama_stack.Base.{◌≡◌, ◌↔◌, inl, inr, Bool, true, false, ◌∷◌, String, Bool-cases, All, ◌++◌}
use llama_stack.Base.Conditions.{All-split, All-join, cons_iff, pair_iff, append_iff, map_iff}
use llama_stack.Config.{Config}
use llama_stack.Doctor.{
  Host, healthy, check_file, check_directory, check_llama_devices, run, directories, search_server,
  tool_server, search_checks, tool_checks, service_if, service_checks, check_managed_directories,
}
use llama_stack.Doctor.Required.{
  search_files, tool_files, unit_if, required_units, IsUsable, IsDirectory, HasDevices, IsActive,
  IsReady,
}
use llama_stack.Doctor.Checks.{
  Fine, healthy_iff, Fine-check_operating_system, Fine-check_command, Fine-check_file,
  Fine-check_directory, Fine-check_llama_devices, Fine-check_service,
}

module _ (host : Host) where
  Fine-search_checks :
      (cfg : Config)
      → All Fine (search_checks host cfg) ↔ All (λ f. IsUsable host f.0 f.1) (search_files cfg)
  unfolding check_file
  Fine-search_checks cfg = elim (Bool-cases cfg.searxng.service.enabled) [
    | inr off ↦ rw off (λ h. tt, λ h. tt)
    | inl on ↦ rw on (
        pair_iff (Fine-check_file host "Search MCP server" search_server 0x49)
          (Fine-check_file host "MCP server configuration" cfg.llama.mcp_servers_file 0x100))
  ]

  Fine-tool_checks :
      (cfg : Config)
      → All Fine (tool_checks host cfg) ↔ All (λ f. IsUsable host f.0 f.1) (tool_files cfg)
  Fine-tool_checks cfg = elim (Bool-cases cfg.agent_tools.enabled) [
    | inr off ↦ rw off (λ h. tt, λ h. tt)
    | inl on ↦ rw on (
        pair_iff (Fine-check_file host "Agent tools server" tool_server 0x49)
          (Fine-check_file host "Agent tools API key" cfg.agent_tools.api_key_file 0x100))
  ]

  Fine-managed :
      (cfg : Config)
      → All Fine (check_managed_directories host cfg)
        ↔ All (IsDirectory host) (directories host cfg)
  Fine-managed cfg =
      map_iff Fine (IsDirectory host) (check_directory host) (Fine-check_directory host)
        (directories host cfg)

  Fine-service_if :
      (enabled : Bool) (unit : String)
      → All Fine (service_if host enabled unit) ↔ All (IsActive host) (unit_if enabled unit)
  Fine-service_if true unit = (
    λ h. ((Fine-check_service host unit).0 h.0, tt),
    λ h. ((Fine-check_service host unit).1 h.0, tt),
  )
  Fine-service_if false unit = (λ h. tt, λ h. tt)

  Fine-service_checks :
      (cfg : Config) → All Fine (service_checks host cfg) ↔ All (IsActive host) (required_units cfg)
  Fine-service_checks cfg = cons_iff (Fine-check_service host "llama-server.service") (
      cons_iff (Fine-check_service host "llama-stackd.service") (
        append_iff Fine (IsActive host) _ _ _ _
          (Fine-service_if cfg.agent_tools.enabled "llama-agent-tools.service")
          (append_iff Fine (IsActive host) _ _ _ _
            (Fine-service_if cfg.open_webui.service.enabled "llama-open-webui.service")
            (append_iff Fine (IsActive host) _ _ _ _
              (Fine-service_if cfg.searxng.service.enabled "llama-searxng.service")
              (Fine-service_if cfg.downloads.service.enabled "llama-downloads.service")))))

  -- What the report says after its first nine checks.
  Fine-rest :
      (cfg : Config)
      → All Fine (
          search_checks host cfg
          ++ (tool_checks host cfg
              ++ (check_managed_directories host cfg
                  ++ (check_llama_devices host cfg.llama.binary ∷ service_checks host cfg))))
        ↔ (All (λ f. IsUsable host f.0 f.1) (search_files cfg ++ tool_files cfg)
            × All (IsDirectory host) (directories host cfg)
            × HasDevices host cfg.llama.binary
            × All (IsActive host) (required_units cfg))
  Fine-rest cfg = (
    λ h.
        let (s, h₁) = All-split Fine (search_checks host cfg) _ h in
        let (t, h₂) = All-split Fine (tool_checks host cfg) _ h₁ in
        let (m, h₃) = All-split Fine (check_managed_directories host cfg) _ h₂ in
        (
          All-join (λ f. IsUsable host f.0 f.1) (search_files cfg) (tool_files cfg)
              ((Fine-search_checks cfg).0 s) ((Fine-tool_checks cfg).0 t),
          (Fine-managed cfg).0 m,
          (Fine-check_llama_devices host cfg.llama.binary).0 h₃.0,
          (Fine-service_checks cfg).0 h₃.1,
        ),
    λ h.
        let (s, t) =
          All-split (λ f. IsUsable host f.0 f.1) (search_files cfg) (tool_files cfg) h.0 in
        All-join Fine (search_checks host cfg) _ ((Fine-search_checks cfg).1 s) (
          All-join Fine (tool_checks host cfg) _ ((Fine-tool_checks cfg).1 t) (
            All-join Fine (check_managed_directories host cfg) _ ((Fine-managed cfg).1 h.1) (
              (Fine-check_llama_devices host cfg.llama.binary).1 h.2,
              (Fine-service_checks cfg).1 h.3,
            ))),
  )

  -- `doctor` calls a host healthy exactly if it is ready for the configuration: Fedora, the three
  -- commands, every file the configuration asks for, the managed directories, a CUDA device that
  -- the server lists, and every unit of an enabled service running.
  pub run-IsReady : (cfg : Config) → (healthy (run host cfg) ≡ true) ↔ IsReady host cfg
  unfolding run
  run-IsReady cfg = (
    λ h.
        let (
          os,
          (podman, (driver, (compiler, (server, (key, (secret, (searx, (admin, rest)))))))),
        ) =
          (healthy_iff (run host cfg)).0 h in
        let (files, managed, devices, services) = (Fine-rest cfg).0 rest in
        record {
          fedora = (Fine-check_operating_system host).0 os;
          commands = (
            (Fine-check_command host "Podman" _ _).0 podman,
            (
              (Fine-check_command host "NVIDIA driver" _ _).0 driver,
              ((Fine-check_command host "CUDA compiler" _ _).0 compiler, tt),
            ),
          );
          files = (
            (Fine-check_file host "llama-server" _ _).0 server,
            (
              (Fine-check_file host "llama API key" _ _).0 key,
              (
                (Fine-check_file host "Open WebUI secret" _ _).0 secret,
                (
                  (Fine-check_file host "SearXNG secret" _ _).0 searx,
                  ((Fine-check_file host "Resource administrator token" _ _).0 admin, files),
                ),
              ),
            ),
          );
          managed = managed;
          devices = devices;
          services = services;
        },
    λ r. (healthy_iff (run host cfg)).1 (
      (Fine-check_operating_system host).1 r.fedora,
      (
        (Fine-check_command host "Podman" _ _).1 r.commands.0,
        (
          (Fine-check_command host "NVIDIA driver" _ _).1 r.commands.1.0,
          (
            (Fine-check_command host "CUDA compiler" _ _).1 r.commands.1.1.0,
            (
              (Fine-check_file host "llama-server" _ _).1 r.files.0,
              (
                (Fine-check_file host "llama API key" _ _).1 r.files.1.0,
                (
                  (Fine-check_file host "Open WebUI secret" _ _).1 r.files.1.1.0,
                  (
                    (Fine-check_file host "SearXNG secret" _ _).1 r.files.1.1.1.0,
                    (
                      (Fine-check_file host "Resource administrator token" _ _).1 r.files.1.1.1.1.0,
                      (Fine-rest cfg).1 (r.files.1.1.1.1.1, r.managed, r.devices, r.services),
                    ),
                  ),
                ),
              ),
            ),
          ),
        ),
      ),
    ),
  )
