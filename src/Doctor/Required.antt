-- ===== src/Doctor/Required.antt =====
-- What a configuration requires of a host that runs the stack.
use Prim.Native.Nat.{bit_and}
use llama_stack.Base.{
  ℕ, ◌≡◌, Bool, true, false, none, List, [], ◌∷◌, String, Result, ok, err, All, if◌then◌else◌, ◌==◌,
  ◌++◌, is_ok,
}
use llama_stack.Base.Text.{trim_space}
use llama_stack.Base.Split.{contains_text}
use llama_stack.Config.{Config}
use llama_stack.Doctor.{Host, Info, field, directories, search_server, tool_server}

abbrev pub search_files : Config → List (String × ℕ)
search_files cfg =
    if cfg.searxng.service.enabled
    then (search_server, 0x49) ∷ (cfg.llama.mcp_servers_file, 0x100) ∷ []
    else []

abbrev pub tool_files : Config → List (String × ℕ)
tool_files cfg =
    if cfg.agent_tools.enabled
    then (tool_server, 0x49) ∷ (cfg.agent_tools.api_key_file, 0x100) ∷ []
    else []

-- The files that a configuration asks for, with the permission bits of which one is required.
abbrev pub required_files : Config → List (String × ℕ)
required_files cfg =
    (cfg.llama.binary, 0x49)
    ∷ (cfg.llama.api_key_file, 0x100)
    ∷ (cfg.open_webui.secret_file, 0x100)
    ∷ (cfg.searxng.secret_file, 0x100)
    ∷ (cfg.ports.admin_token_file, 0x100)
    ∷ (search_files cfg ++ tool_files cfg)

abbrev pub unit_if : Bool → String → List String
unit_if enabled unit = if enabled then unit ∷ [] else []

-- The systemd units that have to run.
abbrev pub required_units : Config → List String
required_units cfg =
    "llama-server.service"
    ∷ "llama-stackd.service"
    ∷ (unit_if cfg.agent_tools.enabled "llama-agent-tools.service"
        ++ (unit_if cfg.open_webui.service.enabled "llama-open-webui.service"
            ++ (unit_if cfg.searxng.service.enabled "llama-searxng.service"
                ++ unit_if cfg.downloads.service.enabled "llama-downloads.service")))

abbrev pub required_commands : List (String × List String)
required_commands =
    ("podman", "--version" ∷ [])
    ∷ ("nvidia-smi", "--query-gpu=name,driver_version,memory.total" ∷ "--format=csv,noheader" ∷ [])
    ∷ ("nvcc", "--version" ∷ [])
    ∷ []

module _ (host : Host) where
  abbrev pub Runs : String → List String → Type 0
  Runs command args = (host.execute command args).failure ≡ none

  -- `/etc/os-release` can be read and names Fedora.
  abbrev pub NamesFedora : Result String → Type 0
  NamesFedora (err e) = ⊥
  NamesFedora (ok contents) = field "ID" contents ≡ "fedora"

  abbrev pub IsFedora : Type 0
  IsFedora = NamesFedora (host.read_file "/etc/os-release")

  -- The file is hidden from who asks, or it is no directory and has one of the bits.
  abbrev pub Usable : ℕ → Result Info → Type 0
  Usable required (err e) = host.is_permission e ≡ true
  Usable required (ok info) = (info.is_dir ≡ false) × (bit_and info.perm required == 0 ≡ false)

  abbrev pub IsUsable : String → ℕ → Type 0
  IsUsable path required = Usable required (host.stat path)

  abbrev pub Directory : Result Info → Type 0
  Directory (err e) = ⊥
  Directory (ok info) = info.is_dir ≡ true

  abbrev pub IsDirectory : String → Type 0
  IsDirectory path = Directory (host.stat path)

  abbrev pub HasDevices : String → Type 0
  HasDevices binary =
      (is_ok (host.stat binary) ≡ true)
      × Runs binary ("--list-devices" ∷ [])
      × (contains_text (trim_space (host.execute binary ("--list-devices" ∷ [])).output) "CUDA"
          ≡ true)

  abbrev pub IsActive : String → Type 0
  IsActive unit = Runs "systemctl" ("is-active" ∷ "--quiet" ∷ unit ∷ [])

  -- A host on which the stack of a configuration is installed and running.
  pub record IsReady (cfg : Config) : Type 0 where
    pub fedora : IsFedora
    pub commands : All (λ c. Runs c.0 c.1) required_commands
    pub files : All (λ f. IsUsable f.0 f.1) (required_files cfg)
    pub managed : All IsDirectory (directories host cfg)
    pub devices : HasDevices cfg.llama.binary
    pub services : All IsActive (required_units cfg)
