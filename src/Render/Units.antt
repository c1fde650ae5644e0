-- ===== src/Render/Units.antt =====
-- The systemd units of internal/render/render.go, as texts.
use Prim.Native.String.{◌++◌}
use mathlib.Core.List as L
use llama_stack.Base.{Bool, List, [], ◌∷◌, String, if◌then◌else◌}
use llama_stack.Base.Split.{join_with}
use llama_stack.Base.FilePath.{dir}
use llama_stack.Config.{Config}

-- Lines, each with its end.
abbrev pub lines : List String → String
lines [] = ""
lines (s ∷ rest) = s ++ "\n" ++ lines rest

abbrev pub only_if {ℓ} : {A : Type ℓ} → Bool → A → List A
only_if enabled a = if enabled then a ∷ [] else []

-- The slice `units` of `targetUnit`, by what is enabled.
abbrev pub units_of : Bool → Bool → Bool → Bool → List String
units_of tools webui search downloads =
    "llama-server.service"
    ∷ "llama-stackd.service"
    ∷ L.◌++◌ (only_if tools "llama-agent-tools.service") (
        L.◌++◌ (only_if webui "llama-open-webui.service") (
          L.◌++◌ (only_if search "llama-searxng.service")
            (only_if downloads "llama-downloads.service")))

abbrev pub target_units : Config → List String
target_units cfg =
    units_of cfg.agent_tools.enabled cfg.open_webui.service.enabled cfg.searxng.service.enabled
      cfg.downloads.service.enabled

abbrev search_dependencies : Config → String
search_dependencies cfg =
    if cfg.searxng.service.enabled
    then "After=llama-searxng.service\nWants=llama-searxng.service\n"
    else ""

unfoldable pub target_unit : Config → String
unfolding join_with
target_unit cfg = lines (
    "[Unit]"
    ∷ "Description=Local AI service stack"
    ∷ ("Wants=" ++ join_with " " (target_units cfg))
    ∷ "After=network-online.target"
    ∷ ""
    ∷ "[Install]"
    ∷ "WantedBy=multi-user.target"
    ∷ [])

unfoldable pub agent_tools_unit : Config → String
agent_tools_unit cfg = lines (
    "[Unit]"
    ∷ "Description=Authenticated OpenAPI tools for llama-stack"
    ∷ "After=network-online.target"
    ∷ "Wants=network-online.target"
    ∷ (search_dependencies cfg)
    ∷ "[Service]"
    ∷ "Type=simple"
    ∷ ("User=" ++ cfg.stack.user)
    ∷ ("Group=" ++ cfg.stack.group)
    ∷ "Environment=LLAMA_STACK_CONFIG=/etc/llama-stack/config.toml"
    ∷ ("Environment=HOME=" ++ cfg.paths.state)
    ∷ "Environment=XDG_RUNTIME_DIR=/run/llama-stack"
    ∷ "RuntimeDirectory=llama-stack"
    ∷ "RuntimeDirectoryMode=0700"
    ∷ "Delegate=yes"
    ∷ "ExecStart=/usr/local/libexec/llama-stack/llama-stack-agent-tools"
    ∷ "Restart=on-failure"
    ∷ "RestartSec=5"
    ∷ "TimeoutStopSec=30"
    ∷ "PrivateTmp=true"
    ∷ "ProtectHome=true"
    ∷ "ProtectSystem=strict"
    ∷ ("ReadWritePaths=" ++ cfg.paths.state ++ " " ++ cfg.paths.cache ++ " /run/llama-stack")
    ∷ ""
    ∷ "[Install]"
    ∷ "WantedBy=llama-stack.target"
    ∷ [])

unfoldable pub llama_unit : Config → String
llama_unit cfg = lines (
    "[Unit]"
    ∷ "Description=llama.cpp inference server"
    ∷ "After=network-online.target"
    ∷ "Wants=network-online.target"
    ∷ (search_dependencies cfg)
    ∷ ""
    ∷ "[Service]"
    ∷ "Type=simple"
    ∷ ("User=" ++ cfg.stack.user)
    ∷ ("Group=" ++ cfg.stack.group)
    ∷ "Environment=LLAMA_STACK_CONFIG=/etc/llama-stack/config.toml"
    ∷ ("Environment=HOME=" ++ cfg.paths.state)
    ∷ "Environment=XDG_RUNTIME_DIR=/run/llama-stack"
    ∷ "RuntimeDirectory=llama-stack"
    ∷ "RuntimeDirectoryMode=0700"
    ∷ "Delegate=yes"
    ∷ "ExecStart=/usr/local/bin/llama-stack internal run-llama-server"
    ∷ "Restart=on-failure"
    ∷ "RestartSec=5"
    ∷ "TimeoutStopSec=45"
    ∷ "PrivateTmp=true"
    ∷ "ProtectHome=true"
    ∷ "ProtectSystem=strict"
    ∷ ("ReadWritePaths=" ++ cfg.paths.state ++ " " ++ cfg.paths.cache)
    ∷ ""
    ∷ "[Install]"
    ∷ "WantedBy=llama-stack.target"
    ∷ [])

unfoldable pub stackd_unit : Config → String
unfolding dir
stackd_unit cfg = lines (
    "[Unit]"
    ∷ "Description=llama-stack orchestration API"
    ∷ "After=network-online.target"
    ∷ "Wants=network-online.target"
    ∷ ""
    ∷ "[Service]"
    ∷ "Type=simple"
    ∷ ("User=" ++ cfg.stack.user)
    ∷ ("Group=" ++ cfg.stack.group)
    ∷ "Environment=LLAMA_STACK_CONFIG=/etc/llama-stack/config.toml"
    ∷ "ExecStart=/usr/local/libexec/llama-stack/llama-stackd"
    ∷ "Restart=on-failure"
    ∷ "RestartSec=5"
    ∷ "NoNewPrivileges=true"
    ∷ "PrivateTmp=true"
    ∷ "ProtectHome=true"
    ∷ "ProtectSystem=strict"
    ∷ ("ReadWritePaths="
        ++ cfg.paths.state
        ++ " "
        ++ cfg.paths.cache
        ++ " "
        ++ dir cfg.ports.database
        ++ " "
        ++ dir cfg.jobs.database)
    ∷ ""
    ∷ "[Install]"
    ∷ "WantedBy=llama-stack.target"
    ∷ [])
