-- ===== src/Render/Writing.antt =====
-- `Write` of internal/render/render.go and the files it writes. `pick` is the name that
-- `os.CreateTemp` finds, `quote` is `%q`.
use Prim.Native.String.{◌++◌}
use mathlib.Core.List as L
use llama_stack.Base.{
  ℕ, Bool, true, false, Option, none, some, List, [], ◌∷◌, String, if◌then◌else◌, str_eq,
}
use llama_stack.Base.Text.{trim_space, trim_prefix, itoa}
use llama_stack.Base.Split.{before, join_with, cut}
use llama_stack.Base.FilePath.{join, dir}
use llama_stack.Base.Actions.{◌>>=◌, ◌>>◌, done, lift}
use llama_stack.Config.{Config}
use llama_stack.System.{
  Files, Io, mkdir_all, create_temp, chmod, write, flush, rename, read_file, context,
}
use llama_stack.Render.Units.{lines, target_unit, llama_unit, stackd_unit, agent_tools_unit}
use llama_stack.Render.Quadlets.{
  network_quadlet, open_webui_quadlet, searxng_quadlet, downloads_quadlet, downloads_nginx,
}
use llama_stack.Render.Json.{
  Printer, mcp_configuration, tool_connections, default_metadata, default_parameters,
}

pub record Output : Type 0 where
  pub path : String
  pub mode : ℕ
  pub content : String

unfoldable pub rooted : String → String → String
unfolding join trim_prefix
rooted root path = if str_eq root "" then path else join (root ∷ trim_prefix path "/" ∷ [])

-- `firstLine`.
abbrev pub first_line : String → String
first_line value = before b'\n' (trim_space value)

-- The list `outputs` of `Write`; the octal modes 0644, 0640 and 0600 are 0x1a4, 0x1a0 and 0x180.
unfoldable pub outputs : Config → String → List Output
unfolding join target_unit llama_unit stackd_unit agent_tools_unit network_quadlet
    open_webui_quadlet searxng_quadlet downloads_quadlet downloads_nginx
outputs cfg mcp =
    record {
      path = "/etc/systemd/system/llama-stack.target";
      mode = 0x1a4;
      content = target_unit cfg;
    }
    ∷ record {
      path = "/etc/systemd/system/llama-server.service";
      mode = 0x1a4;
      content = llama_unit cfg;
    }
    ∷ record {
      path = "/etc/systemd/system/llama-stackd.service";
      mode = 0x1a4;
      content = stackd_unit cfg;
    }
    ∷ record {
      path = "/etc/systemd/system/llama-agent-tools.service";
      mode = 0x1a4;
      content = agent_tools_unit cfg;
    }
    ∷ record {
      path = "/etc/containers/systemd/llama-stack.network";
      mode = 0x1a4;
      content = network_quadlet;
    }
    ∷ record {
      path = "/etc/containers/systemd/llama-open-webui.container";
      mode = 0x1a4;
      content = open_webui_quadlet cfg;
    }
    ∷ record {
      path = "/etc/containers/systemd/llama-searxng.container";
      mode = 0x1a4;
      content = searxng_quadlet cfg;
    }
    ∷ record {
      path = "/etc/containers/systemd/llama-downloads.container";
      mode = 0x1a4;
      content = downloads_quadlet cfg;
    }
    ∷ record { path = cfg.llama.mcp_servers_file; mode = 0x1a0; content = mcp ++ "\n" }
    ∷ record {
      path = join (cfg.paths.state ∷ "generated" ∷ "downloads-nginx.conf" ∷ []);
      mode = 0x1a0;
      content = downloads_nginx cfg;
    }
    ∷ []

abbrev pub environment_path : String
environment_path = "/etc/llama-stack/generated/open-webui.env"

abbrev pub settings_path : Config → String
settings_path cfg = join (cfg.paths.state ∷ "generated" ∷ "searxng-settings.yml" ∷ [])

abbrev format_bool : Bool → String
format_bool true = "true"
format_bool false = "false"

-- The variables of `writeOpenWebUIEnvironment`, from the secret, the API key and, where the tools
-- are enabled, the printed connection to them.
unfoldable pub environment : Printer → Config → String → String → Option String → List String
unfolding trim_space cut itoa default_metadata default_parameters
environment printer cfg secret api_key connections =
    L.◌++◌
      (("WEBUI_SECRET_KEY=" ++ trim_space secret)
        ∷ "ENABLE_OLLAMA_API=false"
        ∷ "ENABLE_OPENAI_API=true"
        ∷ ("OPENAI_API_BASE_URL=http://host.containers.internal:" ++ itoa cfg.llama.port ++ "/v1")
        ∷ ("OPENAI_API_KEY=" ++ first_line api_key)
        ∷ ("DEFAULT_MODEL_METADATA=" ++ default_metadata printer cfg)
        ∷ ("DEFAULT_MODEL_PARAMS=" ++ default_parameters printer cfg)
        ∷ ("ENABLE_CONTEXT_COMPACTION=" ++ format_bool cfg.open_webui.context_compaction)
        ∷ ("CONTEXT_COMPACTION_TOKEN_THRESHOLD="
            ++ itoa cfg.open_webui.context_compaction_threshold)
        ∷ ("CONTEXT_COMPACTION_TOKEN_CAP=" ++ itoa cfg.open_webui.context_compaction_token_cap)
        ∷ ("CONTEXT_COMPACTION_RETENTION_PERCENTAGE="
            ++ itoa cfg.open_webui.context_compaction_retention)
        ∷ [])
      (L.◌++◌ (elim connections [ none ↦ [] | some c ↦ ("TOOL_SERVER_CONNECTIONS=" ++ c) ∷ [] ])
        (if cfg.searxng.service.enabled
          then "ENABLE_WEB_SEARCH=true" ∷ "WEB_SEARCH_ENGINE=searxng"
            ∷ "SEARXNG_QUERY_URL=http://llama-searxng:8080/search?q=<query>&format=json" ∷ []
          else []))

-- The file of `writeSearxngSettings`.
unfoldable pub settings : (String → String) → String → String
unfolding trim_space
settings quote secret = lines (
    "use_default_settings: true"
    ∷ "server:"
    ∷ "  bind_address: \"0.0.0.0\""
    ∷ "  port: 8080"
    ∷ ("  secret_key: " ++ quote (trim_space secret))
    ∷ "search:"
    ∷ "  safe_search: 0"
    ∷ "  formats:"
    ∷ "    - html"
    ∷ "    - json"
    ∷ [])

module _ (pick : Files → String → String → String) where
  -- What `writeAtomic` does with its temporary file.
  abbrev pub replace : String → Output → Io (Unit {0})
  replace temporary o = do
    chmod temporary o.mode
    write temporary o.content
    flush
    flush
    rename temporary o.path

  -- `writeAtomic`.
  unfoldable pub write_atomic : Output → Io (Unit {0})
  unfolding dir mkdir_all create_temp chmod write flush rename
  write_atomic o = do
    context ("create " ++ dir o.path) (mkdir_all (dir o.path) 0x1ed)
    temporary ←
        context ("create temporary file for " ++ o.path)
          (create_temp pick (dir o.path) ".llama-stack-*")
    context ("write " ++ o.path) (replace temporary o)

  -- The loop of `Write`.
  unfoldable pub write_outputs : String → List Output → Io (Unit {0})
  unfolding rooted
  write_outputs root [] = done tt
  write_outputs root (o ∷ rest) = do
    write_atomic (record o { path = rooted root o.path })
    write_outputs root rest

  module _ (printer : Printer) (quote : String → String) (cfg : Config) (root : String) where
    -- The key of the tools, read and put into the connection to them.
    abbrev pub connect : Io (Option String)
    connect = do
      tool_key ←
          context "read agent tools API key" (read_file (rooted root cfg.agent_tools.api_key_file))
      connections ← lift (printer.marshal (tool_connections cfg tool_key))
      done (some connections)

    abbrev pub read_connections : Io (Option String)
    read_connections = if cfg.agent_tools.enabled then connect else done none

    unfoldable pub write_open_webui_environment : Io (Unit {0})
    unfolding read_file environment rooted join_with
    write_open_webui_environment = do
      secret ← context "read Open WebUI secret" (read_file (rooted root cfg.open_webui.secret_file))
      api_key ← context "read llama API key" (read_file (rooted root cfg.llama.api_key_file))
      connections ← read_connections
      write_atomic (record {
        path = rooted root environment_path;
        mode = 0x180;
        content = join_with "\n" (environment printer cfg secret api_key connections) ++ "\n";
      })

    unfoldable pub write_searxng_settings : Io (Unit {0})
    unfolding read_file settings rooted
    write_searxng_settings = do
      secret ← context "read SearXNG secret" (read_file (rooted root cfg.searxng.secret_file))
      write_atomic (record {
        path = rooted root (settings_path cfg);
        mode = 0x1a0;
        content = settings quote secret;
      })

    -- `Write`.
    unfoldable pub write_all : Io (Unit {0})
    unfolding mcp_configuration outputs
    write_all = do
      mcp ← lift (printer.marshal_indent (mcp_configuration cfg))
      write_outputs root (outputs cfg mcp)
      write_open_webui_environment
      write_searxng_settings
