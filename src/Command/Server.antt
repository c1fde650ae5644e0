-- ===== src/Command/Server.antt =====
-- The start of the model server in cmd/llama-stack/main.go.
use Prim.Native.String.{◌++◌}
use mathlib.Core.List as L
use llama_stack.Base.{Bool, not, List, [], ◌∷◌, String, Result, if◌then◌else◌, str_eq}
use llama_stack.Base.Actions.{◌>>=◌, lift}
use llama_stack.Base.Text.{itoa}
use llama_stack.Config.{Config}
use llama_stack.ModelProfile.{Profile}
use llama_stack.ModelProfile.Rendering.{Entry, render}
use llama_stack.System.{Io, start, context}
use llama_stack.Command.Options.{World}

-- `llamaServerArgs`.
unfoldable pub llama_server_args : Config → List String
unfolding itoa
llama_server_args cfg =
    L.◌++◌
      (cfg.llama.binary
        ∷ "--host"
        ∷ cfg.llama.host
        ∷ "--port"
        ∷ itoa cfg.llama.port
        ∷ "--models-dir"
        ∷ cfg.paths.models
        ∷ "--models-preset"
        ∷ cfg.llama.models_preset_file
        ∷ "--models-max"
        ∷ itoa cfg.llama.models_max
        ∷ "--ctx-size"
        ∷ itoa cfg.llama.context_size
        ∷ "--n-gpu-layers"
        ∷ cfg.llama.gpu_layers
        ∷ "--split-mode"
        ∷ cfg.llama.split_mode
        ∷ "--tensor-split"
        ∷ cfg.llama.tensor_split
        ∷ "--sleep-idle-seconds"
        ∷ itoa cfg.llama.idle_timeout
        ∷ "--api-key-file"
        ∷ cfg.llama.api_key_file
        ∷ [])
      (L.◌++◌ (if cfg.llama.jinja then "--jinja" ∷ [] else []) (
        L.◌++◌ (if not (str_eq cfg.llama.tools "") then "--tools" ∷ cfg.llama.tools ∷ [] else []) (
          L.◌++◌
            (if cfg.toolbox.enabled
              then "--tools-runtime" ∷ (cfg.toolbox.runtime ++ ":" ++ cfg.toolbox.image) ∷ []
              else [])
            (if cfg.searxng.service.enabled
              then "--mcp-servers-config" ∷ cfg.llama.mcp_servers_file ∷ []
              else []))))

-- `runLlamaServer`; the catalog and the entries of a directory are what the decoder of TOML and
-- `os.ReadDir` answer for a path. `syscall.Exec` ends the process where it succeeds.
unfoldable pub run_llama_server :
    World
    → (String → String → Result Bool)
    → (String → Result (List Profile))
    → (String → Result (List Entry))
    → Io (Unit {0})
unfolding render start llama_server_args ◌>>=◌
run_llama_server world matches catalog read_dir = do
  cfg ← lift (world.load world.config_path)
  profiles ← context "decode model profiles" (lift (catalog cfg.llama.model_profiles_file))
  matched ←
      render matches profiles world.pick (read_dir cfg.paths.models) cfg.llama.models_preset_file
  start cfg.llama.binary (llama_server_args cfg)
