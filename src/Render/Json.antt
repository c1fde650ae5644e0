-- ===== src/Render/Json.antt =====
-- The JSON that internal/render/render.go builds. `encoding/json` prints it.
use llama_stack.Base.{Bool, String, Result, ok, err, if◌then◌else◌, ◌&&◌}
use llama_stack.Base.Int.{ℤ}
use llama_stack.Base.Text.{itoa, trim_space}
use llama_stack.Config.{Config}
use Prim.Native.String as S

mutual
  pub data Json : Type 0 where
    text : String → Json
    boolean : Bool → Json
    array : Items → Json
    object : Members → Json

  pub data Items : Type 0 where
    no_items : Items
    item : Json → Items → Items

  pub data Members : Type 0 where
    no_members : Members
    member : String → Json → Members → Members

abbrev one : String → Json → Json
one key value = object (member key value no_members)

-- `encoding/json`: `Marshal` and `MarshalIndent` with two spaces.
pub record Printer : Type 0 where
  pub marshal : Json → Result String
  pub marshal_indent : Json → Result String

abbrev local_url : String → ℤ → String
local_url host port = S.◌++◌ "http://" (S.◌++◌ host (S.◌++◌ ":" (itoa port)))

-- `buildMCPConfiguration`.
unfoldable pub mcp_configuration : Config → Json
unfolding itoa
mcp_configuration cfg = one "mcpServers" (
    object (
      if cfg.searxng.service.enabled
      then member "search"
          (object (
            member "command" (text "/usr/local/libexec/llama-stack/llama-stack-search-mcp") (
              member "args" (array no_items) (
                member "env"
                  (one "SEARXNG_URL" (text (local_url "127.0.0.1" cfg.searxng.service.port)))
                  no_members))))
          no_members
      else no_members))

-- The connection to the tool service in `writeOpenWebUIEnvironment`.
unfoldable pub tool_connections : Config → String → Json
unfolding itoa trim_space
tool_connections cfg tool_key = array (
    item
      (object (
        member "url" (text (local_url "host.containers.internal" cfg.agent_tools.port)) (
          member "path" (text "/openapi.json") (
            member "type" (text "openapi") (
              member "auth_type" (text "bearer") (
                member "key" (text (trim_space tool_key)) (
                  member "config" (one "enable" (boolean Bool.true)) (
                    member "info"
                      (object (
                        member "id" (text "llama-stack-tools") (
                          member "name" (text "llama-stack tools") (
                            member "description"
                              (text "Isolated command execution and read-only web search")
                              no_members))))
                      no_members))))))))
      no_items)

-- A printed value, or nothing where the error is dropped.
abbrev printed : Result String → String
printed (err e) = ""
printed (ok s) = s

-- `openWebUIDefaultMetadata`.
unfoldable pub default_metadata : Printer → Config → String
default_metadata printer cfg = printed (
    printer.marshal (
      object (
        member "capabilities" (one "builtin_tools" (boolean cfg.open_webui.builtin_tools)) (
          if cfg.open_webui.auto_select_tools && cfg.agent_tools.enabled
          then member "toolIds" (array (item (text "direct_server:0") no_items)) no_members
          else no_members))))

-- `openWebUIDefaultParameters`.
unfoldable pub default_parameters : Printer → Config → String
default_parameters printer cfg =
    printed (printer.marshal (one "function_calling" (text cfg.open_webui.function_calling)))
