-- ===== src/Render/Quadlets.antt =====
-- The Quadlet files and the NGINX configuration of internal/render/render.go, as texts.
use Prim.Native.String.{◌++◌}
use llama_stack.Base.{[], ◌∷◌, String, if◌then◌else◌}
use llama_stack.Base.Text.{itoa}
use llama_stack.Config.{Config}
use llama_stack.Render.Units.{lines}

abbrev tool_dependencies : Config → String
tool_dependencies cfg =
    if cfg.agent_tools.enabled
    then "After=llama-agent-tools.service\nRequires=llama-agent-tools.service\n"
    else ""

abbrev autoindex : Config → String
autoindex cfg = if cfg.downloads.directory_listing then "on" else "off"

unfoldable pub network_quadlet : String
network_quadlet = lines (
    "[Unit]" ∷ "Description=llama-stack internal container network" ∷ "" ∷ "[Network]"
    ∷ "NetworkName=llama-stack" ∷ [])

unfoldable pub open_webui_quadlet : Config → String
unfolding itoa
open_webui_quadlet cfg = lines (
    "[Unit]"
    ∷ "Description=Open WebUI for llama-stack"
    ∷ "After=llama-server.service"
    ∷ "Requires=llama-server.service"
    ∷ (tool_dependencies cfg)
    ∷ ""
    ∷ "[Container]"
    ∷ ("Image=" ++ cfg.open_webui.service.image)
    ∷ "ContainerName=llama-open-webui"
    ∷ "Network=llama-stack.network"
    ∷ ("PublishPort="
        ++ cfg.open_webui.service.host
        ++ ":"
        ++ itoa cfg.open_webui.service.port
        ++ ":8080")
    ∷ "AddHost=host.containers.internal:host-gateway"
    ∷ ("Volume=" ++ cfg.paths.state ++ "/open-webui:/app/backend/data:Z")
    ∷ "EnvironmentFile=/etc/llama-stack/generated/open-webui.env"
    ∷ ""
    ∷ "[Service]"
    ∷ "Restart=on-failure"
    ∷ "TimeoutStartSec=15min"
    ∷ ""
    ∷ "[Install]"
    ∷ "WantedBy=llama-stack.target"
    ∷ [])

unfoldable pub searxng_quadlet : Config → String
unfolding itoa
searxng_quadlet cfg = lines (
    "[Unit]"
    ∷ "Description=SearXNG for llama-stack"
    ∷ ""
    ∷ "[Container]"
    ∷ ("Image=" ++ cfg.searxng.service.image)
    ∷ "ContainerName=llama-searxng"
    ∷ "Network=llama-stack.network"
    ∷ ("PublishPort="
        ++ cfg.searxng.service.host
        ++ ":"
        ++ itoa cfg.searxng.service.port
        ++ ":8080")
    ∷ ("Volume=" ++ cfg.paths.state
        ++ "/generated/searxng-settings.yml:/etc/searxng/settings.yml:ro,Z")
    ∷ ""
    ∷ "[Service]"
    ∷ "Restart=on-failure"
    ∷ ""
    ∷ "[Install]"
    ∷ "WantedBy=llama-stack.target"
    ∷ [])

unfoldable pub downloads_quadlet : Config → String
unfolding itoa
downloads_quadlet cfg = lines (
    "[Unit]"
    ∷ "Description=Read-only artifact downloads for llama-stack"
    ∷ ""
    ∷ "[Container]"
    ∷ ("Image=" ++ cfg.downloads.service.image)
    ∷ "ContainerName=llama-downloads"
    ∷ "Network=llama-stack.network"
    ∷ ("PublishPort="
        ++ cfg.downloads.service.host
        ++ ":"
        ++ itoa cfg.downloads.service.port
        ++ ":8080")
    ∷ ("Volume=" ++ cfg.paths.artifacts ++ ":/srv:ro,z")
    ∷ ("Volume=" ++ cfg.paths.state
        ++ "/generated/downloads-nginx.conf:/etc/nginx/conf.d/default.conf:ro,Z")
    ∷ ""
    ∷ "[Service]"
    ∷ "Restart=on-failure"
    ∷ ""
    ∷ "[Install]"
    ∷ "WantedBy=llama-stack.target"
    ∷ [])

unfoldable pub downloads_nginx : Config → String
downloads_nginx cfg = lines (
    "server {"
    ∷ "    listen 8080;"
    ∷ "    server_name _;"
    ∷ ""
    ∷ "    root /srv;"
    ∷ ("    autoindex " ++ autoindex cfg ++ ";")
    ∷ "    disable_symlinks on;"
    ∷ ""
    ∷ "    location ~ (^|/)\\. {"
    ∷ "        deny all;"
    ∷ "    }"
    ∷ ""
    ∷ "    location / {"
    ∷ "        try_files $uri =404;"
    ∷ "        limit_except GET HEAD {"
    ∷ "            deny all;"
    ∷ "        }"
    ∷ "    }"
    ∷ "}"
    ∷ [])
