-- ===== src/Command/State.antt =====
-- The persistent state that `install` of cmd/llama-stack/main.go sets up.
use Prim.Native.String.{◌++◌}
use mathlib.Core.List as L
use llama_stack.Base.{
  not, ◌&&◌, Option, none, some, List, [], ◌∷◌, String, Result, ok, err, not_exist, message,
  wrapped, if◌then◌else◌, str_eq, any,
}
use llama_stack.Base.Actions.{◌>>=◌, ◌>>◌, done, lift}
use llama_stack.Base.Int.{ℤ}
use llama_stack.Base.Text.{hex_encode}
use llama_stack.Base.Split.{atoi}
use llama_stack.Base.FilePath.{join, dir}
use llama_stack.Config.{Config, Service}
use llama_stack.System.{Node, System, Io, stat, chown, chmod, mkdir_all, open_file, write, start}
use llama_stack.Command.Options.{World}

abbrev pub toolbox_runtime_path : String
toolbox_runtime_path = "/run/llama-stack"

abbrev toolbox_build_context : String
toolbox_build_context = "/usr/share/llama-stack/toolbox"

abbrev pub rootless_podman_configuration : String
rootless_podman_configuration =
    "[engine]\ncgroup_manager = \"cgroupfs\"\nevents_logger = \"file\"\n"

abbrev identity_of : Option ℤ → Option ℤ → Result (ℤ × ℤ)
identity_of none gid = err (message "strconv.Atoi: parsing the user's identifier failed")
identity_of (some uid) none = err (message "strconv.Atoi: parsing the group's identifier failed")
identity_of (some uid) (some gid) = ok (uid, gid)

-- `serviceIdentity`.
unfoldable pub service_identity : World → String → Result (ℤ × ℤ)
unfolding atoi
service_identity world username = elim (world.directory.lookup username) [
  | err e ↦ err (wrapped ("service account " ++ username ++ " is missing") e)
  | ok account ↦ identity_of (atoi account.uid) (atoi account.gid)
]

-- `os.WriteFile`.
abbrev pub write_file : String → String → Prim.Native.Nat.ℕ → Io (Unit {0})
write_file path content mode = open_file path mode >> write path content

-- The variables `directory` and `path` of `configureRootlessPodman`.
abbrev pub podman_directory : Config → String
podman_directory cfg = join (cfg.paths.state ∷ ".config" ∷ "containers" ∷ [])

abbrev pub podman_path : Config → String
podman_path cfg = join (podman_directory cfg ∷ "containers.conf" ∷ [])

module _ (world : World) where
  -- The creation of a secret, where none is there.
  abbrev pub create_secret : String → String → ℤ → ℤ → Io (Unit {0})
  create_secret path prefix uid gid = do
    value ← lift (world.entropy path)
    write_file path (prefix ++ hex_encode value ++ "\n") 0x1a0
    chown path uid gid

  -- `ensureSecret`, by what `os.Stat` finds.
  abbrev pub found_secret :
      String → String → ℤ → ℤ → Result Node × System → Result (Unit {0}) × System
  found_secret path prefix uid gid (ok node, s) = (ok tt, s)
  found_secret path prefix uid gid (err not_exist, s) = create_secret path prefix uid gid s
  found_secret path prefix uid gid (err e, s) = (err e, s)

  unfoldable pub ensure_secret : String → String → ℤ → ℤ → Io (Unit {0})
  unfolding stat open_file write chown hex_encode ◌>>=◌
  ensure_secret path prefix uid gid s = found_secret path prefix uid gid (stat path s)

  -- The loop over the directories of `initializeState`.
  unfoldable pub own_directories : List String → ℤ → ℤ → Io (Unit {0})
  unfolding mkdir_all chown ◌>>=◌
  own_directories [] uid gid = done tt
  own_directories (path ∷ paths) uid gid = do
    mkdir_all path 0x1e8
    chown path uid gid
    own_directories paths uid gid

  abbrev pub state_directories : Config → List String
  state_directories cfg =
      L.◌++◌
        (cfg.paths.state
          ∷ cfg.paths.cache
          ∷ cfg.paths.models
          ∷ cfg.paths.users
          ∷ cfg.paths.artifacts
          ∷ join (cfg.paths.state ∷ "open-webui" ∷ [])
          ∷ dir cfg.llama.api_key_file
          ∷ dir cfg.open_webui.secret_file
          ∷ dir cfg.searxng.secret_file
          ∷ dir cfg.ports.admin_token_file
          ∷ dir cfg.ports.database
          ∷ dir cfg.jobs.database
          ∷ [])
        (if cfg.agent_tools.enabled then dir cfg.agent_tools.api_key_file ∷ [] else [])

  unfoldable pub configure_rootless_podman : Config → ℤ → ℤ → Io (Unit {0})
  unfolding mkdir_all chown open_file write join ◌>>=◌
  configure_rootless_podman cfg uid gid = do
    mkdir_all (podman_directory cfg) 0x1e8
    chown (join (cfg.paths.state ∷ ".config" ∷ [])) uid gid
    chown (podman_directory cfg) uid gid
    write_file (podman_path cfg) rootless_podman_configuration 0x1a0
    chown (podman_path cfg) uid gid

  -- The secrets with their prefixes, in the order in which they are ensured.
  abbrev pub secrets : Config → List (String × String)
  secrets cfg =
      L.◌++◌
        ((cfg.llama.api_key_file, "sk-")
          ∷ (cfg.open_webui.secret_file, "")
          ∷ (cfg.searxng.secret_file, "")
          ∷ (cfg.ports.admin_token_file, "lsadmin_")
          ∷ [])
        (if cfg.agent_tools.enabled then (cfg.agent_tools.api_key_file, "lstool_") ∷ [] else [])

  unfoldable pub ensure_secrets : List (String × String) → ℤ → ℤ → Io (Unit {0})
  unfolding ensure_secret ◌>>=◌
  ensure_secrets [] uid gid = done tt
  ensure_secrets ((path, prefix) ∷ rest) uid gid = do
    ensure_secret path prefix uid gid
    ensure_secrets rest uid gid

  unfoldable pub initialize_state : Config → Io (Unit {0})
  unfolding service_identity own_directories configure_rootless_podman ensure_secrets ◌>>=◌ join dir
  initialize_state cfg = do
    (uid, gid) ← lift (service_identity world cfg.stack.user)
    own_directories (state_directories cfg) uid gid
    configure_rootless_podman cfg uid gid
    ensure_secrets (secrets cfg) uid gid

  abbrev pub build_arguments : Config → List String
  build_arguments cfg =
      "--user"
      ∷ cfg.stack.user
      ∷ "--"
      ∷ "env"
      ∷ ("HOME=" ++ cfg.paths.state)
      ∷ ("XDG_RUNTIME_DIR=" ++ toolbox_runtime_path)
      ∷ "podman"
      ∷ "--cgroup-manager=cgroupfs"
      ∷ "build"
      ∷ "--tag"
      ∷ cfg.toolbox.image
      ∷ toolbox_build_context
      ∷ []

  abbrev pub build_enabled : Config → Io (Unit {0})
  build_enabled cfg = do
    (uid, gid) ← lift (service_identity world cfg.stack.user)
    mkdir_all toolbox_runtime_path 0x1c0
    chmod toolbox_runtime_path 0x1c0
    chown toolbox_runtime_path uid gid
    start "runuser" (build_arguments cfg)

  unfoldable pub build_toolbox_image : Config → Io (Unit {0})
  unfolding service_identity mkdir_all chmod chown start ◌>>=◌
  build_toolbox_image cfg = if not cfg.toolbox.enabled then done tt else build_enabled cfg

  abbrev pub generated_files : Config → List String
  generated_files cfg =
      "/etc/llama-stack/generated/open-webui.env"
      ∷ cfg.llama.mcp_servers_file
      ∷ join (cfg.paths.state ∷ "generated" ∷ [])
      ∷ join (cfg.paths.state ∷ "generated" ∷ "searxng-settings.yml" ∷ [])
      ∷ join (cfg.paths.state ∷ "generated" ∷ "downloads-nginx.conf" ∷ [])
      ∷ []

  -- The loop of `setGeneratedOwnership`.
  unfoldable pub chown_all : List String → ℤ → ℤ → Io (Unit {0})
  unfolding chown ◌>>=◌
  chown_all [] uid gid = done tt
  chown_all (path ∷ paths) uid gid = do chown path uid gid; chown_all paths uid gid

  unfoldable pub set_generated_ownership : Config → Io (Unit {0})
  unfolding service_identity chown_all join ◌>>=◌
  set_generated_ownership cfg = do
    (uid, gid) ← lift (service_identity world cfg.stack.user)
    chown_all (generated_files cfg) uid gid

-- The loop of `enabledServiceImages`, with the images seen so far.
unfoldable pub images_loop : List String → List Service → List String
images_loop seen [] = []
images_loop seen (service ∷ services) =
    let later = images_loop (service.image ∷ seen) services in
    let rest = images_loop seen services in
    if service.enabled && not (any (λ i. str_eq i service.image) seen)
    then service.image ∷ later
    else rest

unfoldable pub enabled_service_images : Config → List String
unfolding images_loop
enabled_service_images cfg =
    images_loop [] (cfg.open_webui.service ∷ cfg.searxng.service ∷ cfg.downloads.service ∷ [])

-- The loop of `pullServiceImages`.
unfoldable pub pull_images : List String → Io (Unit {0})
unfolding start ◌>>=◌
pull_images [] = done tt
pull_images (image ∷ images) = do start "podman" ("pull" ∷ image ∷ []); pull_images images

abbrev pub pull_service_images : Config → Io (Unit {0})
pull_service_images cfg = pull_images (enabled_service_images cfg)
