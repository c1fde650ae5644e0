-- ===== src/Command/Run.antt =====
-- The dispatch of cmd/llama-stack/main.go and its subcommands.
use llama_stack.Base.{
  not, none, some, List, [], ◌∷◌, String, Result, ok, err, Failure, message, if◌then◌else◌, str_eq,
}
use llama_stack.Base.Actions.{◌>>=◌, ◌>>◌, done, fail, lift}
use llama_stack.Config.{Config}
use llama_stack.Doctor as Doctor
use llama_stack.Doctor.{Host}
use llama_stack.Render.Json.{Printer}
use llama_stack.Render.Writing.{write_all}
use llama_stack.ResourceApi.Client.{Request, Reply}
use llama_stack.System.{System, Io, start}
use llama_stack.Command.Options.{
  World, CommandOptions, DoctorOptions, InstallOptions, RenderOptions, ModelOptions, admitted,
  resolve_config_path,
}
use llama_stack.Command.State.{
  initialize_state, build_toolbox_image, pull_service_images, set_generated_ownership, pull_images,
  enabled_service_images,
}
use llama_stack.Command.Models.{add_local_model, list_models}
use llama_stack.Command.Resources.{run_resource}

-- What the parser makes of the arguments: an error, a request for help, or the options.
pub data Parsed : Type 0 where
  malformed : Failure → Parsed
  help : Parsed
  parsed : CommandOptions → Parsed

-- What the subcommands ask of the programs and libraries around them, besides `World`: the host as
-- doctor sees it, the printer of JSON and `%q`, the network, the working directory, the names in
-- the directory of the models, and the start of the server.
pub record Tools : Type 0 where
  pub observe : System → Host
  pub printer : Printer
  pub quote : String → String
  pub send : Request → Io Reply
  pub cwd : String
  pub read_dir : String → Result (List String)
  pub run_llama_server : Io (Unit {0})

module _ (world : World) (tools : Tools) where
  -- `runDoctor`, which only looks.
  unfoldable pub run_doctor : DoctorOptions → Io (Unit {0})
  unfolding Doctor.run Doctor.healthy ◌>>=◌
  run_doctor options = do
    cfg ← lift (world.load options.config)
    λ s.
        if not (Doctor.healthy (Doctor.run (tools.observe s) cfg))
        then (err (message "one or more required checks failed"), s)
        else (ok tt, s)

  -- The part of `runInstall` behind the privilege check.
  abbrev pub install_steps : Config → InstallOptions → Io (Unit {0})
  install_steps cfg options = do
    initialize_state world cfg
    build_toolbox_image world cfg
    pull_service_images cfg
    write_all world.pick tools.printer tools.quote cfg ""
    set_generated_ownership world cfg
    start "systemctl" ("daemon-reload" ∷ [])
    if options.no_start
        then done tt
        else start "systemctl" ("enable" ∷ "--now" ∷ "llama-stack.target" ∷ [])

  unfoldable pub run_install : InstallOptions → Io (Unit {0})
  unfolding initialize_state build_toolbox_image pull_images enabled_service_images write_all
      set_generated_ownership start ◌>>=◌
  run_install options = do
    cfg ← lift (world.load options.config)
    lift (admitted world cfg)
    install_steps cfg options

  abbrev pub render_steps : Config → RenderOptions → Io (Unit {0})
  render_steps cfg options = do
    write_all world.pick tools.printer tools.quote cfg options.root
    if str_eq options.root "" then set_generated_ownership world cfg else done tt
    if str_eq options.root "" then start "systemctl" ("daemon-reload" ∷ []) else done tt

  unfoldable pub run_render : RenderOptions → Io (Unit {0})
  unfolding write_all set_generated_ownership start ◌>>=◌
  run_render options = do
    cfg ← lift (world.load options.config)
    lift (admitted world cfg)
    render_steps cfg options

  abbrev pub model_command : Config → ModelOptions → Io (Unit {0})
  model_command cfg options = elim options.add [
    | some o ↦ lift (admitted world cfg) >> add_local_model world cfg tools.cwd o.source
    | none ↦
        (if options.list
          then (lift (list_models (tools.read_dir cfg.paths.models)) >>= λ names. done tt)
          else fail (message "model requires add or list"))
  ]

  unfoldable pub run_model : ModelOptions → Io (Unit {0})
  unfolding add_local_model list_models ◌>>=◌
  run_model options = do cfg ← lift (world.load world.config_path); model_command cfg options

  abbrev run_internal : CommandOptions → Io (Unit {0})
  run_internal options =
      if options.run_llama_server
      then tools.run_llama_server
      else fail (message "a command is required")

  -- The `switch` of `run`, whose first case that applies counts.
  abbrev pub dispatch : CommandOptions → Io (Unit {0})
  dispatch options = elim options.doctor [
    | some o ↦ run_doctor (record o { config = resolve_config_path world o.config })
    | none ↦ elim options.install [
      | some o ↦ run_install (record o { config = resolve_config_path world o.config })
      | none ↦ elim options.render [
        | some o ↦ run_render (record o { config = resolve_config_path world o.config })
        | none ↦ elim options.model [
          | some o ↦ run_model o
          | none ↦ elim options.resource [
            | some o ↦ run_resource tools.send world o >>= λ printed. done tt
            | none ↦ if options.version then done tt else run_internal options
          ]
        ]
      ]
    ]
  ]

  -- `run`, on what the parser answers.
  unfoldable pub run : Parsed → Io (Unit {0})
  unfolding run_doctor run_install run_render run_model run_resource ◌>>=◌
  run (malformed e) = fail e
  run help = done tt
  run (parsed options) = dispatch options
