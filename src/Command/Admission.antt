-- ===== src/Command/Admission.antt =====
-- Who may change the system by cmd/llama-stack/main.go.
use llama_stack.Base.{
  ◌≡◌, refl, sym, ap, ◌∙◌, subst, Bool, true, false, not, String, Result, ok, err, message, List,
  inl, inr, is_ok, Option-cases, if◌then◌else◌,
}
use llama_stack.Base.Actions.{◌>>=◌, fail, lift, lift_cases, bind_cases, done}
use llama_stack.Config.{Config}
use llama_stack.System.{System, Io}
use llama_stack.Command.Options.{
  World, DoctorOptions, InstallOptions, RenderOptions, ModelOptions, ResourceOptions, admitted,
}
use llama_stack.Doctor as Doctor
use llama_stack.Command.Models.{list_models, add_local_model}
use llama_stack.Command.Resources.{run_resource, resource_command}
use llama_stack.Command.Run.{
  Tools, Parsed, malformed, help, parsed, run, run_doctor, run_install, run_render, run_model,
  install_steps, render_steps, model_command,
}

-- The state is as it was.
abbrev pub Still : {A : Type 0} → System → Result A × System → Type 0
Still s out = out.1 ≡ s

abbrev pub is_internal : Parsed → Bool
is_internal (malformed e) = false
is_internal help = false
is_internal (parsed o) = o.run_llama_server

module _ (world : World) (tools : Tools)
    (refused : (cfg : Config) → is_ok (admitted world cfg) ≡ false) where
  -- Behind the privilege check nothing runs.
  checked :
      {A : Type 0} (cfg : Config) (next : Io A) (s : System)
      → Still s ((lift (admitted world cfg) >>= λ _. next) s)
  checked cfg next s =
      lift_cases (Still s) (admitted world cfg) (λ _. next) s (λ e q. refl)
        (λ a q. absurd (cc (sym (refused cfg) ∙ ap is_ok q)))

  loaded :
      {A : Type 0} (path : String) (next : Config → Io A) (s : System)
      → ((cfg : Config) → Still s (next cfg s))
      → Still s ((lift (world.load path) >>= next) s)
  loaded path next s still =
      lift_cases (Still s) (world.load path) next s (λ e q. refl) (λ cfg q. still cfg)

  verdict :
      (b : Bool) (s : System)
      → Still s
          (if b then (err (message "one or more required checks failed"), s) else (ok (tt {0}), s))
  verdict true s = refl
  verdict false s = refl

  run_doctor-Still : (o : DoctorOptions) (s : System) → Still s (run_doctor world tools o s)
  unfolding run_doctor
  run_doctor-Still o s =
      loaded o.config _ s
        (λ cfg. verdict (not (Doctor.healthy (Doctor.run (tools.observe s) cfg))) s)

  run_install-Still : (o : InstallOptions) (s : System) → Still s (run_install world tools o s)
  unfolding run_install
  run_install-Still o s =
      loaded o.config _ s (λ cfg. checked cfg (install_steps world tools cfg o) s)

  run_render-Still : (o : RenderOptions) (s : System) → Still s (run_render world tools o s)
  unfolding run_render
  run_render-Still o s = loaded o.config _ s (λ cfg. checked cfg (render_steps world tools cfg o) s)

  run_resource-Still :
      (o : ResourceOptions) (s : System) → Still s (run_resource tools.send world o s)
  unfolding run_resource
  run_resource-Still o s =
      loaded world.config_path _ s (λ cfg. checked cfg (resource_command tools.send cfg o) s)

  listed :
      (b : Bool) (names : Result (List String)) (s : System)
      → Still s (
          (if b
              then (lift names >>= λ names. done (tt {0}))
              else fail (message "model requires add or list"))
            s)
  unfolding ◌>>=◌
  listed true (ok names) s = refl
  listed true (err e) s = refl
  listed false names s = refl

  model_command-Still :
      (cfg : Config) (o : ModelOptions) (s : System) → Still s (model_command world tools cfg o s)
  model_command-Still cfg o s = elim (Option-cases o.add) [
    | inl absent ↦
        subst (λ x. Still s (model_command world tools cfg (record o { add = x }) s)) (sym absent)
          (listed o.list (list_models (tools.read_dir cfg.paths.models)) s)
    | inr (a, given) ↦
        subst (λ x. Still s (model_command world tools cfg (record o { add = x }) s)) (sym given)
          (checked cfg (add_local_model world cfg tools.cwd a.source) s)
  ]

  run_model-Still : (o : ModelOptions) (s : System) → Still s (run_model world tools o s)
  unfolding run_model
  run_model-Still o s = loaded world.config_path _ s (λ cfg. model_command-Still cfg o s)

  printed-Still :
      (o : ResourceOptions) (s : System)
      → Still s ((run_resource tools.send world o >>= λ printed. done (tt {0})) s)
  printed-Still o s =
      bind_cases (Still s) (run_resource tools.send world o) (λ printed. done (tt {0})) s
        (λ e t q. sym (ap (λ x. x.1) q) ∙ run_resource-Still o s)
        (λ a t q. sym (ap (λ x. x.1) q) ∙ run_resource-Still o s)

  -- The last two cases of the dispatch.
  versioned :
      (version : Bool) (s : System)
      → Still s ((if version then done (tt {0}) else fail (message "a command is required")) s)
  versioned true s = refl
  versioned false s = refl

  -- Where the privilege check refuses whoever runs the command, no subcommand changes the system:
  -- no file is written and no process that changes it is started. The entry point of the model
  -- server, which the service itself calls, is not one of them.
  pub run-Still : (p : Parsed) (s : System) → is_internal p ≡ false → (run world tools p s).1 ≡ s
  unfolding run
  run-Still (malformed e) s outer = refl
  run-Still help s outer = refl
  run-Still (parsed o) s outer = elim (Option-cases o.doctor) [
    | inr (d, given) ↦ rw (given, run) (run_doctor-Still _ s)
    | inl no_doctor ↦ elim (Option-cases o.install) [
      | inr (d, given) ↦ rw (no_doctor, given, run) (run_install-Still _ s)
      | inl no_install ↦ elim (Option-cases o.render) [
        | inr (d, given) ↦ rw (no_doctor, no_install, given, run) (run_render-Still _ s)
        | inl no_render ↦ elim (Option-cases o.model) [
          | inr (d, given) ↦ rw (no_doctor, no_install, no_render, given, run) (run_model-Still _ s)
          | inl no_model ↦ elim (Option-cases o.resource) [
            | inr (d, given) ↦
                rw (no_doctor, no_install, no_render, no_model, given, run) (printed-Still _ s)
            | inl no_resource ↦
                rw (no_doctor, no_install, no_render, no_model, no_resource, outer, run)
                  (versioned o.version s)
          ]
        ]
      ]
    ]
  ]
