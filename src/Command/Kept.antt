-- ===== src/Command/Kept.antt =====
-- What `install` of cmd/llama-stack/main.go keeps: the secrets that are there, above all.
use llama_stack.Base.{
  ◌≡◌, refl, sym, ap, ◌∙◌, subst, ok-injective, Bool, true, false, not, List, [], ◌∷◌, map, String,
  ok, All, str_eq, if◌then◌else◌, Bool-cases, eq_iff, inl, inr, ℕ,
}
use Prim.Native.String.{◌++◌ as ◌<>◌}
use llama_stack.Base.Text.{hex_encode}
use llama_stack.Base.Int.{ℤ}
use llama_stack.Base.FilePath.{join}
use llama_stack.Base.Actions.{◌>>=◌, lift, lift_cases, done}
use llama_stack.Config.{Config}
use llama_stack.System.{System, Files, chown, chmod, mkdir_all, open_file, start}
use llama_stack.System.View.{Content, content_of}
use llama_stack.System.Holding.{stat_holds}
use llama_stack.System.Kept.{
  Has, Apart, chown-Has, chmod-Has, write-Has, start-Has, mkdir_all-Has, open_file-Has,
}
use llama_stack.Render.Writing.{rooted, outputs, environment_path, settings_path, write_all}
use llama_stack.Command.Options.{World, InstallOptions, admitted}
use llama_stack.Command.State.{
  service_identity, found_secret, create_secret, ensure_secret, own_directories, ensure_secrets,
  configure_rootless_podman, initialize_state, build_toolbox_image, chown_all,
  set_generated_ownership, pull_images, enabled_service_images, write_file, secrets,
  podman_directory, podman_path, rootless_podman_configuration, toolbox_runtime_path,
  state_directories, build_enabled, build_arguments, generated_files,
}
use llama_stack.Command.Run.{Tools, run_install, install_steps}
use llama_stack.System.Kept.{Keeps, bind-Keeps, lift-Keeps}
use llama_stack.Render.Kept.{write_all-Keeps}

-- The files that `install` writes whatever they hold: the configuration of podman, the directory of
-- the toolbox, whose mode is set, and what the renderer generates.
abbrev pub written_files : Config → List String
written_files cfg =
    podman_path cfg
    ∷ toolbox_runtime_path
    ∷ environment_path
    ∷ settings_path cfg
    ∷ map (λ o. o.path) (outputs cfg "")

module _ (p : String) (c : Content) where
  module _ (world : World) where
    write_file-Keeps :
        (path content : String) (mode : ℕ)
        → Apart p c path
        → Keeps p c (write_file path content mode)
    write_file-Keeps path content mode apart =
        bind-Keeps p c (open_file path mode) _ (λ s. open_file-Has p c path mode s apart)
          (λ _ s. write-Has p c path content s apart)

    create_secret-Keeps :
        (path prefix : String) (uid gid : ℤ)
        → Apart p c path
        → Keeps p c (create_secret world path prefix uid gid)
    create_secret-Keeps path prefix uid gid apart = lift-Keeps p c (world.entropy path) _ (λ value.
        bind-Keeps p c (write_file path (prefix <> hex_encode value <> "\n") 0x1a0) _
          (write_file-Keeps path (prefix <> hex_encode value <> "\n") 0x1a0 apart)
          (λ _. chown-Has p c path uid gid))

    -- A secret that is there stays; the creation of another one keeps it.
    ensure_secret-Keeps :
        (path prefix : String) (uid gid : ℤ) → Keeps p c (ensure_secret world path prefix uid gid)
    unfolding ensure_secret
    ensure_secret-Keeps path prefix uid gid s h =
        stat_holds s.nodes s refl (λ x. Has p c (found_secret world path prefix uid gid x).1) path
          (λ reason t same. kept t same)
          (λ t absent same. elim (Bool-cases (str_eq p path)) [
            | inr apart ↦ create_secret-Keeps path prefix uid gid apart t (kept t same)
            | inl here ↦
                absurd (cc (sym h ∙ ap content_of (ap s.nodes ((eq_iff p path).0 here) ∙ absent)))
          ])
          (λ n t there same. kept t same)
      where
        kept : (t : System) → t.nodes ≡ s.nodes → Has p c t
        kept t same = ap (λ f. content_of (f p)) same ∙ h

    ensure_secrets-Keeps :
        (ss : List (String × String)) (uid gid : ℤ) → Keeps p c (ensure_secrets world ss uid gid)
    unfolding ensure_secrets
    ensure_secrets-Keeps [] uid gid = λ s h. h
    ensure_secrets-Keeps ((path, prefix) ∷ rest) uid gid =
        bind-Keeps p c (ensure_secret world path prefix uid gid) _
          (ensure_secret-Keeps path prefix uid gid) (λ _. ensure_secrets-Keeps rest uid gid)

    own_directories-Keeps :
        (paths : List String) (uid gid : ℤ) → Keeps p c (own_directories world paths uid gid)
    unfolding own_directories
    own_directories-Keeps [] uid gid = λ s h. h
    own_directories-Keeps (path ∷ paths) uid gid =
        bind-Keeps p c (mkdir_all path 0x1e8) _ (mkdir_all-Has p c path 0x1e8) (λ _.
          bind-Keeps p c (chown path uid gid) _ (chown-Has p c path uid gid)
            (λ _. own_directories-Keeps paths uid gid))

    chown_all-Keeps :
        (paths : List String) (uid gid : ℤ) → Keeps p c (chown_all world paths uid gid)
    unfolding chown_all
    chown_all-Keeps [] uid gid = λ s h. h
    chown_all-Keeps (path ∷ paths) uid gid =
        bind-Keeps p c (chown path uid gid) _ (chown-Has p c path uid gid)
          (λ _. chown_all-Keeps paths uid gid)

    podman-Keeps :
        (cfg : Config) (uid gid : ℤ)
        → Apart p c (podman_path cfg)
        → Keeps p c (configure_rootless_podman world cfg uid gid)
    unfolding configure_rootless_podman
    podman-Keeps cfg uid gid apart =
        bind-Keeps p c (mkdir_all (podman_directory cfg) 0x1e8) _
          (mkdir_all-Has p c (podman_directory cfg) 0x1e8)
          (λ _.
            bind-Keeps p c (chown (join (cfg.paths.state ∷ ".config" ∷ [])) uid gid) _
              (chown-Has p c (join (cfg.paths.state ∷ ".config" ∷ [])) uid gid)
              (λ _.
                bind-Keeps p c (chown (podman_directory cfg) uid gid) _
                  (chown-Has p c (podman_directory cfg) uid gid)
                  (λ _.
                    bind-Keeps p c
                      (write_file (podman_path cfg) rootless_podman_configuration 0x1a0) _
                      (write_file-Keeps (podman_path cfg) rootless_podman_configuration 0x1a0 apart)
                      (λ _. chown-Has p c (podman_path cfg) uid gid))))

    initialize_state-Keeps :
        (cfg : Config) → Apart p c (podman_path cfg) → Keeps p c (initialize_state world cfg)
    unfolding initialize_state
    initialize_state-Keeps cfg apart =
        lift-Keeps p c (service_identity world cfg.stack.user) _ (λ owner.
          bind-Keeps p c (own_directories world (state_directories world cfg) owner.0 owner.1) _
            (own_directories-Keeps (state_directories world cfg) owner.0 owner.1)
            (λ _.
              bind-Keeps p c (configure_rootless_podman world cfg owner.0 owner.1) _
                (podman-Keeps cfg owner.0 owner.1 apart)
                (λ _. ensure_secrets-Keeps (secrets world cfg) owner.0 owner.1)))

    build_enabled-Keeps :
        (cfg : Config) → Apart p c toolbox_runtime_path → Keeps p c (build_enabled world cfg)
    build_enabled-Keeps cfg apart =
        lift-Keeps p c (service_identity world cfg.stack.user) _ (λ owner.
          bind-Keeps p c (mkdir_all toolbox_runtime_path 0x1c0) _
            (mkdir_all-Has p c toolbox_runtime_path 0x1c0)
            (λ _.
              bind-Keeps p c (chmod toolbox_runtime_path 0x1c0) _
                (λ s. chmod-Has p c toolbox_runtime_path 0x1c0 s apart)
                (λ _.
                  bind-Keeps p c (chown toolbox_runtime_path owner.0 owner.1) _
                    (chown-Has p c toolbox_runtime_path owner.0 owner.1)
                    (λ _. start-Has p c "runuser" (build_arguments world cfg)))))

    build-Keeps :
        (cfg : Config) → Apart p c toolbox_runtime_path → Keeps p c (build_toolbox_image world cfg)
    unfolding build_toolbox_image
    build-Keeps cfg apart = switch (not cfg.toolbox.enabled)
      where
        switch : (b : Bool) → Keeps p c (if b then done (tt {0}) else build_enabled world cfg)
        switch true = λ s h. h
        switch false = build_enabled-Keeps cfg apart

    pull_images-Keeps : (images : List String) → Keeps p c (pull_images images)
    unfolding pull_images
    pull_images-Keeps [] = λ s h. h
    pull_images-Keeps (image ∷ images) =
        bind-Keeps p c (start "podman" ("pull" ∷ image ∷ [])) _
          (start-Has p c "podman" ("pull" ∷ image ∷ [])) (λ _. pull_images-Keeps images)

  module _ (world : World) (tools : Tools) (cfg : Config) (o : InstallOptions)
      (fresh : (files : Files) (directory pattern_text : String)
        → Apart p c (world.pick files directory pattern_text))
      (apart : All (Apart p c) (written_files cfg)) where
    ownership-Keeps : Keeps p c (set_generated_ownership world cfg)
    unfolding set_generated_ownership
    ownership-Keeps =
        lift-Keeps p c (service_identity world cfg.stack.user) _
          (λ owner. chown_all-Keeps world (generated_files world cfg) owner.0 owner.1)

    starting-Keeps :
        (b : Bool)
        → Keeps p c (
            if b
            then done (tt {0})
            else start "systemctl" ("enable" ∷ "--now" ∷ "llama-stack.target" ∷ []))
    starting-Keeps true = λ s h. h
    starting-Keeps false =
        start-Has p c "systemctl" ("enable" ∷ "--now" ∷ "llama-stack.target" ∷ [])

    install_steps-Keeps : Keeps p c (install_steps world tools cfg o)
    unfolding outputs rooted
    install_steps-Keeps =
        let (podman, (runtime, (env, (sets, outs)))) = apart in
        bind-Keeps p c (initialize_state world cfg) _ (initialize_state-Keeps world cfg podman)
          (λ _.
            bind-Keeps p c (build_toolbox_image world cfg) _ (build-Keeps world cfg runtime) (λ _.
              bind-Keeps p c (pull_images (enabled_service_images cfg)) _
                (pull_images-Keeps world (enabled_service_images cfg))
                (λ _.
                  bind-Keeps p c (write_all world.pick tools.printer tools.quote cfg "") _
                    (write_all-Keeps p c world.pick fresh tools.printer tools.quote cfg "" outs env
                      sets)
                    (λ _. bind-Keeps p c (set_generated_ownership world cfg) _ ownership-Keeps (λ _.
                      bind-Keeps p c (start "systemctl" ("daemon-reload" ∷ [])) _
                        (start-Has p c "systemctl" ("daemon-reload" ∷ []))
                        (λ _. starting-Keeps o.no_start))))))

    -- `install` keeps the text and the mode of every file but those that it generates: of a secret
    -- that is there, above all, though it ensures that very file. It does so where it fails, too.
    -- No temporary file has the name of the file that is kept.
    pub run_install-Has :
        (s : System)
        → world.load o.config ≡ ok cfg
        → Has p c s
        → Has p c (run_install world tools o s).1
    unfolding run_install
    run_install-Has s loads h =
        lift_cases (λ x. Has p c x.1) (world.load o.config) _ s (λ e q. h)
          (λ cfg' q.
            subst
              (λ k. Has p c ((lift (admitted world k) >>= λ _. install_steps world tools k o) s).1)
              (ok-injective (sym loads ∙ q))
              (lift-Keeps p c (admitted world cfg) _ (λ a. install_steps-Keeps) s h))
