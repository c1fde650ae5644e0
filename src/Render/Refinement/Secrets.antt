-- ===== src/Render/Refinement/Secrets.antt =====
-- The writers of internal/render/render.go that read secrets first.
use Prim.Native.String.{◌++◌ as ◌<>◌}
use llama_stack.Base.{
  ◌≡◌, refl, sym, ap, ◌∙◌, subst, Bool, true, false, Option, none, some, [], ◌∷◌, String, inl, inr,
  All, Result-cases, if◌then◌else◌,
}
use llama_stack.Base.Split.{join_with}
use llama_stack.Base.Actions.{◌>>=◌, done, lift, resume}
use llama_stack.Config.{Config}
use llama_stack.System.{System, Io, Files, read_file, explain, context}
use llama_stack.System.View.{Content, Shown, view, read_file_cases}
use llama_stack.Render.Json.{Printer, tool_connections}
use llama_stack.Render.Plan.{
  with_text, with_result, with_connections, environment_step, settings_step, secret_files,
}
use llama_stack.Render.Writing.{
  Output, rooted, environment, environment_path, settings_path, read_connections, connect,
  write_atomic, write_open_webui_environment, write_searxng_settings,
}
use llama_stack.Render.Refinement.Steps.{
  Does, Refines, change_of, stopped, Does-Refines, Refines-append, write_atomic-Does,
}

module _ (is_temp : String → Bool) (pick : Files → String → String → String)
    (temp : (files : Files) (directory pattern_text : String)
      → is_temp (pick files directory pattern_text) ≡ true) where
  -- A step that reads a file first.
  reading-Does :
      (path note : String) (f : Shown) (change : String → Option (String × Content))
      (k : String → Io (Unit {0})) (s : System)
      → is_temp path ≡ false
      → view is_temp s.nodes ≡ f
      → ((text : String) (t : System)
          → view is_temp t.nodes ≡ f
          → Does is_temp (change text) f (k text t))
      → Does is_temp (with_text (f path) change) f ((context note (read_file path) >>= k) s)
  unfolding ◌>>=◌
  reading-Does path note f change k s lasting same later =
      read_file_cases is_temp s
        (λ x. Does is_temp (with_text (f path) change) f (resume (explain note x) k)) path lasting
        (λ e t q. stopped is_temp (with_text (f path) change) f _ t (q ∙ same))
        (λ c t there q.
          let here : f path ≡ some c = sym (ap (λ g. g path) same) ∙ there in
          subst (λ o. Does is_temp (with_text o change) f (k c.text t)) (sym here)
            (later c.text t (q ∙ same)))

  writing-Does :
      (o : Output) (f : Shown) (s : System)
      → is_temp o.path ≡ false
      → view is_temp s.nodes ≡ f
      → Does is_temp (change_of o) f (write_atomic pick o s)
  writing-Does o f s lasting same =
      subst (λ g. Does is_temp (change_of o) g (write_atomic pick o s)) same
        (write_atomic-Does is_temp pick temp o s lasting)

  module _ (printer : Printer) (quote : String → String) (cfg : Config) (root : String) where
    settings-Does :
        (s : System) (f : Shown)
        → is_temp (rooted root cfg.searxng.secret_file) ≡ false
        → is_temp (rooted root (settings_path cfg)) ≡ false
        → view is_temp s.nodes ≡ f
        → Does is_temp
            (settings_step printer quote cfg root f)
            f
            (write_searxng_settings pick printer quote cfg root s)
    unfolding write_searxng_settings
    settings-Does s f readable lasting same =
        reading-Does _ "read SearXNG secret" f _ _ s readable same
          (λ secret t q. writing-Does _ f t lasting q)

    connections-Does :
        (s : System) (f : Shown) (change : Option String → Option (String × Content))
        (k : Option String → Io (Unit {0}))
        → is_temp (rooted root cfg.agent_tools.api_key_file) ≡ false
        → view is_temp s.nodes ≡ f
        → ((c : Option String) (t : System)
            → view is_temp t.nodes ≡ f
            → Does is_temp (change c) f (k c t))
        → Does is_temp
            (with_connections printer quote cfg root f change)
            f
            ((read_connections pick printer quote cfg root >>= k) s)
    unfolding ◌>>=◌
    connections-Does s f change k readable same later = switch cfg.agent_tools.enabled
      where
        tool_file : String
        tool_file = rooted root cfg.agent_tools.api_key_file

        read_key : Io (Option String)
        read_key = connect pick printer quote cfg root

        printing : String → Option (String × Content)
        printing key =
            with_result (printer.marshal (tool_connections cfg key)) (λ c. change (some c))

        printing_io : String → Io (Option String)
        printing_io key = lift (printer.marshal (tool_connections cfg key)) >>= λ c. done (some c)

        connected : Does is_temp (with_text (f tool_file) printing) f ((read_key >>= k) s)
        connected =
            read_file_cases is_temp s
              (λ x.
                Does is_temp (with_text (f tool_file) printing) f
                  (resume (resume (explain "read agent tools API key" x) printing_io) k))
              tool_file readable
              (λ e t q. stopped is_temp (with_text (f tool_file) printing) f _ t (q ∙ same))
              (λ c t there q.
                let here : f tool_file ≡ some c = sym (ap (λ g. g tool_file) same) ∙ there in
                subst (λ o. Does is_temp (with_text o printing) f (resume (printing_io c.text t) k))
                  (sym here)
                  (elim (Result-cases (printer.marshal (tool_connections cfg c.text))) [
                    | inl (json, printed) ↦
                        rw (printed, printing_io, ◌>>=◌) (later (some json) t (q ∙ same))
                    | inr (e, broken) ↦
                        rw (broken, printing_io, ◌>>=◌) (stopped is_temp none f e t (q ∙ same))
                  ]))

        switch :
            (b : Bool)
            → Does is_temp
                (if b then with_text (f tool_file) printing else change none)
                f
                (((if b then read_key else done none) >>= k) s)
        switch true = connected
        switch false = later none s same

    abbrev environment_output : String → String → Option String → Output
    environment_output secret api_key connections = record {
      path = rooted root environment_path;
      mode = 0x180;
      content = join_with "\n" (environment printer cfg secret api_key connections) <> "\n";
    }

    environment-Does :
        (s : System) (f : Shown)
        → is_temp (rooted root cfg.open_webui.secret_file) ≡ false
        → is_temp (rooted root cfg.llama.api_key_file) ≡ false
        → is_temp (rooted root cfg.agent_tools.api_key_file) ≡ false
        → is_temp (rooted root environment_path) ≡ false
        → view is_temp s.nodes ≡ f
        → Does is_temp
            (environment_step printer quote cfg root f)
            f
            (write_open_webui_environment pick printer quote cfg root s)
    unfolding write_open_webui_environment
    environment-Does s f secret_lasting key_lasting tool_lasting lasting same =
        reading-Does _ "read Open WebUI secret" f _ _ s secret_lasting same (λ secret t q.
          reading-Does _ "read llama API key" f _ _ t key_lasting q (λ api_key t q.
            connections-Does t f (λ c. change_of (environment_output secret api_key c)) _
              tool_lasting q (λ connections t q. writing-Does _ f t lasting q)))

    pub secrets-Refines :
        (s : System)
        → All (λ p. is_temp p ≡ false) (secret_files printer quote cfg root)
        → Refines is_temp
            (environment_step printer quote cfg root ∷ settings_step printer quote cfg root ∷ [])
            (view is_temp s.nodes)
            ((write_open_webui_environment pick printer quote cfg root >>= λ _.
                write_searxng_settings pick printer quote cfg root)
              s)
    secrets-Refines s (secret, (key, (tool, (env, (searx, (sets, _)))))) =
        Refines-append is_temp pick temp (environment_step printer quote cfg root ∷ [])
          (settings_step printer quote cfg root ∷ []) (view is_temp s.nodes)
          (write_open_webui_environment pick printer quote cfg root)
          (write_searxng_settings pick printer quote cfg root) s
          (Does-Refines is_temp (environment_step printer quote cfg root) _ _
            (environment-Does s _ secret key tool env refl))
          (λ t shows.
            Does-Refines is_temp (settings_step printer quote cfg root) _ _
              (settings-Does t _ searx sets shows))
