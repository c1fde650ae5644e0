-- ===== src/Render/Kept.antt =====
-- What `Write` of internal/render/render.go keeps.
use llama_stack.Base.{Bool, true, false, none, List, [], ◌∷◌, String, All, if◌then◌else◌}
use llama_stack.Base.FilePath.{dir}
use llama_stack.Base.Actions.{◌>>=◌, done}
use llama_stack.Config.{Config}
use llama_stack.System.{Files, Io, chmod, write, flush, read_file, mkdir_all, context}
use llama_stack.System.View.{Content}
use llama_stack.System.Kept.{
  Apart, chmod-Has, write-Has, flush-Has, read_file-Has, mkdir_all-Has, rename-Has, context-Has,
  create_temp-Has,
}
use llama_stack.Render.Json.{Printer}
use llama_stack.Render.Writing.{
  Output, rooted, outputs, environment_path, settings_path, replace, write_atomic, write_outputs,
  write_open_webui_environment, write_searxng_settings, write_all, read_connections, connect,
}
use llama_stack.System.Kept.{Keeps, bind-Keeps, lift-Keeps}

module _ (p : String) (c : Content) where
  module _ (pick : Files → String → String → String)
      (fresh : (files : Files) (directory pattern_text : String)
        → Apart p c (pick files directory pattern_text)) where
    replace-Keeps :
        (tmp : String) (o : Output)
        → Apart p c tmp
        → Apart p c o.path
        → Keeps p c (replace pick tmp o)
    replace-Keeps tmp o temporary apart =
        bind-Keeps p c (chmod tmp o.mode) _ (λ s. chmod-Has p c tmp o.mode s temporary)
          (λ _.
            bind-Keeps p c (write tmp o.content) _ (λ s. write-Has p c tmp o.content s temporary)
              (λ _. bind-Keeps p c flush _ (flush-Has p c) (λ _.
                bind-Keeps p c flush _ (flush-Has p c)
                  (λ _ s. rename-Has p c tmp o.path s temporary apart))))

    write_atomic-Keeps : (o : Output) → Apart p c o.path → Keeps p c (write_atomic pick o)
    unfolding write_atomic
    write_atomic-Keeps o apart =
        bind-Keeps p c (context _ (mkdir_all (dir o.path) 0x1ed)) _
          (λ s h.
            context-Has p c _ (mkdir_all (dir o.path) 0x1ed) s
              (mkdir_all-Has p c (dir o.path) 0x1ed s h))
          (λ _ s h.
            create_temp-Has p c pick (dir o.path) ".llama-stack-*" _ s fresh
              (λ tmp t temporary h.
                context-Has p c _ (replace pick tmp o) t (replace-Keeps tmp o temporary apart t h))
              h _)

    write_outputs-Keeps :
        (root : String) (os : List Output)
        → All (λ o. Apart p c (rooted root o.path)) os
        → Keeps p c (write_outputs pick root os)
    unfolding write_outputs
    write_outputs-Keeps root [] apart = λ s h. h
    write_outputs-Keeps root (o ∷ os) apart =
        bind-Keeps p c (write_atomic pick (record o { path = rooted root o.path })) _
          (write_atomic-Keeps (record o { path = rooted root o.path }) apart.0)
          (λ _. write_outputs-Keeps root os apart.1)

    reading-Keeps :
        {B : Type 0} (note path : String) (k : String → Io B)
        → ((text : String) → Keeps p c (k text))
        → Keeps p c (context note (read_file path) >>= k)
    reading-Keeps note path k later =
        bind-Keeps p c (context note (read_file path)) k
          (λ s h. context-Has p c note (read_file path) s (read_file-Has p c path s h)) later

    module _ (printer : Printer) (quote : String → String) (cfg : Config) (root : String) where
      pub write_all-Keeps :
          All (λ o. Apart p c (rooted root o.path)) (outputs cfg "")
          → Apart p c (rooted root environment_path)
          → Apart p c (rooted root (settings_path cfg))
          → Keeps p c (write_all pick printer quote cfg root)
      unfolding write_all write_open_webui_environment write_searxng_settings outputs
      write_all-Keeps apart apart' apart'' = lift-Keeps p c _ _ (λ mcp.
          bind-Keeps p c (write_outputs pick root (outputs cfg mcp)) _
            (write_outputs-Keeps root (outputs cfg mcp) apart)
            (λ _.
              bind-Keeps p c (write_open_webui_environment pick printer quote cfg root) _
                (reading-Keeps _ _ _ (λ secret. reading-Keeps _ _ _ (λ key.
                  bind-Keeps p c (read_connections pick printer quote cfg root) _
                    (connections-Keeps cfg.agent_tools.enabled)
                    (λ connections. write_atomic-Keeps _ apart'))))
                (λ _. reading-Keeps _ _ _ (λ secret. write_atomic-Keeps _ apart''))))
        where
          connections-Keeps :
              (b : Bool) → Keeps p c (if b then connect pick printer quote cfg root else done none)
          connections-Keeps true = reading-Keeps _ _ _ (λ key. lift-Keeps p c _ _ (λ json s h. h))
          connections-Keeps false = λ s h. h
