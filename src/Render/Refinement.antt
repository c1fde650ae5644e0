-- ===== src/Render/Refinement.antt =====
-- `Write` of internal/render/render.go against its plan.
pub mod Steps
pub mod Secrets
use Prim.Native.String.{◌++◌ as ◌<>◌}
use mathlib.Core.List.{append_assoc}
use llama_stack.Base.{
  ◌≡◌, refl, sym, ap, ◌∙◌, subst, Bool, true, false, Option, none, some, List, [], ◌∷◌, ◌++◌, map,
  String, Result, ok, err, Failure, wrapped, ◌⊎◌, inl, inr, All, Result-cases, if◌then◌else◌,
}
use llama_stack.Base.Conditions.{All-split, map_iff}
use llama_stack.Base.Split.{join_with}
use llama_stack.Base.FilePath.{dir}
use llama_stack.Base.Actions.{◌>>=◌, done, lift, resume, bind_cases}
use llama_stack.Config.{Config}
use llama_stack.System.{
  System, Io, Files, Node, read_file, explain, context, write, flush, rename, create_temp,
}
use llama_stack.System.View.{
  Content, Shown, view, IsFilling, chmod_cases, write_cases, flush_cases, rename_cases,
  mkdir_all_cases, create_temp_cases, read_file_cases,
}
use llama_stack.Render.Json.{Printer, mcp_configuration, tool_connections}
use llama_stack.Render.Plan.{
  Step, apply, perform, with_text, with_result, with_connections, perform-append, output_step,
  rooted_output, environment_step, settings_step, plan, planned_outputs, touched, secret_files,
  printed_or_empty,
}
use llama_stack.Render.Writing.{
  Output, rooted, outputs, environment, environment_path, settings_path, replace, read_connections,
  connect, write_atomic, write_outputs, write_open_webui_environment, write_searxng_settings,
  write_all,
}
use llama_stack.Render.Refinement.Steps.{
  Does, Refines, change_of, stopped, Does-Refines, Refines-append, write_atomic-Does,
  write_outputs-Refines,
}
use llama_stack.Render.Refinement.Secrets.{secrets-Refines}

module _ (is_temp : String → Bool) (pick : Files → String → String → String)
    (temp : (files : Files) (directory pattern_text : String)
      → is_temp (pick files directory pattern_text) ≡ true)
    (printer : Printer) (quote : String → String) (cfg : Config) (root : String) where
  -- The steps of the ten outputs, for the printed configuration of the MCP servers.
  abbrev output_steps : String → List Step
  output_steps mcp = map (λ o. output_step (rooted_output root o)) (outputs cfg mcp)

  printed-Refines :
      (r : Result String) (s : System)
      → All
          (λ o. is_temp (rooted root o.path) ≡ false)
          (outputs cfg (printed_or_empty printer quote cfg root r))
      → All (λ p. is_temp p ≡ false) (secret_files printer quote cfg root)
      → Refines is_temp
          (output_steps (printed_or_empty printer quote cfg root r)
            ++ (environment_step printer quote cfg root
                ∷ settings_step printer quote cfg root
                ∷ []))
          (view is_temp s.nodes)
          ((lift r >>= λ mcp.
              (write_outputs pick root (outputs cfg mcp) >>= λ _.
              (write_open_webui_environment pick printer quote cfg root >>= λ _.
              write_searxng_settings pick printer quote cfg root)))
            s)
  unfolding ◌>>=◌
  printed-Refines (err e) s lasting secrets = inr (record {
    failure = e;
    failed = refl;
    finished = [];
    left =
        output_steps ""
        ++ (environment_step printer quote cfg root ∷ settings_step printer quote cfg root ∷ []);
    first = refl;
    shows = refl;
  })
  printed-Refines (ok mcp) s lasting secrets =
      Refines-append is_temp pick temp (output_steps mcp)
        (environment_step printer quote cfg root ∷ settings_step printer quote cfg root ∷ [])
        (view is_temp s.nodes) (write_outputs pick root (outputs cfg mcp)) _ s
        (write_outputs-Refines is_temp pick temp root (outputs cfg mcp) s lasting)
        (λ t shows.
          subst
            (λ f.
              Refines is_temp
                (environment_step printer quote cfg root
                  ∷ settings_step printer quote cfg root
                  ∷ [])
                f
                ((write_open_webui_environment pick printer quote cfg root >>= λ _.
                    write_searxng_settings pick printer quote cfg root)
                  t))
            shows (secrets-Refines is_temp pick temp printer quote cfg root t secrets))

  -- `Write` follows its plan over any system: where it succeeds, the files show what all steps
  -- of the plan make of them, one after the other; where it fails, they show what the first
  -- steps make of them. So no file is ever seen half written, and none but the plan's changes.
  -- The temporary files aside, no file that the plan reads or replaces has the name of one.
  pub write_all-Refines :
      (s : System)
      → All (λ p. is_temp p ≡ false) (touched printer quote cfg root)
      → Refines is_temp
          (plan printer quote cfg root)
          (view is_temp s.nodes)
          (write_all pick printer quote cfg root s)
  unfolding write_all
  write_all-Refines s lasting =
      let (outs, secrets) =
        All-split (λ p. is_temp p ≡ false)
          (map (λ o. rooted root o.path) (planned_outputs printer quote cfg root))
          (secret_files printer quote cfg root) lasting in
      printed-Refines (printer.marshal_indent (mcp_configuration cfg)) s
        ((map_iff (λ p. is_temp p ≡ false) (λ o. is_temp (rooted root o.path) ≡ false)
            (λ o. rooted root o.path) (λ o. (λ h. h, λ h. h))
            (planned_outputs printer quote cfg root)).0
          outs)
        secrets
