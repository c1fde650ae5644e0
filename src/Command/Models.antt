-- ===== src/Command/Models.antt =====
-- The management of models in cmd/llama-stack/main.go. `cwd` is the working directory.
use Prim.Native.String.{len}
use llama_stack.Base.{
  not, List, [], ◌∷◌, String, Result, ok, err, not_exist, message, if◌then◌else◌, str_eq, ◌==◌,
  keep,
}
use llama_stack.Base.Actions.{◌>>=◌, ◌>>◌, done, fail, lift, on_failure}
use llama_stack.Base.Split.{has_suffix_fold}
use llama_stack.Base.FilePath.{join, clean, base}
use llama_stack.Config.{Config}
use llama_stack.Config.Validation.{is_abs}
use llama_stack.System.{
  Node, System, Io, stat, chown, chmod, read_file, create_temp, write, flush, rename, remove, start,
}
use llama_stack.Command.Options.{World}
use llama_stack.Command.State.{service_identity}

-- `filepath.Abs`.
unfoldable pub absolute : String → String → String
unfolding is_abs clean join
absolute cwd path = if is_abs path then clean path else join (cwd ∷ path ∷ [])

abbrev pub model_suffix : String
model_suffix = ".gguf"

module _ (world : World) (cfg : Config) where
  -- What is done with the temporary file once the source is copied into it.
  abbrev pub finish_import : String → String → Io (Unit {0})
  finish_import temporary destination = do
    flush
    chmod temporary 0x1a0
    flush
    (uid, gid) ← lift (service_identity world cfg.stack.user)
    chown temporary uid gid
    rename temporary destination
    start "systemctl" ("try-reload-or-restart" ∷ "llama-server.service" ∷ [])

  -- The copy, with the check of its length.
  abbrev pub copy_model : Node → String → String → String → Io (Unit {0})
  copy_model info content temporary destination = do
    write temporary content
    if not (len content == len info.text)
        then fail (message "short model copy")
        else finish_import temporary destination

  -- From the temporary file on: an error removes it.
  abbrev pub import_model : Node → String → String → Io (Unit {0})
  import_model info content destination = do
    temporary ← create_temp world.pick cfg.paths.models ".model-*.gguf"
    on_failure (remove temporary) (copy_model info content temporary destination)

  -- `os.Lstat` of the destination: it must not be there.
  abbrev pub vacant : Result Node × System → Io (Unit {0}) → Result (Unit {0}) × System
  vacant (ok node, s) next = (err (message "the model is already registered"), s)
  vacant (err not_exist, s) next = next s
  vacant (err e, s) next = (err e, s)

  abbrev pub register : Node → String → String → Io (Unit {0})
  register info source destination s =
      vacant (stat destination s)
        (do content ← read_file source; import_model info content destination)

  abbrev pub destination_of : String → String
  destination_of source = join (cfg.paths.models ∷ base source ∷ [])

  -- `addLocalModel` behind its check of the extension.
  abbrev pub add_file : String → Io (Unit {0})
  add_file source = do
    info ← stat source
    if info.directory
        then fail (message "model source is not a regular file")
        else if str_eq source (destination_of source)
        then done tt
        else register info source (destination_of source)

  -- `addLocalModel`, on the absolute path of the source.
  unfoldable pub add_model : String → Io (Unit {0})
  unfolding has_suffix_fold join base stat read_file create_temp write flush chmod chown rename
      start service_identity ◌>>=◌
  add_model source =
      if not (has_suffix_fold source model_suffix)
      then fail (message "model must have a .gguf extension")
      else add_file source

  unfoldable pub add_local_model : String → String → Io (Unit {0})
  unfolding absolute add_model
  add_local_model cwd argument = add_model (absolute cwd argument)

-- `listModels`: the lines that it prints for the names in the directory.
unfoldable pub list_models : Result (List String) → Result (List String)
unfolding has_suffix_fold
list_models (err e) = err e
list_models (ok names) = ok (keep (λ name. has_suffix_fold name model_suffix) names)
