-- ===== src/ModelProfile/Rendering.antt =====
-- `Render` of internal/modelprofile/modelprofile.go: the presets of the router for the installed
-- models. The catalog and the entries of a directory are what the decoder and `os.ReadDir` answer.
use Prim.Native.Nat.{Ordering}
use Prim.Native.Char.{code}
use Prim.Native.String as S
use Prim.Native.String.{◌++◌}
use mathlib.Core.List as L
use llama_stack.Base.{
  ℕ, ◌+◌, Bool, true, false, not, ◌&&◌, ◌||◌, none, some, List, [], ◌∷◌, String, Result,
  if◌then◌else◌, ◌==◌,
}
use llama_stack.Base.Actions.{◌>>=◌, ◌>>◌, done, lift}
use llama_stack.Base.Text.{contains_char}
use llama_stack.Base.Split.{join_with, has_suffix_fold}
use llama_stack.Base.FilePath.{dir}
use llama_stack.System.{
  Files, System, Io, stat, mkdir_all, create_temp, chmod, write, flush, rename, remove, context,
}
use llama_stack.ModelProfile.{Profile, validate_catalog, matching_profile}

-- `os.DirEntry`.
pub record Entry : Type 0 where
  pub name : String
  pub is_dir : Bool

abbrev before_in_order : String → String → Bool
before_in_order a b = elim (S.compare a b) [ Ordering.lt ↦ true | _ ↦ false ]

abbrev put_in : Entry → List Entry → List Entry
put_in e [] = e ∷ []
put_in e (x ∷ xs) = if before_in_order x.name e.name then x ∷ put_in e xs else e ∷ x ∷ xs

-- `sort.Slice` by the names, which are different.
unfoldable pub sort_entries : List Entry → List Entry
sort_entries [] = []
sort_entries (e ∷ es) = put_in e (sort_entries es)

-- A name without its extension: `strings.TrimSuffix(name, filepath.Ext(name))`.
unfoldable pub stem : String → String
unfolding contains_char
stem S.[] = ""
stem (S.◌∷◌ c s) = if code c == b'.' && not (contains_char b'.' s) then "" else S.◌∷◌ c (stem s)

-- The lines of one model.
unfoldable pub preset : String → Profile → List String
unfolding stem
preset name profile =
    ("[" ++ stem name ++ "]")
    ∷ ("chat-template-file = " ++ profile.chat_template_file)
    ∷ L.◌++◌ (elim profile.kwargs [ none ↦ [] | some k ↦ ("chat-template-kwargs = " ++ k) ∷ [] ])
        ("" ∷ [])

module _ (matches : String → String → Result Bool) (profiles : List Profile) where
  -- The loop over the sorted entries, with the lines and the number of matches so far.
  unfoldable pub render_loop : List Entry → List String → ℕ → Io (List String × ℕ)
  unfolding stat ◌>>=◌ has_suffix_fold preset matching_profile
  render_loop [] lines matched = done (lines, matched)
  render_loop (entry ∷ entries) lines matched =
      let skip = render_loop entries lines matched in
      let take_profile = λ (profile : Profile).
        context "profile template" (stat profile.chat_template_file) >>= λ _.
        render_loop entries (L.◌++◌ lines (preset entry.name profile)) (matched + 1) in
      if entry.is_dir || not (has_suffix_fold entry.name ".gguf")
      then skip
      else lift (matching_profile matches profiles entry.name) >>= λ found. elim found [
        | none ↦ skip
        | some profile ↦ take_profile profile
      ]

  module _ (pick : Files → String → String → String) where
    -- What `writeAtomic` does with its temporary file.
    abbrev pub replace_preset : String → String → String → Io (Unit {0})
    replace_preset temporary destination content = do
      chmod temporary 0x1a0
      write temporary content
      flush
      flush
      rename temporary destination

    -- `defer func() { _ = os.Remove(temporary.Name()) }()`
    abbrev pub removing : {A : Type 0} → String → Result A × System → Result A × System
    removing path (r, s) = (r, remove path s)

    -- `writeAtomic`.
    unfoldable pub write_preset : String → String → Io (Unit {0})
    unfolding mkdir_all create_temp chmod write flush rename dir ◌>>=◌
    write_preset destination content = do
      mkdir_all (dir destination) 0x1e8
      temporary ← create_temp pick (dir destination) ".model-presets-*"
      λ s. removing temporary (replace_preset temporary destination content s)

    -- `Render`, behind the decoding of the catalog.
    unfoldable pub render : Result (List Entry) → String → Io ℕ
    unfolding validate_catalog render_loop write_preset sort_entries join_with ◌>>=◌
    render read_dir preset_path = do
      lift (validate_catalog matches profiles)
      entries ← context "read models directory" (lift read_dir)
      (lines, matched) ← render_loop (sort_entries entries) ("version = 1" ∷ "" ∷ []) 0
      write_preset preset_path (join_with "\n" lines)
      done matched
