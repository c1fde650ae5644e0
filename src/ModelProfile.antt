-- ===== src/ModelProfile.antt =====
-- internal/modelprofile/modelprofile.go: the profiles of models. `matches` is `path.Match`, which
-- fails on a malformed pattern.
pub mod Matching
pub mod Rendering
mod Tests
use llama_stack.Base.{
  ℕ, Bool, true, false, not, ◌||◌, Option, none, some, List, [], ◌∷◌, String, Result, ok, err,
  Failure, message, ◌>>=◌, ◌>>◌, fail_if, str_eq, if◌then◌else◌,
}
use llama_stack.Base.Text.{trim_space, contains_char}
use llama_stack.Config.Validation.{is_abs, is_blank}

-- The arguments of the chat template are only passed on: `kwargs` is their JSON form.
pub record Profile : Type 0 where
  pub name : String
  pub model_glob : String
  pub chat_template_file : String
  pub kwargs : Option String

module _ (matches : String → String → Result Bool) where
  -- `validate`, on the profiles of a catalog.
  unfoldable pub validate_catalog : List Profile → Result (Unit {0})
  unfolding is_abs contains_char
  validate_catalog [] = ok tt
  validate_catalog (p ∷ ps) = do
    fail_if (is_blank p.name || is_blank p.model_glob)
        (message "model profile name and model_glob must not be empty")
    fail_if (contains_char b'/' p.model_glob || contains_char b'\\' p.model_glob)
        (message "profile model_glob must match a file name")
    _ ← matches p.model_glob "model.gguf"
    fail_if
        (not (is_abs p.chat_template_file)
          || contains_char b'\r' p.chat_template_file
          || contains_char b'\n' p.chat_template_file)
        (message "profile chat_template_file must be an absolute single-line path")
    validate_catalog ps

  -- The loop of `matchingProfile`, with the variable `matched`.
  unfoldable pub match_loop : String → Option Profile → List Profile → Result (Option Profile)
  match_loop model matched [] = ok matched
  match_loop model matched (p ∷ ps) =
      let later = match_loop model (some p) ps in
      let rest = match_loop model matched ps in
      elim (matches p.model_glob model) [
        | err e ↦ err e
        | ok false ↦ rest
        | ok true ↦ elim matched [
          | none ↦ later
          | some q ↦ err (message "model matches two profiles")
        ]
      ]

  unfoldable pub matching_profile : List Profile → String → Result (Option Profile)
  unfolding match_loop
  matching_profile profiles model = match_loop model none profiles
