-- ===== src/Base/FilePath.antt =====
-- The part of Go's `path/filepath` that the source uses, for paths with slashes.
use Prim.Native.String as S
use Prim.Native.String.{String}
use mathlib.Core.Path.{◌≡◌, refl}
use mathlib.Core.Bool.{Bool, true, false, not, ◌||◌}
use mathlib.Core.List.{List, [], ◌∷◌, reverse}
use text.Mathlib.Text.{◌==◌ as str_eq}
use llama_stack.Base.Tests.{if◌then◌else◌}
use llama_stack.Base.Lists.{keep}
use llama_stack.Base.Text.{has_prefix}
use llama_stack.Base.Split.{split, join_with}

-- What `..` does to the segments kept so far, the last one first.
abbrev pub step_back : Bool → List String → List String
step_back true [] = []
step_back false [] = ".." ∷ []
step_back rooted (s ∷ kept) = if str_eq s ".." then ".." ∷ s ∷ kept else kept

abbrev pub step : Bool → List String → String → List String
step rooted kept s =
    if str_eq s "" || str_eq s "."
    then kept
    else if str_eq s ".."
    then step_back rooted kept
    else s ∷ kept

-- The loop of `filepath.Clean` over the segments of a path.
unfoldable pub clean_loop : Bool → List String → List String → List String
clean_loop rooted kept [] = kept
clean_loop rooted kept (s ∷ rest) = clean_loop rooted (step rooted kept s) rest

-- The segments of a path once it is clean.
unfoldable pub segments : String → List String
unfolding clean_loop split has_prefix
segments path = reverse (clean_loop (has_prefix path "/") [] (split b'/' path))

abbrev pub written : Bool → List String → String
written true parts = S.◌++◌ "/" (join_with "/" parts)
written false [] = "."
written false (s ∷ parts) = join_with "/" (s ∷ parts)

-- `filepath.Clean`.
unfoldable pub clean : String → String
unfolding segments has_prefix join_with
clean path = written (has_prefix path "/") (segments path)

abbrev pub joined : List String → String
joined [] = ""
joined (s ∷ parts) = clean (join_with "/" (s ∷ parts))

-- `filepath.Join`.
unfoldable pub join : List String → String
unfolding clean join_with
join parts = joined (keep (λ s. not (str_eq s "")) parts)

-- A path without its last segment, and that segment.
abbrev pub without_last : List String → List String
without_last [] = []
without_last (s ∷ []) = []
without_last (s ∷ t ∷ parts) = s ∷ without_last (t ∷ parts)

abbrev pub last_of : String → List String → String
last_of default [] = default
last_of default (s ∷ parts) = last_of s parts

-- `filepath.Dir`: what stands up to the last slash, cleaned.
unfoldable pub dir : String → String
unfolding clean split join_with
dir path = clean (
    if has_prefix path "/"
    then S.◌++◌ "/" (join_with "/" (without_last (split b'/' path)))
    else join_with "/" (without_last (split b'/' path)))

-- `filepath.Base`.
unfoldable pub base : String → String
unfolding split has_prefix
base path =
    if str_eq path ""
    then "."
    else last_of (if has_prefix path "/" then "/" else ".")
        (keep (λ s. not (str_eq s "")) (split b'/' path))

clean_test : clean "/a/./b/../../../c//d/" ≡ "/c/d"
unfolding clean clean_loop
clean_test = refl

join_test : join ("/tmp/root" ∷ "../etc/x" ∷ []) ≡ "/tmp/etc/x"
unfolding join
join_test = refl

dir_test : dir "/etc/llama-stack/key" ≡ "/etc/llama-stack"
unfolding dir
dir_test = refl

base_test : base "/srv/model.gguf" ≡ "model.gguf"
unfolding base
base_test = refl
