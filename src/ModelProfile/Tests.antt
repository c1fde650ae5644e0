-- ===== src/ModelProfile/Tests.antt =====
-- The theorem on `matchingProfile`, applied to a small catalog.
use llama_stack.Base.{◌≡◌, refl, Bool, none, some, List, [], ◌∷◌, String, Result, ok, str_eq, total}
use llama_stack.Base.Weights.{indicator}
use llama_stack.ModelProfile.{Profile, match_loop, matching_profile}
use llama_stack.ModelProfile.Matching.{Fits, count_of, fits, matching_profile_unique}

-- Patterns without special characters match themselves.
abbrev literally : String → String → Result Bool
literally pattern name = ok (str_eq pattern name)

abbrev profile : String → Profile
profile name = record {
  name = name;
  model_glob = name;
  chat_template_file = "/usr/share/template";
  kwargs = none;
}

abbrev catalog : List Profile
catalog = profile "a.gguf" ∷ profile "b.gguf" ∷ []

matched : matching_profile literally catalog "b.gguf" ≡ ok (some (profile "b.gguf"))
unfolding matching_profile match_loop
matched = refl

matching_profile_unique_example :
    (total (indicator (fits literally "b.gguf")) catalog ≡ count_of (some (profile "b.gguf")))
    × Fits literally "b.gguf" (some (profile "b.gguf"))
matching_profile_unique_example =
    matching_profile_unique literally catalog "b.gguf" (some (profile "b.gguf")) matched
