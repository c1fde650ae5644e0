-- ===== src/Base/Split.antt =====
-- More of Go's `strings`: cutting texts apart and joining them.
use Prim.Native.Nat.{ℕ, zero, suc, ◌+◌, ◌-◌, ◌*◌, ◌^◌}
use Prim.Native.Char.{Char, code}
use Prim.Native.String.{String, [], ◌∷◌, ◌++◌}
use mathlib.Core.Path.{◌≡◌, refl}
use mathlib.Core.Bool.{Bool, true, false, ◌&&◌, ◌||◌}
use mathlib.Core.Option.{Option, none, some}
use mathlib.Core.List.{List}
use llama_stack.Base.Tests.{ltb, leb, ◌==◌, if◌then◌else◌}
use llama_stack.Base.Int.{ℤ, pos, negsuc}
use llama_stack.Base.Text.{has_prefix}

-- A character in front of the first part.
abbrev pub extend_first : Char → List String → List String
extend_first c List.[] = List.◌∷◌ (c ∷ []) List.[]
extend_first c (List.◌∷◌ s parts) = List.◌∷◌ (c ∷ s) parts

-- `strings.Split`, at a separator of one character.
unfoldable pub split : ℕ → String → List String
split n [] = List.◌∷◌ [] List.[]
split n (c ∷ s) =
    let parts = split n s in if code c == n then List.◌∷◌ [] parts else extend_first c parts

abbrev pub extend_pair : Char → Option (String × String) → Option (String × String)
extend_pair c none = none
extend_pair c (some (s, t)) = some (c ∷ s, t)

-- `strings.Cut`, at a separator of one character; `none` says that it was not found.
unfoldable pub cut : ℕ → String → Option (String × String)
cut n [] = none
cut n (c ∷ s) = let rest = cut n s in if code c == n then some ([], s) else extend_pair c rest

-- The first result of `strings.Cut`.
abbrev pub before : ℕ → String → String
before n s = elim (cut n s) [ none ↦ s | some (a, b) ↦ a ]

-- `strings.Join`.
unfoldable pub join_with : String → List String → String
join_with sep List.[] = []
join_with sep (List.◌∷◌ s List.[]) = s
join_with sep (List.◌∷◌ s (List.◌∷◌ t parts)) = s ++ sep ++ join_with sep (List.◌∷◌ t parts)

-- `strings.Contains`.
unfoldable pub contains_text : String → String → Bool
unfolding has_prefix
contains_text [] fragment = has_prefix [] fragment
contains_text (c ∷ s) fragment = has_prefix (c ∷ s) fragment || contains_text s fragment

unfoldable pub trim_left_char : ℕ → String → String
trim_left_char n [] = []
trim_left_char n (c ∷ s) = if code c == n then trim_left_char n s else c ∷ s

abbrev pub end_cons : ℕ → Char → String → String
end_cons n c [] = if code c == n then [] else c ∷ []
end_cons n c (d ∷ s) = c ∷ d ∷ s

unfoldable pub trim_right_char : ℕ → String → String
trim_right_char n [] = []
trim_right_char n (c ∷ s) = end_cons n c (trim_right_char n s)

-- `strings.Trim`, of one character.
abbrev pub trim_char : ℕ → String → String
trim_char n s = trim_right_char n (trim_left_char n s)

-- `unicode.ToLower` of a letter of ASCII.
abbrev pub lower : ℕ → ℕ
lower n = if leb 65 n && leb n 90 then n + 32 else n

unfoldable pub same_fold : String → String → Bool
same_fold [] [] = true
same_fold [] (d ∷ t) = false
same_fold (c ∷ s) [] = false
same_fold (c ∷ s) (d ∷ t) = lower (code c) == code d && same_fold s t

-- `strings.HasSuffix(strings.ToLower(s), suffix)`, for a suffix of ASCII without `i` and `k`, the
-- letters that are also the lower case of characters outside ASCII.
unfoldable pub has_suffix_fold : String → String → Bool
unfolding same_fold
has_suffix_fold [] suffix = same_fold [] suffix
has_suffix_fold (c ∷ s) suffix = same_fold (c ∷ s) suffix || has_suffix_fold s suffix

-- The value of decimal digits behind those read so far.
unfoldable pub digits : ℕ → String → Option ℕ
digits n [] = some n
digits n (c ∷ s) =
    if leb b'0' (code c) && leb (code c) b'9' then digits (n * 10 + (code c - b'0')) s else none

abbrev signed : Bool → Option ℕ → Option ℤ
signed negative none = none
signed false (some n) = if ltb n (2 ^ 63) then some (pos n) else none
signed true (some zero) = some (pos 0)
signed true (some (suc n)) = if ltb n (2 ^ 63) then some (negsuc n) else none

-- `strconv.Atoi`, without its error.
unfoldable pub atoi : String → Option ℤ
unfolding digits
atoi [] = none
atoi (c ∷ []) = signed false (digits 0 (c ∷ []))
atoi (c ∷ d ∷ s) =
    if code c == b'-'
    then signed true (digits 0 (d ∷ s))
    else if code c == b'+'
    then signed false (digits 0 (d ∷ s))
    else signed false (digits 0 (c ∷ d ∷ s))

split_test : split b'/' "a/b//" ≡ List.◌∷◌ "a" (List.◌∷◌ "b" (List.◌∷◌ "" (List.◌∷◌ "" List.[])))
unfolding split
split_test = refl

cut_test : cut b'=' "ID=a=b" ≡ some ("ID", "a=b")
unfolding cut
cut_test = refl

suffix_test : has_suffix_fold "Model.GGUF" ".gguf" ≡ true
unfolding has_suffix_fold
suffix_test = refl

atoi_test : atoi "-1207" ≡ some (negsuc 1206)
unfolding atoi
atoi_test = refl
