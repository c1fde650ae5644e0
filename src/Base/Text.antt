-- ===== src/Base/Text.antt =====
-- The part of Go's `strings` and `strconv` that the source uses, over native texts.
use Prim.Native.Nat.{ℕ, zero, suc, ◌/◌, ◌%◌}
use Prim.Native.Char.{Char, code}
use Prim.Native.String.{String, [], ◌∷◌, ◌++◌}
use mathlib.Core.Path.{◌≡◌, refl}
use mathlib.Core.Bool.{Bool, true, false, ◌&&◌, ◌||◌}
use mathlib.Core.Option.{Option, none, some}
use mathlib.Core.List.{List}
use llama_stack.Base.Tests.{ltb, leb, ◌==◌, if◌then◌else◌}
use llama_stack.Base.Int.{ℤ, pos, negsuc}

-- `unicode.IsSpace`.
unfoldable pub is_space : Char → Bool
is_space c =
    (leb 9 (code c) && leb (code c) 13)
    || code c == 32
    || code c == 0x85
    || code c == 0xa0
    || code c == 0x1680
    || (leb 0x2000 (code c) && leb (code c) 0x200a)
    || code c == 0x2028
    || code c == 0x2029
    || code c == 0x202f
    || code c == 0x205f
    || code c == 0x3000

unfoldable pub trim_left : String → String
trim_left [] = []
trim_left (c ∷ s) = if is_space c then trim_left s else c ∷ s

-- A character in front of a trimmed rest.
abbrev pub trim_cons : Char → String → String
trim_cons c [] = if is_space c then [] else c ∷ []
trim_cons c (d ∷ s) = c ∷ d ∷ s

unfoldable pub trim_right : String → String
trim_right [] = []
trim_right (c ∷ s) = trim_cons c (trim_right s)

-- `strings.TrimSpace`.
unfoldable pub trim_space : String → String
unfolding trim_left trim_right is_space
trim_space s = trim_right (trim_left s)

-- `strings.HasPrefix` and `strings.TrimPrefix` in one: the rest behind a prefix.
unfoldable pub strip_prefix : String → String → Option String
strip_prefix [] s = some s
strip_prefix (c ∷ p) [] = none
strip_prefix (c ∷ p) (d ∷ s) = if code c == code d then strip_prefix p s else none

abbrev pub or_else {ℓ} : {A : Type ℓ} → Option A → A → A
or_else none d = d
or_else (some a) d = a

abbrev pub is_some {ℓ} : {A : Type ℓ} → Option A → Bool
is_some none = false
is_some (some a) = true

unfoldable pub has_prefix : String → String → Bool
unfolding strip_prefix
has_prefix s p = is_some (strip_prefix p s)

unfoldable pub trim_prefix : String → String → String
unfolding strip_prefix
trim_prefix s p = or_else (strip_prefix p s) s

unfoldable pub contains_char : ℕ → String → Bool
contains_char n [] = false
contains_char n (c ∷ s) = code c == n || contains_char n s

abbrev digit : ℕ → String
digit zero = "0"
digit (suc zero) = "1"
digit (suc (suc zero)) = "2"
digit (suc (suc (suc zero))) = "3"
digit (suc (suc (suc (suc zero)))) = "4"
digit (suc (suc (suc (suc (suc zero))))) = "5"
digit (suc (suc (suc (suc (suc (suc zero)))))) = "6"
digit (suc (suc (suc (suc (suc (suc (suc zero))))))) = "7"
digit (suc (suc (suc (suc (suc (suc (suc (suc zero)))))))) = "8"
digit _ = "9"

-- A number has no more digits than its own value, plus one.
decimal : ℕ → ℕ → String
decimal zero n = ""
decimal (suc f) n = elim (ltb n 10) [
  | true ↦ digit n
  | false ↦ decimal f (n / 10) ++ digit (n % 10)
]

-- `strconv.Itoa`.
unfoldable pub itoa : ℤ → String
unfolding decimal
itoa (pos n) = decimal (suc n) n
itoa (negsuc n) = "-" ++ decimal (suc (suc n)) (suc n)

abbrev hex_digit : ℕ → String
hex_digit n =
    if ltb n 10
    then digit n
    else if n == 10
    then "a"
    else if n == 11
    then "b"
    else if n == 12
    then "c"
    else if n == 13
    then "d"
    else if n == 14
    then "e"
    else "f"

-- `hex.EncodeToString`, over bytes.
unfoldable pub hex_encode : List ℕ → String
hex_encode List.[] = ""
hex_encode (List.◌∷◌ b bs) = hex_digit (b / 16) ++ hex_digit (b % 16) ++ hex_encode bs

-- `net.JoinHostPort`.
unfoldable pub join_host_port : String → String → String
unfolding contains_char
join_host_port host port =
    if contains_char b':' host then "[" ++ host ++ "]:" ++ port else host ++ ":" ++ port

itoa_test : itoa (pos 8090) ≡ "8090"
unfolding itoa
itoa_test = refl
