-- ===== src/AgentTools/Workspace.antt =====
-- `identifyWorkspace` and `sanitizeWorkspaceKey` of cmd/llama-stack-agent-tools/main.go.
use Prim.Native.Char.{Char, char, code}
use Prim.Native.String.{String, [], ◌∷◌}
use mathlib.Core.List as L
use llama_stack.Base.{
  ◌≡◌, ◌≢◌, ◌≤◌, ◌⊎◌, refl, sym, ap, Bool, true, false, List, ◌&&◌, ◌||◌, arith, leb, ◌==◌,
  if◌then◌else◌, str_eq, All, Bool-cases, inl, inr, subst, ◌↔◌,
}
use llama_stack.Base.Conditions.{differs, str_eq-false}
use llama_stack.Base.Text.{trim_space}

-- The characters that a key keeps.
abbrev pub is_safe : Char → Bool
is_safe c =
    (leb b'a' (code c) && leb (code c) b'z')
    || (leb b'A' (code c) && leb (code c) b'Z')
    || (leb b'0' (code c) && leb (code c) b'9')
    || code c == b'-'
    || code c == b'_'
    || code c == b'.'

-- The underscore, which replaces every other character.
abbrev pub underscore : Char
underscore = char b'_' tt

-- The loop of `sanitizeWorkspaceKey`.
unfoldable pub replace_unsafe : String → String
replace_unsafe [] = []
replace_unsafe (c ∷ s) =
    let rest = replace_unsafe s in if is_safe c then c ∷ rest else underscore ∷ rest

abbrev pub is_special : String → Bool
is_special key = str_eq key "" || str_eq key "." || str_eq key ".."

unfoldable pub sanitize_workspace_key : String → String
unfolding replace_unsafe
sanitize_workspace_key candidate =
    if is_special (replace_unsafe candidate) then "default" else replace_unsafe candidate

pub record WorkspaceIdentity : Type 0 where
  pub key : String
  pub source : String
  pub found : Bool

abbrev pub identity_headers : List String
identity_headers = List.◌∷◌ "X-Session-Id" (
    List.◌∷◌ "X-User-Id" (
      List.◌∷◌ "X-OpenWebUI-User-Id"
        (List.◌∷◌ "X-Open-WebUI-User-Id" (List.◌∷◌ "X-User-Email" List.[]))))

-- The loop over the headers, with what follows it: the first one that is not blank, or none.
unfoldable pub find_identity : (String → String) → List String → WorkspaceIdentity
unfolding sanitize_workspace_key
find_identity get List.[] = record {
  key = sanitize_workspace_key "default";
  source = "fallback";
  found = false;
}
find_identity get (List.◌∷◌ header headers) =
    let rest = find_identity get headers in
    if str_eq (trim_space (get header)) "" then rest else record {
      key = sanitize_workspace_key (trim_space (get header));
      source = header;
      found = true;
    }

-- `identifyWorkspace`, over the request's headers.
unfoldable pub identify_workspace : (String → String) → WorkspaceIdentity
unfolding find_identity
identify_workspace get = find_identity get identity_headers

abbrev all_safe : String → Bool
all_safe [] = true
all_safe (c ∷ s) = is_safe c && all_safe s

replace_unsafe-safe : (s : String) → all_safe (replace_unsafe s) ≡ true
unfolding replace_unsafe
replace_unsafe-safe [] = refl
replace_unsafe-safe (c ∷ s) = elim (Bool-cases (is_safe c)) [
  | inl e ↦ rw (e, replace_unsafe, e) (replace_unsafe-safe s)
  | inr e ↦ rw (e, replace_unsafe) (replace_unsafe-safe s)
]

replace_unsafe-fixed : (s : String) → all_safe s ≡ true → replace_unsafe s ≡ s
unfolding replace_unsafe
replace_unsafe-fixed [] h = refl
replace_unsafe-fixed (c ∷ s) h = elim (Bool-cases (is_safe c)) [
  | inl e ↦ rw (e, replace_unsafe) (ap (λ t. c ∷ t) (replace_unsafe-fixed s (rw e at h)))
  | inr e ↦ absurd (cc (rw e at h))
]

-- A digit, a letter, or one of `-`, `.` and `_`, by their codes.
abbrev pub IsPortable : Char → Type 0
IsPortable c =
    ((48 ≤ code c) × (code c ≤ 57))
    ⊎ ((65 ≤ code c) × (code c ≤ 90))
    ⊎ ((97 ≤ code c) × (code c ≤ 122))
    ⊎ (code c ≡ 45)
    ⊎ (code c ≡ 46)
    ⊎ (code c ≡ 95)

abbrev pub AllPortable : String → Type 0
AllPortable [] = Unit
AllPortable (c ∷ s) = IsPortable c × AllPortable s

-- The name of one entry of a directory: portable characters, none of them a slash, and neither the
-- directory itself nor its parent.
abbrev pub IsKey : String → Type 0
IsKey key = AllPortable key × (key ≢ "") × (key ≢ ".") × (key ≢ "..")

is_safe-IsPortable : (c : Char) → is_safe c ≡ true → IsPortable c
is_safe-IsPortable c h = ground arith

IsPortable-is_safe : (c : Char) → IsPortable c → is_safe c ≡ true
IsPortable-is_safe c h = ground arith

all_safe-AllPortable : (s : String) → all_safe s ≡ true → AllPortable s
all_safe-AllPortable [] h = tt
all_safe-AllPortable (c ∷ s) h =
    (is_safe-IsPortable c (ground arith), all_safe-AllPortable s (ground arith))

AllPortable-all_safe : (s : String) → AllPortable s → all_safe s ≡ true
AllPortable-all_safe [] h = refl
AllPortable-all_safe (c ∷ s) (safe, rest) =
    rw (IsPortable-is_safe c safe) (AllPortable-all_safe s rest)

IsKey-of : (s : String) → all_safe s ≡ true → is_special s ≡ false → IsKey s
IsKey-of s safe plain = (
  all_safe-AllPortable s safe,
  differs s "" (ground arith),
  differs s "." (ground arith),
  differs s ".." (ground arith),
)

default-IsKey : IsKey "default"
default-IsKey = IsKey-of "default" refl refl

sanitize-IsKey : (s : String) → IsKey (sanitize_workspace_key s)
unfolding sanitize_workspace_key
sanitize-IsKey s = elim (Bool-cases (is_special (replace_unsafe s))) [
  | inl e ↦ rw (e, sanitize_workspace_key) default-IsKey
  | inr e ↦ rw (e, sanitize_workspace_key) (IsKey-of (replace_unsafe s) (replace_unsafe-safe s) e)
]

sanitize-fixed : (s : String) → IsKey s → sanitize_workspace_key s ≡ s
unfolding sanitize_workspace_key
sanitize-fixed s (portable, filled, here, up) =
    let same : replace_unsafe s ≡ s = replace_unsafe-fixed s (AllPortable-all_safe s portable) in
    let plain : is_special s ≡ false =
      rw (str_eq-false s "" filled, str_eq-false s "." here, str_eq-false s ".." up) refl in
    subst (λ x. (if is_special x then "default" else x) ≡ s) (sym same) (rw plain refl)

-- Every sanitised key consists of digits, letters, `-`, `.` and `_`, and is neither empty nor `.`
-- nor `..`, so it names an entry inside the workspaces' directory; and sanitising changes exactly
-- the texts that are not such a key.
pub sanitize_workspace_key-IsKey :
    (s : String) → IsKey (sanitize_workspace_key s) × (IsKey s ↔ (sanitize_workspace_key s ≡ s))
sanitize_workspace_key-IsKey s =
    (sanitize-IsKey s, (sanitize-fixed s, λ e. subst IsKey e (sanitize-IsKey s)))

module _ (get : String → String) where
  abbrev pub is_blank : String → Bool
  is_blank header = str_eq (trim_space (get header)) ""

  -- The identity is the trimmed value of a header, and all headers before it are blank.
  pub record IsFirst (headers : List String) (identity : WorkspaceIdentity) : Type 0 where
    pub skipped : List String
    pub header : String
    pub left : List String
    pub order : headers ≡ L.◌++◌ skipped (List.◌∷◌ header left)
    pub blank : All (λ h. is_blank h ≡ true) skipped
    pub filled : is_blank header ≡ false
    pub keyed : identity.key ≡ sanitize_workspace_key (trim_space (get header))
    pub sourced : identity.source ≡ header
    pub known : identity.found ≡ true

  -- All headers are blank, and the identity is the default.
  pub record IsFallback (headers : List String) (identity : WorkspaceIdentity) : Type 0 where
    pub blank : All (λ h. is_blank h ≡ true) headers
    pub keyed : identity.key ≡ "default"
    pub unknown : identity.found ≡ false

  later :
      (header : String) (headers : List String) (identity : WorkspaceIdentity)
      → is_blank header ≡ true
      → IsFirst headers identity ⊎ IsFallback headers identity
      → IsFirst (List.◌∷◌ header headers) identity ⊎ IsFallback (List.◌∷◌ header headers) identity
  later header headers identity e (inl f) = inl (record {
    skipped = List.◌∷◌ header f.skipped;
    header = f.header;
    left = f.left;
    order = ap (λ l. List.◌∷◌ header l) f.order;
    blank = (e, f.blank);
    filled = f.filled;
    keyed = f.keyed;
    sourced = f.sourced;
    known = f.known;
  })
  later header headers identity e (inr f) =
      inr (record { blank = (e, f.blank); keyed = f.keyed; unknown = f.unknown })

  find_identity-IsFirst :
      (headers : List String)
      → IsFirst headers (find_identity get headers) ⊎ IsFallback headers (find_identity get headers)
  unfolding find_identity
  find_identity-IsFirst List.[] =
      inr (record { blank = tt; keyed = sanitize-fixed "default" default-IsKey; unknown = refl })
  find_identity-IsFirst (List.◌∷◌ header headers) = elim (Bool-cases (is_blank header)) [
    | inl e ↦
        rw (e, find_identity)
          (later header headers (find_identity get headers) e (find_identity-IsFirst headers))
    | inr e ↦
        rw (e, find_identity)
          (inl (record {
            skipped = List.[];
            header = header;
            left = headers;
            order = refl;
            blank = tt;
            filled = e;
            keyed = refl;
            sourced = refl;
            known = refl;
          }))
  ]

  find_identity-IsKey : (headers : List String) → IsKey (find_identity get headers).key
  find_identity-IsKey headers = elim (find_identity-IsFirst headers) [
    | inl f ↦ subst IsKey (sym f.keyed) (sanitize-IsKey (trim_space (get f.header)))
    | inr f ↦ subst IsKey (sym f.keyed) default-IsKey
  ]

-- Whatever headers a request forwards, the key of its workspace names an entry inside the
-- workspaces' directory. It is the sanitised value of the first of the five identity headers that
-- is not blank, which the identity names as its source; where all are blank the key is "default"
-- and no identity is found.
pub identify_workspace-IsKey :
    (get : String → String)
    → IsKey (identify_workspace get).key
      × (IsFirst get identity_headers (identify_workspace get)
          ⊎ IsFallback get identity_headers (identify_workspace get))
unfolding identify_workspace
identify_workspace-IsKey get =
    (find_identity-IsKey get identity_headers, find_identity-IsFirst get identity_headers)
