-- ===== src/System.antt =====
-- The files and the processes of the host, as cmd/llama-stack and internal/render change them by
-- Go's `os` and `os/exec`. A file is known by the path that the source spells; links and the umask
-- are left out.
pub mod View
pub mod Holding
pub mod Kept
use llama_stack.Base.{
  ℕ, Bool, true, false, not, ◌&&◌, ◌||◌, Option, none, some, List, [], ◌∷◌, String, Result, ok, err,
  Failure, message, not_exist, wrapped, if◌then◌else◌, str_eq, any,
}
use llama_stack.Base.Int.{ℤ, pos}
use llama_stack.Base.Text.{has_prefix}
use llama_stack.Base.FilePath.{segments}
use llama_stack.Base.Actions.{Action}
use Prim.Native.String.{◌++◌}

-- A file or a directory.
pub record Node : Type 0 where
  pub directory : Bool
  pub mode : ℕ
  pub uid : ℤ
  pub gid : ℤ
  pub text : String

-- Why a call of the system fails, and how much of its data a failing write leaves.
pub record Fault : Type 0 where
  pub reason : String
  pub part : String

-- `answers` says of each later call whether it fails; behind its end no call does. The processes
-- that were started stand last one first.
pub record System : Type 0 where
  pub nodes : String → Option Node
  pub answers : List (Option Fault)
  pub processes : List (String × List String)

abbrev pub Io : Type 0 → Type 0
Io A = Action System A

abbrev pub Files : Type 0
Files = String → Option Node

abbrev pub set : Files → String → Option Node → Files
set nodes path node q = if str_eq q path then node else nodes q

abbrev pub answered : {A : Type 0} → List (Option Fault) → (Fault → Io A) → Io A → Io A
answered [] broken works s = works s
answered (none ∷ rest) broken works s = works (record s { answers = rest })
answered (some fault ∷ rest) broken works s = broken fault (record s { answers = rest })

-- A call that fails by a fault, and then does what `broken` says, or else works.
unfoldable pub call : {A : Type 0} → (Fault → Io A) → Io A → Io A
call broken works s = answered s.answers broken works s

abbrev pub nothing : {A : Type 0} → Fault → Io A
nothing fault s = (err (message fault.reason), s)

-- A call that changes nothing where it fails.
abbrev pub plain : {A : Type 0} → Io A → Io A
plain = call nothing

abbrev pub put : String → Option Node → System → System
put path node s = record s { nodes = set s.nodes path node }

-- A change of the node that is there.
abbrev pub amend : Option Node → (Node → Node) → String → Io (Unit {0})
amend none f path s = (err not_exist, s)
amend (some n) f path s = (ok tt, put path (some (f n)) s)

abbrev contents : Option Node → Result String
contents none = err not_exist
contents (some n) = if n.directory then err (message "is a directory") else ok n.text

-- `os.ReadFile`.
unfoldable pub read_file : String → Io String
unfolding call
read_file path = plain (λ s. (contents (s.nodes path), s))

abbrev found : Option Node → Result Node
found none = err not_exist
found (some n) = ok n

-- `os.Stat` and `os.Lstat`.
unfoldable pub stat : String → Io Node
unfolding call
stat path = plain (λ s. (found (s.nodes path), s))

unfoldable pub chown : String → ℤ → ℤ → Io (Unit {0})
unfolding call
chown path uid gid =
    plain (λ s. amend (s.nodes path) (λ n. record n { uid = uid; gid = gid }) path s)

unfoldable pub chmod : String → ℕ → Io (Unit {0})
unfolding call
chmod path mode = plain (λ s. amend (s.nodes path) (λ n. record n { mode = mode }) path s)

abbrev prefixes : String → List String → List String
prefixes front [] = []
prefixes front (s ∷ rest) = (front ++ "/" ++ s) ∷ prefixes (front ++ "/" ++ s) rest

abbrev relative_prefixes : List String → List String
relative_prefixes [] = []
relative_prefixes (s ∷ rest) = s ∷ prefixes s rest

-- A path with the directories above it.
unfoldable pub ancestors : String → List String
unfolding segments has_prefix
ancestors path =
    if has_prefix path "/" then prefixes "" (segments path) else relative_prefixes (segments path)

abbrev pub is_file : Option Node → Bool
is_file none = false
is_file (some n) = not n.directory

abbrev new_directory : ℕ → Node
new_directory mode = record { directory = true; mode = mode; uid = pos 0; gid = pos 0; text = "" }

abbrev with_directory : Option Node → Bool → ℕ → Option Node
with_directory (some n) wanted mode = some n
with_directory none wanted mode = if wanted then some (new_directory mode) else none

-- `os.MkdirAll`.
unfoldable pub mkdir_all : String → ℕ → Io (Unit {0})
unfolding call ancestors
mkdir_all path mode = plain (λ s.
    if any (λ p. is_file (s.nodes p)) (ancestors path)
    then (err (message "not a directory"), s)
    else (
      ok tt,
      record s {
        nodes = λ q. with_directory (s.nodes q) (any (λ p. str_eq q p) (ancestors path)) mode;
      },
    ))

abbrev pub new_file : ℕ → Node
new_file mode = record { directory = false; mode = mode; uid = pos 0; gid = pos 0; text = "" }

-- `os.CreateTemp`; `pick` is the name that it finds for a directory and a pattern.
unfoldable pub create_temp : (Files → String → String → String) → String → String → Io String
unfolding call
create_temp pick directory pattern = plain (λ s. (
  ok (pick s.nodes directory pattern),
  put (pick s.nodes directory pattern) (some (new_file 0x180)) s,
))

-- `Write` on an open file: a failing one leaves a part of the data.
unfoldable pub write : String → String → Io (Unit {0})
unfolding call
write path content =
    call
      (λ fault s. (
        err (message fault.reason),
        (amend (s.nodes path) (λ n. record n { text = fault.part }) path s).1,
      ))
      (λ s. (ok tt, (amend (s.nodes path) (λ n. record n { text = content }) path s).1))

-- `Sync` and `Close` on an open file.
unfoldable pub flush : Io (Unit {0})
unfolding call
flush = plain (λ s. (ok tt, s))

abbrev pub is_directory : Option Node → Bool
is_directory none = false
is_directory (some n) = n.directory

abbrev moved : Option Node → Bool → String → String → Io (Unit {0})
moved none taken old new s = (err not_exist, s)
moved (some n) true old new s = (err (message "file exists"), s)
moved (some n) false old new s = (ok tt, put new (some n) (put old none s))

-- `os.Rename`.
unfoldable pub rename : String → String → Io (Unit {0})
unfolding call
rename old new = plain (λ s. moved (s.nodes old) (is_directory (s.nodes new)) old new s)

-- `os.Remove`, where its error is ignored.
abbrev pub remove : String → System → System
remove path s = put path none s

abbrev opened : Option Node → ℕ → String → Io (Unit {0})
opened none mode path s = (ok tt, put path (some (new_file mode)) s)
opened (some n) mode path s =
    if n.directory
    then (err (message "is a directory"), s)
    else (ok tt, put path (some (record n { text = "" })) s)

-- The opening of `os.WriteFile`: an old file is emptied and keeps its mode and owner.
unfoldable pub open_file : String → ℕ → Io (Unit {0})
unfolding call
open_file path mode = plain (λ s. opened (s.nodes path) mode path s)

-- A process, which the host starts whether or not it succeeds.
unfoldable pub start : String → List String → Io (Unit {0})
unfolding call
start command args =
    call
      (λ fault s.
        (err (message fault.reason), record s { processes = (command, args) ∷ s.processes }))
      (λ s. (ok tt, record s { processes = (command, args) ∷ s.processes }))

-- `fmt.Errorf` around an error.
abbrev pub explain : {A : Type 0} → String → Result A × System → Result A × System
explain note (ok a, s) = (ok a, s)
explain note (err e, s) = (err (wrapped note e), s)

abbrev pub context : {A : Type 0} → String → Io A → Io A
context note m s = explain note (m s)
