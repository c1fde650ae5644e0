-- ===== src/Command/Secrets.antt =====
-- What an interrupted `ensureSecret` of cmd/llama-stack/main.go leaves behind.
use text.Mathlib.TextPositions.{eq_refl}
use llama_stack.Base.{
  ◌≡◌, refl, ap, false, Option, none, some, List, ◌∷◌, String, ok, err, message, ℕ,
}
use Prim.Native.String.{◌++◌ as ◌<>◌}
use llama_stack.Base.Text.{hex_encode}
use llama_stack.Base.Int.{ℤ, pos}
use llama_stack.Base.Actions.{◌>>=◌, resume}
use llama_stack.System.{
  set, chown, Node, Fault, System, Files, call, stat, open_file, write, new_file,
}
use llama_stack.System.View.{content_of}
use llama_stack.Command.Options.{World}
use llama_stack.Command.State.{ensure_secret, write_file}

abbrev broken_file : ℕ → String → Node
broken_file mode part = record {
  directory = false;
  mode = mode;
  uid = pos 0;
  gid = pos 0;
  text = part;
}

-- The failing write on the file that was just opened.
broken_write :
    (path content : String) (mode : ℕ) (files : Files) (fault : Fault) (later : List (Option Fault))
    (processes : List (String × List String))
    → files path ≡ none
    → write_file path content mode
        (record { nodes = files; answers = none ∷ some fault ∷ later; processes = processes })
      ≡ (
        err (message fault.reason),
        record {
          nodes =
              set (set files path (some (new_file mode))) path (some (broken_file mode fault.part));
          answers = later;
          processes = processes;
        },
      )
unfolding call open_file write ◌>>=◌
broken_write path content mode files fault later processes absent =
    rw (absent, open_file, write) (rw (eq_refl path) refl)

module _ (world : World) (path prefix : String) (uid gid : ℤ) (files : Files) (value : List ℕ)
    (fault : Fault) (later : List (Option Fault)) (processes : List (String × List String)) where
  -- The system behind the failing call.
  abbrev pub broken_system : System
  broken_system = record {
    nodes = set (set files path (some (new_file 0x1a0))) path (some (broken_file 0x1a0 fault.part));
    answers = none ∷ later;
    processes = processes;
  }

  broken_once :
      files path ≡ none
      → world.entropy path ≡ ok value
      → ensure_secret world path prefix uid gid (record {
        nodes = files;
        answers = none ∷ none ∷ some fault ∷ none ∷ later;
        processes = processes;
      })
        ≡ (err (message fault.reason), broken_system)
  unfolding ensure_secret call stat ◌>>=◌
  broken_once absent random =
      rw (absent, ensure_secret)
        (rw random (
          ap (λ x. resume x (λ _. chown path uid gid))
            (broken_write path (prefix <> hex_encode value <> "\n") 0x1a0 files fault (none ∷ later)
              processes absent)))

  accepted :
      ensure_secret world path prefix uid gid broken_system
      ≡ (ok tt, record broken_system { answers = later })
  unfolding ensure_secret call stat
  accepted = rw (eq_refl path) refl

-- Where the write of a new secret fails, the file stays with the part that was written, be it
-- empty; the next call takes that file for the secret and succeeds.
pub ensure_secret-broken :
    (world : World) (path prefix : String) (uid gid : ℤ) (files : Files) (value : List ℕ)
    (fault : Fault) (later : List (Option Fault)) (processes : List (String × List String))
    → files path ≡ none
    → world.entropy path ≡ ok value
    → let s : System = record {
      nodes = files;
      answers = none ∷ none ∷ some fault ∷ none ∷ later;
      processes = processes;
    } in
      let first = ensure_secret world path prefix uid gid s in
      let second = ensure_secret world path prefix uid gid first.1 in
      (first.0 ≡ err (message fault.reason))
      × (second.0 ≡ ok tt)
      × (content_of (second.1.nodes path) ≡ some (record { mode = 0x1a0; text = fault.part }))
unfolding ensure_secret call stat open_file write ◌>>=◌
ensure_secret-broken world path prefix uid gid files value fault later processes absent random =
    rw (broken_once world path prefix uid gid files value fault later processes absent random) (
      rw (accepted world path prefix uid gid files value fault later processes)
        (refl, refl, rw (eq_refl path) refl))
