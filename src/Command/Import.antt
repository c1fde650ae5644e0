-- ===== src/Command/Import.antt =====
-- What `addLocalModel` of cmd/llama-stack/main.go leaves of the files.
use Prim.Native.String.{len}
use llama_stack.Base.{
  ◌≡◌, refl, sym, ap, ◌∙◌, subst, false, not, Option, none, some, String, Result, ok, err, Failure,
  message, [], ◌∷◌, ==_iff, ◌⊎◌, inl, inr, is_ok, Bool-cases, Result-cases, if◌then◌else◌, ◌==◌,
  str_eq, eq_iff,
}
use llama_stack.Base.Int.{ℤ}
use llama_stack.Base.Actions.{◌>>=◌, resume, done, clean_up, on_failure, lift, fail}
use llama_stack.Base.Split.{has_suffix_fold}
use llama_stack.Config.{Config}
use llama_stack.System.{
  Node, Files, System, Io, set, new_file, chown, chmod, read_file, flush, rename, remove, start,
}
use llama_stack.System.View.{call_cases}
use llama_stack.System.Holding.{
  Holds, HoldsSome, set_twice, set_same, chmod_holds, chown_holds, write_holds, flush_holds,
  rename_holds, create_temp_holds, read_file_holds, stat_holds,
}
use llama_stack.Command.Options.{World}
use llama_stack.Command.State.{service_identity}
use llama_stack.Command.Models.{
  absolute, add_local_model, add_model, add_file, register, import_model, copy_model, finish_import,
  destination_of, vacant, model_suffix,
}

apart : (a b : String) → str_eq a b ≡ false → str_eq b a ≡ false
apart a b other = elim (Bool-cases (str_eq b a)) [
  | inr h ↦ h
  | inl same ↦ absurd (cc ((eq_iff a b).1 (sym ((eq_iff b a).0 same))))
]

abbrev text_of : Option Node → String
text_of none = ""
text_of (some n) = n.text

module _ (world : World) (cfg : Config) (before : Files) (source : String) where
  -- The model stands in managed storage, where nothing was, and no other file has changed.
  pub record IsImported (out : Result (Unit {0}) × System) : Type 0 where
    pub vacant : before (destination_of world cfg source) ≡ none
    pub original : Node
    pub given : before source ≡ some original
    pub stored : Node
    pub copied : stored.text ≡ original.text
    pub readable : stored.mode ≡ 0x1a0
    pub owned : service_identity world cfg.stack.user ≡ ok (stored.uid, stored.gid)
    pub placed : out.1.nodes ≡ set before (destination_of world cfg source) (some stored)

  -- All files are as they were, and the command has failed unless the model is its own source.
  pub record IsRefused (out : Result (Unit {0}) × System) : Type 0 where
    pub kept : out.1.nodes ≡ before
    pub reported : (is_ok out.0 ≡ false) ⊎ (source ≡ destination_of world cfg source)

  abbrev pub Outcome : Result (Unit {0}) × System → Type 0
  Outcome out = IsRefused out ⊎ IsImported out

  refused : (e : Failure) (t : System) → t.nodes ≡ before → Outcome (err e, t)
  refused e t same = inl (record { kept = same; reported = inl refl })

  module _ (tmp : String) (free : before tmp ≡ none)
      (other : str_eq (destination_of world cfg source) tmp ≡ false)
      (vacant : before (destination_of world cfg source) ≡ none) (original : Node)
      (given : before source ≡ some original) where
    abbrev destination : String
    destination = destination_of world cfg source

    dropped :
        (e : Failure) (t : System)
        → HoldsSome before tmp t
        → Outcome (clean_up (remove tmp) (err e, t))
    dropped e t (n, h) = refused e (remove tmp t) (
        ap (λ f. set f tmp none) h
        ∙ (set_twice before tmp (some n) none ∙ set_same before tmp none free))

    -- What is left of `finish_import` behind each of its calls.
    abbrev restarting : Io (Unit {0})
    restarting = start "systemctl" ("try-reload-or-restart" ∷ "llama-server.service" ∷ [])

    abbrev placing : Io (Unit {0})
    placing = rename tmp destination >>= λ _. restarting

    abbrev owning : ℤ × ℤ → Io (Unit {0})
    owning owner = chown tmp owner.0 owner.1 >>= λ _. placing

    abbrev identifying : Io (Unit {0})
    identifying = lift (service_identity world cfg.stack.user) >>= owning

    abbrev closing : Io (Unit {0})
    closing = flush >>= λ _. identifying

    abbrev protecting : Io (Unit {0})
    protecting = chmod tmp 0x1a0 >>= λ _. closing

    -- The model is in its place, whether or not the server restarts.
    restarted :
        (stored : Node) (t : System)
        → stored.text ≡ original.text
        → stored.mode ≡ 0x1a0
        → service_identity world cfg.stack.user ≡ ok (stored.uid, stored.gid)
        → t.nodes ≡ set before destination (some stored)
        → Outcome (clean_up (remove tmp) (restarting t))
    unfolding start
    restarted stored t copied readable owned placed =
        call_cases (λ x. Outcome (clean_up (remove tmp) x)) _ _ t
          (λ fault rest. inr (record {
            vacant = vacant;
            original = original;
            given = given;
            stored = stored;
            copied = copied;
            readable = readable;
            owned = owned;
            placed =
                ap (λ f. set f tmp none) placed
                ∙ set_same (set before destination (some stored)) tmp none
                    (rw (apart destination tmp other) free);
          }))
          (λ rest. inr (record {
            vacant = vacant;
            original = original;
            given = given;
            stored = stored;
            copied = copied;
            readable = readable;
            owned = owned;
            placed = placed;
          }))

    identified :
        (n : Node) (t : System)
        → n.text ≡ original.text
        → n.mode ≡ 0x1a0
        → Holds before tmp n t
        → Outcome (clean_up (remove tmp) (identifying t))
    unfolding ◌>>=◌
    identified n t copied readable h = elim (Result-cases (service_identity world cfg.stack.user)) [
      | inr (e, unknown) ↦ rw (unknown, ◌>>=◌) (dropped e t (n, h))
      | inl (owner, known) ↦
          rw (known, ◌>>=◌)
            (chown_holds (λ x. Outcome (clean_up (remove tmp) (resume x (λ _. placing)))) before tmp
              n t h dropped owner.0 owner.1
              (λ t h.
                rename_holds (λ x. Outcome (clean_up (remove tmp) (resume x (λ _. restarting))))
                  before tmp _ t h dropped destination free vacant other
                  (λ t placed.
                    restarted (record n { uid = owner.0; gid = owner.1 }) t copied readable known
                      placed)))
    ]

    finished :
        (n : Node) (t : System)
        → n.text ≡ original.text
        → Holds before tmp n t
        → Outcome (clean_up (remove tmp) (finish_import world cfg tmp destination t))
    unfolding ◌>>=◌
    finished n t copied h =
        flush_holds (λ x. Outcome (clean_up (remove tmp) (resume x (λ _. protecting)))) before tmp n
          t h dropped
          (λ t h.
            chmod_holds (λ x. Outcome (clean_up (remove tmp) (resume x (λ _. closing)))) before tmp
              n t h dropped 0x1a0
              (λ t h.
                flush_holds (λ x. Outcome (clean_up (remove tmp) (resume x (λ _. identifying))))
                  before tmp _ t h dropped (λ t h. identified _ t copied refl h)))

    copied_model :
        (t : System)
        → Holds before tmp (new_file 0x180) t
        → Outcome
            (clean_up (remove tmp) (copy_model world cfg original original.text tmp destination t))
    unfolding ◌>>=◌
    copied_model t h =
        write_holds
          (λ x. Outcome (
            clean_up (remove tmp) (
              resume x (λ _.
                if not (len original.text == len original.text)
                then fail (message "short model copy")
                else finish_import world cfg tmp destination))))
          before tmp (new_file 0x180) t h dropped original.text
          (λ t h.
            rw ((==_iff (len original.text) (len original.text)).1 refl) (finished _ t refl h))

  -- The name of the temporary file is free, and is not that of the model.
  module _ (free : before (world.pick before cfg.paths.models ".model-*.gguf") ≡ none)
      (other : str_eq
          (destination_of world cfg source)
          (world.pick before cfg.paths.models ".model-*.gguf")
        ≡ false) where
    abbrev target : String
    target = destination_of world cfg source

    register-Outcome :
        (original : Node) (s : System)
        → before source ≡ some original
        → s.nodes ≡ before
        → Outcome (register world cfg original source target s)
    unfolding ◌>>=◌
    register-Outcome original s given same =
        stat_holds before s same
          (λ x. Outcome (
            vacant world cfg x
              (read_file source >>= λ content. import_model world cfg original content target)))
          target (λ reason t h. refused _ t h)
          (λ t absent h.
            read_file_holds before t h
              (λ x. Outcome (resume x (λ content. import_model world cfg original content target)))
              source (λ e t h. refused e t h)
              (λ n t found h.
                subst (λ c. Outcome (import_model world cfg original c target t))
                  (ap text_of (sym given ∙ found))
                  (create_temp_holds before t h
                    (λ x. Outcome (
                      resume x (λ tmp.
                        on_failure (remove tmp)
                          (copy_model world cfg original original.text tmp target))))
                    world.pick cfg.paths.models ".model-*.gguf" (λ e t h. refused e t h)
                    (λ t h. copied_model _ free other absent original given t h))))
          (λ n t there h. refused _ t h)

    -- What `addLocalModel` does behind `os.Stat`.
    abbrev found_file : Node → Io (Unit {0})
    found_file info =
        if info.directory
        then fail (message "model source is not a regular file")
        else if str_eq source target
        then done tt
        else register world cfg info source target

    add_file-Outcome : (s : System) → s.nodes ≡ before → Outcome (add_file world cfg source s)
    unfolding ◌>>=◌
    add_file-Outcome s same =
        stat_holds before s same (λ x. Outcome (resume x found_file)) source
          (λ reason t h. refused _ t h) (λ t absent h. refused _ t h)
          (λ n t there h. elim (Bool-cases n.directory) [
            | inl folder ↦ rw (folder, found_file) (refused _ t h)
            | inr plain_file ↦ elim (Bool-cases (str_eq source target)) [
              | inl same_file ↦
                  rw (plain_file, same_file, found_file)
                    (inl (record { kept = h; reported = inr ((eq_iff source target).0 same_file) }))
              | inr distinct ↦ rw (plain_file, distinct, found_file) (register-Outcome n t there h)
            ]
          ])

    add_model-Outcome : (s : System) → s.nodes ≡ before → Outcome (add_model world cfg source s)
    unfolding add_model
    add_model-Outcome s same = elim (Bool-cases (has_suffix_fold source model_suffix)) [
      | inr unsuited ↦ rw (unsuited, add_model) (refused _ s same)
      | inl suited ↦ rw (suited, add_model) (add_file-Outcome s same)
    ]

-- `addLocalModel` imports the model or changes no file at all: where it fails no temporary file is
-- left, and a registered model is never replaced. It succeeds only if the model is now in its
-- place; an imported model has the text of its source, its mode and the service account as owner.
-- The name of the temporary file is free and is not that of the model.
pub add_local_model-Outcome :
    (world : World) (cfg : Config) (cwd argument : String) (s : System)
    → s.nodes (world.pick s.nodes cfg.paths.models ".model-*.gguf") ≡ none
    → str_eq
        (destination_of world cfg (absolute cwd argument))
        (world.pick s.nodes cfg.paths.models ".model-*.gguf")
      ≡ false
    → Outcome world cfg s.nodes (absolute cwd argument) (add_local_model world cfg cwd argument s)
unfolding add_local_model
add_local_model-Outcome world cfg cwd argument s free other =
    add_model-Outcome world cfg s.nodes (absolute cwd argument) free other s refl
