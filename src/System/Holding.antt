-- ===== src/System/Holding.antt =====
-- The calls on a temporary file, followed exactly: all files but that one stay as they were.
use llama_stack.Base.{
  ℕ, ◌≡◌, refl, sym, ap, ◌∙◌, subst, fun_ext, false, Option, none, some, String, Result, ok, err,
  Failure, message, not_exist, str_eq, eq_iff, Bool-cases, inl, inr, Option-cases,
}
use llama_stack.Base.Int.{ℤ}
use text.Mathlib.TextPositions.{eq_refl}
use llama_stack.System.{
  Node, System, Files, set, amend, moved, chmod, chown, write, flush, rename, create_temp, new_file,
  is_directory, stat, read_file, contents, found,
}
use llama_stack.System.View.{call_cases}

pub set_twice :
    (files : Files) (path : String) (m n : Option Node)
    → set (set files path m) path n ≡ set files path n
set_twice files path m n =
    fun_ext
      λ q. elim (Bool-cases (str_eq q path)) [ inl same ↦ rw same refl | inr other ↦ rw other refl ]

-- Nothing changes where a node is put that is there.
pub set_same :
    (files : Files) (path : String) (n : Option Node) → files path ≡ n → set files path n ≡ files
set_same files path n there = fun_ext λ q. elim (Bool-cases (str_eq q path)) [
  | inl same ↦ rw ((eq_iff q path).0 same) (rw (eq_refl path) (sym there))
  | inr other ↦ rw other refl
]

-- Beside the files of `before` there is the file `n` at `tmp`.
abbrev pub Holds : Files → String → Node → System → Type 0
Holds before tmp n t = t.nodes ≡ set before tmp (some n)

-- Beside the files of `before` there is some file at `tmp`.
abbrev pub HoldsSome : Files → String → System → Type 0
HoldsSome before tmp t = (n : Node) × Holds before tmp n t

there :
    (before : Files) (tmp : String) (n : Node) (t : System)
    → Holds before tmp n t
    → t.nodes tmp ≡ some n
there before tmp n t h = ap (λ f. f tmp) h ∙ (rw (eq_refl tmp) refl)

again :
    (before : Files) (tmp : String) (n m : Node) (t : System)
    → Holds before tmp n t
    → set t.nodes tmp (some m) ≡ set before tmp (some m)
again before tmp n m t h = ap (λ f. set f tmp (some m)) h ∙ set_twice before tmp (some n) (some m)

module _ {ℓ} (P : Result (Unit {0}) × System → Type ℓ) (before : Files) (tmp : String) (n : Node)
    (s : System) (h : Holds before tmp n s)
    (fails : (e : Failure) (t : System) → HoldsSome before tmp t → P (err e, t)) where
  amend_holds :
      (f : Node → Node) (t : System)
      → t.nodes ≡ s.nodes
      → ((t : System) → Holds before tmp (f n) t → P (ok tt, t))
      → P (amend (t.nodes tmp) f tmp t)
  amend_holds f t same goes =
      let h' : Holds before tmp n t = same ∙ h in
      subst (λ o. P (amend o f tmp t)) (sym (there before tmp n t h'))
        (goes _ (again before tmp n (f n) t h'))

  pub chmod_holds :
      (mode : ℕ)
      → ((t : System) → Holds before tmp (record n { mode = mode }) t → P (ok tt, t))
      → P (chmod tmp mode s)
  unfolding chmod
  chmod_holds mode goes =
      call_cases P _ _ s (λ fault rest. fails _ _ (n, h))
        (λ rest.
          amend_holds (λ n. record n { mode = mode }) (record s { answers = rest }) refl goes)

  pub chown_holds :
      (uid gid : ℤ)
      → ((t : System) → Holds before tmp (record n { uid = uid; gid = gid }) t → P (ok tt, t))
      → P (chown tmp uid gid s)
  unfolding chown
  chown_holds uid gid goes =
      call_cases P _ _ s (λ fault rest. fails _ _ (n, h))
        (λ rest.
          amend_holds (λ n. record n { uid = uid; gid = gid }) (record s { answers = rest }) refl
            goes)

  pub write_holds :
      (content : String)
      → ((t : System) → Holds before tmp (record n { text = content }) t → P (ok tt, t))
      → P (write tmp content s)
  unfolding write
  write_holds content goes =
      call_cases P _ _ s
        (λ fault rest.
          subst
            (λ o. P (
              err (message fault.reason),
              (amend o (λ n. record n { text = fault.part }) tmp (record s { answers = rest })).1,
            ))
            (sym (there before tmp n s h))
            (fails _ _ (_, again before tmp n (record n { text = fault.part }) s h)))
        (λ rest.
          subst
            (λ o. P (
              ok tt,
              (amend o (λ n. record n { text = content }) tmp (record s { answers = rest })).1,
            ))
            (sym (there before tmp n s h))
            (goes _ (again before tmp n (record n { text = content }) s h)))

  pub flush_holds : ((t : System) → Holds before tmp n t → P (ok tt, t)) → P (flush s)
  unfolding flush
  flush_holds goes = call_cases P _ _ s (λ fault rest. fails _ _ (n, h)) (λ rest. goes _ h)

  -- The file moves to a path that was free, and its temporary name is free again.
  pub rename_holds :
      (path : String)
      → before tmp ≡ none
      → before path ≡ none
      → str_eq path tmp ≡ false
      → ((t : System) → t.nodes ≡ set before path (some n) → P (ok tt, t))
      → P (rename tmp path s)
  unfolding rename
  rename_holds path free vacant other goes =
      call_cases P _ _ s (λ fault rest. fails _ _ (n, h))
        (λ rest.
          let open_path : s.nodes path ≡ none = ap (λ f. f path) h ∙ rw other vacant in
          subst
            (λ o. P (moved o (is_directory (s.nodes path)) tmp path (record s { answers = rest })))
            (sym (there before tmp n s h))
            (subst (λ o. P (moved (some n) (is_directory o) tmp path (record s { answers = rest })))
              (sym open_path)
              (goes _ (
                ap (λ f. set f path (some n))
                  (ap (λ f. set f tmp none) h
                    ∙ (set_twice before tmp (some n) none ∙ set_same before tmp none free))))))

-- Calls that leave all files as they are.
module _ {ℓ} (before : Files) (s : System) (h : s.nodes ≡ before) where
  pub create_temp_holds :
      (P : Result String × System → Type ℓ) (pick : Files → String → String → String)
      (directory pattern_text : String)
      → ((e : Failure) (t : System) → t.nodes ≡ before → P (err e, t))
      → ((t : System)
          → Holds before (pick before directory pattern_text) (new_file 0x180) t
          → P (ok (pick before directory pattern_text), t))
      → P (create_temp pick directory pattern_text s)
  unfolding create_temp
  create_temp_holds P pick directory pattern_text fails goes =
      call_cases P _ _ s (λ fault rest. fails _ _ h)
        (λ rest.
          subst
            (λ f.
              (t : System)
              → t.nodes ≡ set f (pick f directory pattern_text) (some (new_file 0x180))
              → P (ok (pick f directory pattern_text), t))
            (sym h) goes _ refl)

  pub read_file_holds :
      (P : Result String × System → Type ℓ) (path : String)
      → ((e : Failure) (t : System) → t.nodes ≡ before → P (err e, t))
      → ((n : Node) (t : System) → before path ≡ some n → t.nodes ≡ before → P (ok n.text, t))
      → P (read_file path s)
  unfolding read_file
  read_file_holds P path fails goes =
      call_cases P _ _ s (λ fault rest. fails _ _ h)
        (λ rest. elim (Option-cases (s.nodes path)) [
          | inl absent ↦
              subst (λ o. P (contents o, record s { answers = rest })) (sym absent) (fails _ _ h)
          | inr (n, here) ↦
              subst (λ o. P (contents o, record s { answers = rest })) (sym here)
                (elim (Bool-cases n.directory) [
                  | inl folder ↦ rw folder (fails _ _ h)
                  | inr plain_file ↦ rw plain_file (goes n _ (sym (ap (λ f. f path) h) ∙ here) h)
                ])
        ])

  pub stat_holds :
      (P : Result Node × System → Type ℓ) (path : String)
      → ((reason : String) (t : System) → t.nodes ≡ before → P (err (message reason), t))
      → ((t : System) → before path ≡ none → t.nodes ≡ before → P (err not_exist, t))
      → ((n : Node) (t : System) → before path ≡ some n → t.nodes ≡ before → P (ok n, t))
      → P (stat path s)
  unfolding stat
  stat_holds P path fails missing goes =
      call_cases P _ _ s (λ fault rest. fails _ _ h)
        (λ rest. elim (Option-cases (s.nodes path)) [
          | inl absent ↦
              subst (λ o. P (found o, record s { answers = rest })) (sym absent)
                (missing _ (sym (ap (λ f. f path) h) ∙ absent) h)
          | inr (n, here) ↦
              subst (λ o. P (found o, record s { answers = rest })) (sym here)
                (goes n _ (sym (ap (λ f. f path) h) ∙ here) h)
        ])
