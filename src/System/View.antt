-- ===== src/System/View.antt =====
-- The files of a system as a reader sees them: the text and the mode of each file, without the
-- temporary files. `is_temp` tells the names that `os.CreateTemp` gives.
use llama_stack.Base.{
  ℕ, ◌≡◌, refl, sym, ap, ◌∙◌, subst, fun_ext, Bool, true, false, Option, none, some, List, [], ◌∷◌,
  String, Result, ok, err, Failure, message, wrapped, if◌then◌else◌, str_eq, eq_iff, Bool-cases,
  Option-cases, inl, inr, any,
}
use text.Mathlib.TextPositions.{eq_refl}
use llama_stack.System.{
  Node, Fault, System, Io, Files, set, answered, moved, with_directory, contents, call, amend,
  read_file, chmod, write, flush, rename, create_temp, mkdir_all, new_file, is_directory, is_file,
  ancestors, explain,
}

pub record Content : Type 0 where
  pub mode : ℕ
  pub text : String

abbrev pub Shown : Type 0
Shown = String → Option Content

abbrev pub content_of : Option Node → Option Content
content_of none = none
content_of (some n) = if n.directory then none else some (record { mode = n.mode; text = n.text })

abbrev pub install : String → Content → Shown → Shown
install path c f q = if str_eq q path then some c else f q

-- What holds of a call holds where it fails by a fault and where it works.
pub call_cases {ℓ} :
    {A : Type 0} (P : Result A × System → Type ℓ) (broken : Fault → Io A) (works : Io A)
    (s : System)
    → ((fault : Fault) (rest : List (Option Fault))
        → P (broken fault (record s { answers = rest })))
    → ((rest : List (Option Fault)) → P (works (record s { answers = rest })))
    → P (call broken works s)
unfolding call
call_cases {A} P broken works s fails goes = go s.answers
  where
    go : (coming : List (Option Fault)) → P (answered coming broken works s)
    go [] = goes s.answers
    go (none ∷ rest) = goes rest
    go (some fault ∷ rest) = fails fault rest

-- A new directory does not show.
pub content-with_directory :
    (entry : Option Node) (wanted : Bool) (mode : ℕ)
    → content_of (with_directory entry wanted mode) ≡ content_of entry
content-with_directory (some n) wanted mode = refl
content-with_directory none true mode = refl
content-with_directory none false mode = refl

module _ (is_temp : String → Bool) where
  abbrev pub view : Files → Shown
  view files q = if is_temp q then none else content_of (files q)

  -- A temporary file does not show.
  pub view-set_temp :
      (files : Files) (path : String) (entry : Option Node)
      → is_temp path ≡ true
      → view (set files path entry) ≡ view files
  view-set_temp files path entry temp = fun_ext λ q. elim (Bool-cases (str_eq q path)) [
    | inr other ↦ rw other refl
    | inl same ↦ rw ((eq_iff q path).0 same) (rw temp refl)
  ]

  pub view-set :
      (files : Files) (path : String) (n : Node)
      → is_temp path ≡ false
      → n.directory ≡ false
      → view (set files path (some n))
        ≡ install path (record { mode = n.mode; text = n.text }) (view files)
  view-set files path n lasting plain_file = fun_ext λ q. elim (Bool-cases (str_eq q path)) [
    | inr other ↦ rw other refl
    | inl same ↦ rw ((eq_iff q path).0 same) (rw (lasting, eq_refl path, plain_file) refl)
  ]

  -- The file at `tmp` is a temporary one in the state `n`, and the others show as `f`.
  pub record IsFilling (f : Shown) (tmp : String) (n : Node) (files : Files) : Type 0 where
    pub there : files tmp ≡ some n
    pub plain_file : n.directory ≡ false
    pub others : view files ≡ f

  refill :
      {f : Shown} {tmp : String} {n : Node} {files : Files} (m : Node)
      → is_temp tmp ≡ true
      → m.directory ≡ false
      → IsFilling f tmp n files
      → IsFilling f tmp m (set files tmp (some m))
  refill {f} {tmp} {n} {files} m temp plain_file h = record {
    there = rw (eq_refl tmp) refl;
    plain_file = plain_file;
    others = view-set_temp files tmp (some m) temp ∙ h.others;
  }

  -- The calls on the way from a new temporary file to its rename, each with what holds where it
  -- fails and where it goes on.
  module _ {ℓ} (P : Result (Unit {0}) × System → Type ℓ) (f : Shown) (tmp : String) (n : Node)
      (s : System) (temp : is_temp tmp ≡ true) (h : IsFilling f tmp n s.nodes)
      (fails : (e : Failure) (t : System) → view t.nodes ≡ f → P (err e, t)) where
    pub chmod_cases :
        (mode : ℕ)
        → ((t : System) → IsFilling f tmp (record n { mode = mode }) t.nodes → P (ok tt, t))
        → P (chmod tmp mode s)
    unfolding chmod
    chmod_cases mode goes =
        call_cases P _ _ s (λ fault rest. fails _ _ h.others)
          (λ rest.
            subst
              (λ o. P (amend o (λ n. record n { mode = mode }) tmp (record s { answers = rest })))
              (sym h.there) (goes _ (refill _ temp h.plain_file h)))

    pub write_cases :
        (content : String)
        → ((t : System) → IsFilling f tmp (record n { text = content }) t.nodes → P (ok tt, t))
        → P (write tmp content s)
    unfolding write
    write_cases content goes =
        call_cases P _ _ s
          (λ fault rest.
            subst
              (λ o. P (
                err (message fault.reason),
                (amend o (λ n. record n { text = fault.part }) tmp (record s { answers = rest })).1,
              ))
              (sym h.there)
              (fails _ _ (refill (record n { text = fault.part }) temp h.plain_file h).others))
          (λ rest.
            subst
              (λ o. P (
                ok tt,
                (amend o (λ n. record n { text = content }) tmp (record s { answers = rest })).1,
              ))
              (sym h.there) (goes _ (refill _ temp h.plain_file h)))

    pub flush_cases : ((t : System) → IsFilling f tmp n t.nodes → P (ok tt, t)) → P (flush s)
    unfolding flush
    flush_cases goes = call_cases P _ _ s (λ fault rest. fails _ _ h.others) (λ rest. goes _ h)

    pub rename_cases :
        (path : String)
        → is_temp path ≡ false
        → ((t : System)
            → view t.nodes ≡ install path (record { mode = n.mode; text = n.text }) f
            → P (ok tt, t))
        → P (rename tmp path s)
    unfolding rename
    rename_cases path lasting goes =
        call_cases P _ _ s (λ fault rest. fails _ _ h.others)
          (λ rest.
            subst
              (λ o.
                P (moved o (is_directory (s.nodes path)) tmp path (record s { answers = rest })))
              (sym h.there)
              (elim (Bool-cases (is_directory (s.nodes path))) [
                | inl taken ↦ rw taken (fails _ _ h.others)
                | inr free ↦ rw free (
                    goes _ (
                      view-set (set s.nodes tmp none) path n lasting h.plain_file
                      ∙ ap (install path (record { mode = n.mode; text = n.text }))
                          (view-set_temp s.nodes tmp none temp ∙ h.others)))
              ]))

  module _ {ℓ} (s : System) where
    -- New directories do not show.
    pub mkdir_all_cases :
        (P : Result (Unit {0}) × System → Type ℓ) (path : String) (mode : ℕ)
        → ((e : Failure) (t : System) → view t.nodes ≡ view s.nodes → P (err e, t))
        → ((t : System) → view t.nodes ≡ view s.nodes → P (ok tt, t))
        → P (mkdir_all path mode s)
    unfolding mkdir_all
    mkdir_all_cases P path mode fails goes =
        call_cases P _ _ s (λ fault rest. fails _ _ refl)
          (λ rest. elim (Bool-cases (any (λ p. is_file (s.nodes p)) (ancestors path))) [
            | inl blocked ↦ rw blocked (fails _ _ refl)
            | inr free ↦ rw free (
                goes _ (
                  fun_ext λ q.
                    ap (λ c. if is_temp q then none else c)
                      (content-with_directory (s.nodes q) (any (λ p. str_eq q p) (ancestors path))
                        mode)))
          ])

    -- A new temporary file does not show.
    pub create_temp_cases :
        (P : Result String × System → Type ℓ) (pick : Files → String → String → String)
        (directory pattern_text : String)
        → is_temp (pick s.nodes directory pattern_text) ≡ true
        → ((e : Failure) (t : System) → view t.nodes ≡ view s.nodes → P (err e, t))
        → ((t : System)
            → IsFilling
                (view s.nodes)
                (pick s.nodes directory pattern_text)
                (new_file 0x180)
                t.nodes
            → P (ok (pick s.nodes directory pattern_text), t))
        → P (create_temp pick directory pattern_text s)
    unfolding create_temp
    create_temp_cases P pick directory pattern_text temp fails goes =
        call_cases P _ _ s (λ fault rest. fails _ _ refl)
          (λ rest. goes _ (record {
            there = rw (eq_refl (pick s.nodes directory pattern_text)) refl;
            plain_file = refl;
            others = view-set_temp s.nodes (pick s.nodes directory pattern_text) _ temp;
          }))

    -- What is read of a lasting file is what shows.
    pub read_file_cases :
        (P : Result String × System → Type ℓ) (path : String)
        → is_temp path ≡ false
        → ((e : Failure) (t : System) → view t.nodes ≡ view s.nodes → P (err e, t))
        → ((c : Content) (t : System)
            → view s.nodes path ≡ some c
            → view t.nodes ≡ view s.nodes
            → P (ok c.text, t))
        → P (read_file path s)
    unfolding read_file
    read_file_cases P path lasting fails goes =
        call_cases P _ _ s (λ fault rest. fails _ _ refl)
          (λ rest. elim (Option-cases (s.nodes path)) [
            | inl absent ↦
                subst (λ o. P (contents o, record s { answers = rest })) (sym absent)
                  (fails _ _ refl)
            | inr (n, there) ↦
                subst (λ o. P (contents o, record s { answers = rest })) (sym there)
                  (elim (Bool-cases n.directory) [
                    | inl folder ↦ rw folder (fails _ _ refl)
                    | inr plain_file ↦ rw plain_file (
                        goes (record { mode = n.mode; text = n.text }) _
                          (rw (lasting, there, plain_file) refl) refl)
                  ])
          ])

pub explain_cases {ℓ} :
    {A : Type 0} (P : Result A × System → Type ℓ) (note : String) (out : Result A × System)
    → ((e : Failure) (t : System) → out ≡ (err e, t) → P (err (wrapped note e), t))
    → ((a : A) (t : System) → out ≡ (ok a, t) → P (ok a, t))
    → P (explain note out)
explain_cases P note (err e, t) fails goes = fails e t refl
explain_cases P note (ok a, t) fails goes = goes a t refl
