-- ===== src/System/Kept.antt =====
-- The calls of the system that keep the text and the mode of one file.
use llama_stack.Base.{
  ◌≡◌, refl, sym, ap, ◌∙◌, false, Option, none, some, String, Result, ok, err, str_eq, eq_iff,
  Bool-cases, Option-cases, inl, inr, any, List, ℕ,
}
use llama_stack.Base.Int.{ℤ}
use llama_stack.Base.Actions.{◌>>=◌, resume, bind-keeps, lift, lift_cases}
use llama_stack.System.{
  Node, System, Files, Io, put, amend, chmod, chown, write, flush, rename, create_temp, mkdir_all,
  open_file, is_file, is_directory, ancestors, stat, read_file, start, context, explain,
}
use llama_stack.System.View.{Content, content_of, call_cases, content-with_directory}

module _ (p : String) (c : Content) where
  abbrev pub Has : System → Type 0
  Has s = content_of (s.nodes p) ≡ some c

  -- The path of another file.
  abbrev pub Apart : String → Type 0
  Apart q = str_eq p q ≡ false

  put-Has : (q : String) (n : Option Node) (s : System) → Apart q → Has s → Has (put q n s)
  put-Has q n s apart h = ap content_of (rw apart refl) ∙ h

  amend-Has :
      (f : Node → Node) (q : String) (s : System)
      → Apart q
      → Has s
      → Has (amend (s.nodes q) f q s).1
  amend-Has f q s apart h = elim (Option-cases (s.nodes q)) [
    | inl absent ↦ rw absent h
    | inr (n, there) ↦ rw there (put-Has q (some (f n)) s apart h)
  ]

  pub chown-Has : (q : String) (uid gid : ℤ) (s : System) → Has s → Has (chown q uid gid s).1
  unfolding chown
  chown-Has q uid gid s h =
      call_cases (λ x. Has x.1) _ _ s (λ fault rest. h)
        (λ rest. elim (Option-cases (s.nodes q)) [
          | inl absent ↦ rw absent h
          | inr (n, there) ↦ rw there (elim (Bool-cases (str_eq p q)) [
            | inr apart ↦ put-Has q (some (record n { uid = uid; gid = gid })) s apart h
            | inl same ↦
                rw same (sym (ap content_of (ap s.nodes ((eq_iff p q).0 same) ∙ there)) ∙ h)
          ])
        ])

  pub chmod-Has : (q : String) (mode : ℕ) (s : System) → Apart q → Has s → Has (chmod q mode s).1
  unfolding chmod
  chmod-Has q mode s apart h =
      call_cases (λ x. Has x.1) _ _ s (λ fault rest. h)
        (λ rest. amend-Has _ q (record s { answers = rest }) apart h)

  pub write-Has : (q text : String) (s : System) → Apart q → Has s → Has (write q text s).1
  unfolding write
  write-Has q text s apart h =
      call_cases (λ x. Has x.1) _ _ s
        (λ fault rest. amend-Has _ q (record s { answers = rest }) apart h)
        (λ rest. amend-Has _ q (record s { answers = rest }) apart h)

  pub flush-Has : (s : System) → Has s → Has (flush s).1
  unfolding flush
  flush-Has s h = call_cases (λ x. Has x.1) _ _ s (λ fault rest. h) (λ rest. h)

  pub stat-Has : (q : String) (s : System) → Has s → Has (stat q s).1
  unfolding stat
  stat-Has q s h = call_cases (λ x. Has x.1) _ _ s (λ fault rest. h) (λ rest. h)

  pub read_file-Has : (q : String) (s : System) → Has s → Has (read_file q s).1
  unfolding read_file
  read_file-Has q s h = call_cases (λ x. Has x.1) _ _ s (λ fault rest. h) (λ rest. h)

  pub start-Has :
      (command : String) (args : List String) (s : System) → Has s → Has (start command args s).1
  unfolding start
  start-Has command args s h = call_cases (λ x. Has x.1) _ _ s (λ fault rest. h) (λ rest. h)

  pub mkdir_all-Has : (q : String) (mode : ℕ) (s : System) → Has s → Has (mkdir_all q mode s).1
  unfolding mkdir_all
  mkdir_all-Has q mode s h =
      call_cases (λ x. Has x.1) _ _ s (λ fault rest. h)
        (λ rest. elim (Bool-cases (any (λ d. is_file (s.nodes d)) (ancestors q))) [
          | inl blocked ↦ rw blocked h
          | inr free ↦
              rw free
                (content-with_directory (s.nodes p) (any (λ d. str_eq p d) (ancestors q)) mode ∙ h)
        ])

  pub open_file-Has :
      (q : String) (mode : ℕ) (s : System) → Apart q → Has s → Has (open_file q mode s).1
  unfolding open_file
  open_file-Has q mode s apart h =
      call_cases (λ x. Has x.1) _ _ s (λ fault rest. h)
        (λ rest. elim (Option-cases (s.nodes q)) [
          | inl absent ↦ rw absent (put-Has q _ s apart h)
          | inr (n, there) ↦ rw there (elim (Bool-cases n.directory) [
            | inl folder ↦ rw folder h
            | inr plain_file ↦ rw plain_file (put-Has q _ s apart h)
          ])
        ])

  pub rename-Has :
      (old new : String) (s : System) → Apart old → Apart new → Has s → Has (rename old new s).1
  unfolding rename
  rename-Has old new s apart apart' h =
      call_cases (λ x. Has x.1) _ _ s (λ fault rest. h)
        (λ rest. elim (Option-cases (s.nodes old)) [
          | inl absent ↦ rw absent h
          | inr (n, there) ↦ rw there (elim (Bool-cases (is_directory (s.nodes new))) [
            | inl taken ↦ rw taken h
            | inr free ↦
                rw free (put-Has new (some n) (put old none s) apart' (put-Has old none s apart h))
          ])
        ])

  -- What is wrapped around the error of an action changes no file.
  pub context-Has :
      {A : Type 0} (note : String) (m : Io A) (s : System) → Has (m s).1 → Has (context note m s).1
  context-Has {A} note m s h = explained (m s) h
    where
      explained : (x : Result A × System) → Has x.1 → Has (explain note x).1
      explained (ok a, t) h = h
      explained (err e, t) h = h

  -- A new temporary file of another name, and what is done with it.
  pub create_temp-Has :
      {B : Type 0} (pick : Files → String → String → String) (directory pattern_text : String)
      (k : String → Io B) (s : System)
      → ((files : Files) (d t : String) → Apart (pick files d t))
      → ((tmp : String) (t : System) → Apart tmp → Has t → Has (k tmp t).1)
      → Has s
      → (note : String) → Has ((context note (create_temp pick directory pattern_text) >>= k) s).1
  unfolding create_temp ◌>>=◌
  create_temp-Has pick directory pattern_text k s apart later h note =
      call_cases (λ x. Has (resume (explain note x) k).1) _ _ s (λ fault rest. h)
        (λ rest. later _ _ (apart s.nodes directory pattern_text) (
          put-Has (pick s.nodes directory pattern_text) _ (record s { answers = rest })
            (apart s.nodes directory pattern_text) h))

  -- An action that keeps the file at `p`.
  abbrev pub Keeps : {A : Type 0} → Io A → Type 0
  Keeps m = (s : System) → Has s → Has (m s).1

  pub bind-Keeps :
      {A B : Type 0} (m : Io A) (f : A → Io B) → Keeps m → ((a : A) → Keeps (f a)) → Keeps (m >>= f)
  bind-Keeps m f first later s h = bind-keeps Has m f s (first s h) (λ a t h. later a t h)

  pub lift-Keeps :
      {A B : Type 0} (r : Result A) (f : A → Io B) → ((a : A) → Keeps (f a)) → Keeps (lift r >>= f)
  lift-Keeps r f later s h = lift_cases (λ x. Has x.1) r f s (λ e q. h) (λ a q. later a s h)
