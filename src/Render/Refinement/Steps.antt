-- ===== src/Render/Refinement/Steps.antt =====
-- What the steps of a plan leave of the files, and the writers of one and of several outputs in
-- internal/render/render.go.
use Prim.Native.String.{◌++◌ as ◌<>◌}
use mathlib.Core.List.{append_assoc}
use llama_stack.Base.{
  ◌≡◌, refl, sym, ap, ◌∙◌, subst, Bool, true, false, Option, some, List, [], ◌∷◌, ◌++◌, map, String,
  Result, ok, err, Failure, wrapped, ◌⊎◌, inl, inr, All,
}
use llama_stack.Base.FilePath.{dir}
use llama_stack.Base.Actions.{◌>>=◌, done, resume, bind_cases}
use llama_stack.System.{
  System, Io, Files, Node, explain, context, write, flush, rename, create_temp,
}
use llama_stack.System.View.{
  Content, Shown, view, IsFilling, chmod_cases, write_cases, flush_cases, rename_cases,
  mkdir_all_cases, create_temp_cases,
}
use llama_stack.Render.Plan.{Step, apply, perform, perform-append, output_step, rooted_output}
use llama_stack.Render.Writing.{Output, rooted, replace, write_atomic, write_outputs}

-- What one output makes of the files.
abbrev pub change_of : Output → Option (String × Content)
change_of o = some (o.path, record { mode = o.mode; text = o.content })

module _ (is_temp : String → Bool) where
  -- A run that stopped early: what shows is what the first steps of a plan leave.
  pub record IsStopped (steps : List Step) (f : Shown) (out : Result (Unit {0}) × System)
      : Type 0 where
    pub failure : Failure
    pub failed : out.0 ≡ err failure
    pub finished : List Step
    pub left : List Step
    pub first : finished ++ left ≡ steps
    pub shows : view is_temp out.1.nodes ≡ perform finished f

  -- A run goes through all steps of a plan, or it fails and has gone through the first ones.
  abbrev pub Refines : List Step → Shown → Result (Unit {0}) × System → Type 0
  Refines steps f out =
      ((out.0 ≡ ok tt) × (view is_temp out.1.nodes ≡ perform steps f)) ⊎ IsStopped steps f out

  -- One step: it is made as a whole, or nothing shows of it.
  abbrev pub Does : Option (String × Content) → Shown → Result (Unit {0}) × System → Type 0
  Does change f out =
      ((out.0 ≡ ok tt) × (view is_temp out.1.nodes ≡ apply change f))
      ⊎ ((e : Failure) × (out.0 ≡ err e) × (view is_temp out.1.nodes ≡ f))

  pub stopped :
      (change : Option (String × Content)) (f : Shown) (e : Failure) (t : System)
      → view is_temp t.nodes ≡ f
      → Does change f (err e, t)
  stopped change f e t same = inr (e, refl, same)

  pub Does-Refines :
      (step : Step) (f : Shown) (out : Result (Unit {0}) × System)
      → Does (step f) f out
      → Refines (step ∷ []) f out
  Does-Refines step f out (inl done) = inl done
  Does-Refines step f out (inr (e, failed, same)) = inr (record {
    failure = e;
    failed = failed;
    finished = [];
    left = step ∷ [];
    first = refl;
    shows = same;
  })

  module _ (pick : Files → String → String → String)
      (temp : (files : Files) (directory pattern_text : String)
        → is_temp (pick files directory pattern_text) ≡ true) where
    -- What is left of `replace` behind each of its calls.
    abbrev renaming : String → Output → Io (Unit {0})
    renaming tmp o = rename tmp o.path

    abbrev flushing : String → Output → Io (Unit {0})
    flushing tmp o = flush >>= λ _. renaming tmp o

    abbrev closing : String → Output → Io (Unit {0})
    closing tmp o = flush >>= λ _. flushing tmp o

    abbrev writing : String → Output → Io (Unit {0})
    writing tmp o = write tmp o.content >>= λ _. closing tmp o

    replace-Does :
        (tmp note : String) (o : Output) (f : Shown) (n : Node) (s : System)
        → is_temp tmp ≡ true
        → is_temp o.path ≡ false
        → IsFilling is_temp f tmp n s.nodes
        → Does (change_of o) f (explain note (replace pick tmp o s))
    unfolding ◌>>=◌
    replace-Does tmp note o f n s temporary lasting h =
        chmod_cases is_temp
          (λ x. Does (change_of o) f (explain note (resume x (λ _. writing tmp o)))) f tmp n s
          temporary h fails o.mode
          (λ t h₁.
            write_cases is_temp
              (λ x. Does (change_of o) f (explain note (resume x (λ _. closing tmp o)))) f tmp _ t
              temporary h₁ fails o.content
              (λ t h₂.
                flush_cases is_temp
                  (λ x. Does (change_of o) f (explain note (resume x (λ _. flushing tmp o)))) f tmp
                  _ t temporary h₂ fails
                  (λ t h₃.
                    flush_cases is_temp
                      (λ x. Does (change_of o) f (explain note (resume x (λ _. renaming tmp o)))) f
                      tmp _ t temporary h₃ fails
                      (λ t h₄.
                        rename_cases is_temp (λ x. Does (change_of o) f (explain note x)) f tmp _ t
                          temporary h₄ fails o.path lasting (λ t same. inl (refl, same))))))
      where
        fails :
            (e : Failure) (t : System)
            → view is_temp t.nodes ≡ f
            → Does (change_of o) f (err (wrapped note e), t)
        fails e t same = stopped (change_of o) f _ t same

    -- `writeAtomic` replaces the file as a whole, or leaves all files as they were.
    pub write_atomic-Does :
        (o : Output) (s : System)
        → is_temp o.path ≡ false
        → Does (change_of o) (view is_temp s.nodes) (write_atomic pick o s)
    unfolding ◌>>=◌ write_atomic
    write_atomic-Does o s lasting =
        mkdir_all_cases is_temp s
          (λ x. Does (change_of o) f (resume (explain ("create " <> dir o.path) x) (λ _. creating)))
          (dir o.path) 0x1ed (λ e t same. stopped (change_of o) f _ t same)
          (λ t same.
            create_temp_cases is_temp t
              (λ x.
                Does (change_of o) f
                  (resume (explain ("create temporary file for " <> o.path) x) replacing))
              pick (dir o.path) ".llama-stack-*" (temp _ _ _)
              (λ e t q. stopped (change_of o) f _ t (q ∙ same))
              (λ t h.
                replace-Does _ ("write " <> o.path) o f _ t (temp _ _ _) lasting (record {
                  there = h.there;
                  plain_file = h.plain_file;
                  others = h.others ∙ same;
                })))
      where
        f : Shown
        f = view is_temp s.nodes

        replacing : String → Io (Unit {0})
        replacing tmp = context ("write " <> o.path) (replace pick tmp o)

        creating : Io (Unit {0})
        creating =
            context ("create temporary file for " <> o.path)
              (create_temp pick (dir o.path) ".llama-stack-*")
            >>= replacing

    -- A run behind a run, each by its steps.
    pub Refines-append :
        (xs ys : List Step) (f : Shown) (m k : Io (Unit {0})) (s : System)
        → Refines xs f (m s)
        → ((t : System) → view is_temp t.nodes ≡ perform xs f → Refines ys (perform xs f) (k t))
        → Refines (xs ++ ys) f ((m >>= λ _. k) s)
    Refines-append xs ys f m k s (inr early) later =
        bind_cases (Refines (xs ++ ys) f) m (λ _. k) s
          (λ e t q. inr (record {
            failure = e;
            failed = refl;
            finished = early.finished;
            left = early.left ++ ys;
            first = sym (append_assoc early.finished early.left ys) ∙ ap (λ l. l ++ ys) early.first;
            shows = subst (λ x. view is_temp x.1.nodes ≡ perform early.finished f) q early.shows;
          }))
          (λ u t q. absurd (cc (sym (ap (λ x. x.0) q) ∙ early.failed)))
    Refines-append xs ys f m k s (inl (fine, shows)) later =
        bind_cases (Refines (xs ++ ys) f) m (λ _. k) s
          (λ e t q. absurd (cc (sym (ap (λ x. x.0) q) ∙ fine)))
          (λ u t q.
            continued (k t) (later t (subst (λ x. view is_temp x.1.nodes ≡ perform xs f) q shows)))
      where
        continued :
            (out : Result (Unit {0}) × System)
            → Refines ys (perform xs f) out
            → Refines (xs ++ ys) f out
        continued out (inl (fine, shows)) = inl (fine, shows ∙ sym (perform-append xs ys f))
        continued out (inr early) = inr (record {
          failure = early.failure;
          failed = early.failed;
          finished = xs ++ early.finished;
          left = early.left;
          first = append_assoc xs early.finished early.left ∙ ap (λ l. xs ++ l) early.first;
          shows = early.shows ∙ sym (perform-append xs early.finished f);
        })

    pub write_outputs-Refines :
        (root : String) (os : List Output) (s : System)
        → All (λ o. is_temp (rooted root o.path) ≡ false) os
        → Refines
            (map (λ o. output_step (rooted_output root o)) os)
            (view is_temp s.nodes)
            (write_outputs pick root os s)
    unfolding write_outputs
    write_outputs-Refines root [] s lasting = inl (refl, refl)
    write_outputs-Refines root (o ∷ os) s lasting =
        Refines-append (output_step (rooted_output root o) ∷ [])
          (map (λ o. output_step (rooted_output root o)) os) (view is_temp s.nodes)
          (write_atomic pick (rooted_output root o)) (write_outputs pick root os) s
          (Does-Refines (output_step (rooted_output root o)) _ _
            (write_atomic-Does (rooted_output root o) s lasting.0))
          (λ t shows.
            subst
              (λ f.
                Refines (map (λ o. output_step (rooted_output root o)) os) f
                  (write_outputs pick root os t))
              shows (write_outputs-Refines root os t lasting.1))
