-- ===== src/Base/Actions.antt =====
-- Actions on a state that may fail: unlike a transaction, a failed action keeps what it changed.
use mathlib.Core.Path.{◌≡◌, refl, ap, subst}
use llama_stack.Base.Results.{Result, ok, err, Failure}

abbrev pub Action : Type 0 → Type 0 → Type 0
Action S A = S → Result A × S

abbrev pub resume : {S A B : Type 0} → Result A × S → (A → Action S B) → Result B × S
resume (ok a, s) f = f a s
resume (err e, s) f = (err e, s)

infixl 5 ◌>>=◌ ◌>>◌
unfoldable pub ◌>>=◌ : {S A B : Type 0} → Action S A → (A → Action S B) → Action S B
◌>>=◌ m f s = resume (m s) f

abbrev pub ◌>>◌ : {S B : Type 0} → Action S (Unit {0}) → Action S B → Action S B
m >> k = m >>= λ _. k

abbrev pub done : {S A : Type 0} → A → Action S A
done a s = (ok a, s)

abbrev pub fail : {S A : Type 0} → Failure → Action S A
fail e s = (err e, s)

-- A pure result.
abbrev pub lift : {S A : Type 0} → Result A → Action S A
lift r s = (r, s)

-- `defer func() { if err != nil { cleanup } }()`
abbrev pub clean_up : {S A : Type 0} → (S → S) → Result A × S → Result A × S
clean_up cleanup (ok a, s) = (ok a, s)
clean_up cleanup (err e, s) = (err e, cleanup s)

abbrev pub on_failure : {S A : Type 0} → (S → S) → Action S A → Action S A
on_failure cleanup m s = clean_up cleanup (m s)

module _ {S A B : Type 0} where
  -- To reason about a chain of actions: it fails at the first one, or goes on behind it.
  pub bind_cases {ℓ} :
      (P : Result B × S → Type ℓ) (m : Action S A) (f : A → Action S B) (s : S)
      → ((e : Failure) (s' : S) → m s ≡ (err e, s') → P (err e, s'))
      → ((a : A) (s' : S) → m s ≡ (ok a, s') → P (f a s'))
      → P ((m >>= f) s)
  unfolding ◌>>=◌
  bind_cases P m f s fails goes = go (m s) refl
    where
      go : (x : Result A × S) → m s ≡ x → P (resume x f)
      go (ok a, s') e = goes a s' e
      go (err e', s') e = fails e' s' e

  -- What every action of a chain keeps, the chain keeps.
  pub bind-keeps {ℓ} :
      (I : S → Type ℓ) (m : Action S A) (f : A → Action S B) (s : S)
      → I (m s).1
      → ((a : A) (s' : S) → I s' → I (f a s').1)
      → I ((m >>= f) s).1
  bind-keeps I m f s here later =
      bind_cases (λ x. I x.1) m f s (λ e s' p. subst (λ x. I x.1) p here)
        (λ a s' p. later a s' (subst (λ x. I x.1) p here))

  -- The parts of a chain that succeeds, handed on.
  pub bind_ok {ℓ} :
      {C : Type ℓ} (m : Action S A) (f : A → Action S B) (s : S) {b : B} {s' : S}
      → (m >>= f) s ≡ (ok b, s')
      → ((a : A) (t : S) → m s ≡ (ok a, t) → f a t ≡ (ok b, s') → C)
      → C
  bind_ok {C} m f s {b} {s'} e use_parts =
      bind_cases (λ x. x ≡ (ok b, s') → C) m f s (λ x t p q. absurd (cc (ap (λ y. y.0) q)))
        (λ a t p q. use_parts a t p q) e

  pub lift_cases {ℓ} :
      (P : Result B × S → Type ℓ) (r : Result A) (f : A → Action S B) (s : S)
      → ((e : Failure) → r ≡ err e → P (err e, s))
      → ((a : A) → r ≡ ok a → P (f a s))
      → P ((lift r >>= f) s)
  unfolding ◌>>=◌
  lift_cases P (ok a) f s fails goes = goes a refl
  lift_cases P (err e) f s fails goes = fails e refl

  pub lift_ok {ℓ} :
      {C : Type ℓ} (r : Result A) (f : A → Action S B) (s : S) {b : B} {s' : S}
      → (lift r >>= f) s ≡ (ok b, s')
      → ((a : A) → r ≡ ok a → f a s ≡ (ok b, s') → C)
      → C
  unfolding ◌>>=◌
  lift_ok (ok a) f s e use_parts = use_parts a refl e
  lift_ok (err x) f s e use_parts = absurd (cc (ap (λ y. y.0) e))

clean_up-eq-ok :
    {S A : Type 0} (cleanup : S → S) (x : Result A × S) {a : A} {s : S}
    → clean_up cleanup x ≡ (ok a, s)
    → x ≡ (ok a, s)
clean_up-eq-ok cleanup (ok a, s) e = e
clean_up-eq-ok cleanup (err e', s) e = absurd (cc (ap (λ y. y.0) e))

pub on_failure-eq-ok :
    {S A : Type 0} (cleanup : S → S) (m : Action S A) (s : S) {a : A} {t : S}
    → on_failure cleanup m s ≡ (ok a, t)
    → m s ≡ (ok a, t)
on_failure-eq-ok cleanup m s = clean_up-eq-ok cleanup (m s)
