-- ===== src/ModelProfile/Matching.antt =====
-- The profile that `matchingProfile` of internal/modelprofile/modelprofile.go finds.
use llama_stack.Base.{
  ℕ, ◌+◌, ◌≡◌, subst, ap, Bool, true, false, Option, none, some, List, [], ◌∷◌, String, Result, ok,
  err, arith, total, ok-injective, Result-cases, Bool-cases, Option-cases, inl, inr, if◌then◌else◌,
  ◌∙◌,
}
use llama_stack.Base.Weights.{indicator}
use llama_stack.ModelProfile.{Profile, match_loop, matching_profile}

abbrev pub fits : (String → String → Result Bool) → String → Profile → Bool
fits matches model p = elim (matches p.model_glob model) [ err e ↦ false | ok b ↦ b ]

-- How many profiles the answer stands for.
abbrev pub count_of : Option Profile → ℕ
count_of none = 0
count_of (some p) = 1

-- The profile that is found matches.
abbrev pub Fits : (String → String → Result Bool) → String → Option Profile → Type 0
Fits matches model none = Unit
Fits matches model (some p) = fits matches model p ≡ true

fits-eq :
    (matches : String → String → Result Bool) (model : String) (p : Profile) (b : Bool)
    → matches p.model_glob model ≡ ok b
    → fits matches model p ≡ b
fits-eq matches model p b e = ap (λ r. elim r [ err x ↦ false | ok a ↦ a ]) e

module _ (matches : String → String → Result Bool) (model : String) where
  counted :
      (matched : Option Profile) (ps : List Profile) (found : Option Profile)
      → match_loop matches model matched ps ≡ ok found
      → count_of matched + total (indicator (fits matches model)) ps ≡ count_of found
  unfolding match_loop
  counted matched [] found e = rw (ok-injective e) (omega arith)
  counted matched (p ∷ ps) found e = elim (Result-cases (matches p.model_glob model)) [
    | inr (x, fails) ↦ absurd (cc (rw (fails, match_loop) at e))
    | inl (b, answers) ↦ elim (Bool-cases b) [
      | inr other ↦
          let answer : matches p.model_glob model ≡ ok false = answers ∙ ap (λ x. ok x) other in
          let none_here : indicator (fits matches model) p ≡ 0 =
            ap (λ a. if a then 1 else 0) (fits-eq matches model p false answer) in
          omega (arith, counted matched ps found (rw (answer, match_loop) at e))
      | inl fit ↦
          let answer : matches p.model_glob model ≡ ok true = answers ∙ ap (λ x. ok x) fit in
          elim (Option-cases matched) [
            | inl fresh ↦
                let here : indicator (fits matches model) p ≡ 1 =
                  ap (λ a. if a then 1 else 0) (fits-eq matches model p true answer) in
                omega (
                  arith,
                  ap count_of fresh,
                  counted (some p) ps found (rw (answer, fresh, match_loop) at e),
                )
            | inr (q, before) ↦ absurd (cc (rw (answer, before, match_loop) at e))
          ]
    ]
  ]

  fitting :
      (matched : Option Profile) (ps : List Profile) (found : Option Profile)
      → match_loop matches model matched ps ≡ ok found
      → Fits matches model matched
      → Fits matches model found
  unfolding match_loop
  fitting matched [] found e h = subst (Fits matches model) (ok-injective e) h
  fitting matched (p ∷ ps) found e h = elim (Result-cases (matches p.model_glob model)) [
    | inr (x, fails) ↦ absurd (cc (rw (fails, match_loop) at e))
    | inl (b, answers) ↦ elim (Bool-cases b) [
      | inr other ↦
          let answer : matches p.model_glob model ≡ ok false = answers ∙ ap (λ x. ok x) other in
          fitting matched ps found (rw (answer, match_loop) at e) h
      | inl fit ↦
          let answer : matches p.model_glob model ≡ ok true = answers ∙ ap (λ x. ok x) fit in
          elim (Option-cases matched) [
            | inl fresh ↦
                fitting (some p) ps found (rw (answer, fresh, match_loop) at e)
                  (fits-eq matches model p true answer)
            | inr (q, before) ↦ absurd (cc (rw (answer, before, match_loop) at e))
          ]
    ]
  ]

-- `matchingProfile` never picks one of several profiles: when it returns a profile, that one
-- and no other of the catalog matches the model, and when it returns none, none does.
pub matching_profile_unique :
    (matches : String → String → Result Bool) (profiles : List Profile) (model : String)
    (found : Option Profile)
    → matching_profile matches profiles model ≡ ok found
    → (total (indicator (fits matches model)) profiles ≡ count_of found) × Fits matches model found
unfolding matching_profile
matching_profile_unique matches profiles model found e = (
  omega (arith, counted matches model none profiles found e),
  fitting matches model none profiles found e tt,
)
