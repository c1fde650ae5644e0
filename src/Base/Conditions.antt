-- ===== src/Base/Conditions.antt =====
-- Conditions on all entries of a list, and equivalences of them; texts that differ.
use mathlib.Core.Logic.{◌↔◌}
use mathlib.Core.List.{List, [], ◌∷◌, ◌++◌, map}
use mathlib.Core.Path.{◌≡◌, sym, ◌∙◌}
use mathlib.Core.Logic.{◌≢◌, inl, inr}
use mathlib.Core.Bool.{false}
use Prim.Native.String.{String}
use text.Mathlib.Text.{◌==◌ as str_eq}
use text.Mathlib.TextEquality.{eq_iff}
use llama_stack.Base.Lists.{All}
use llama_stack.Base.Tests.{Bool-cases}

pub differs : (a b : String) → str_eq a b ≡ false → a ≢ b
differs a b h e = absurd (cc (sym h ∙ (eq_iff a b).1 e))

pub str_eq-false : (a b : String) → a ≢ b → str_eq a b ≡ false
str_eq-false a b h = elim (Bool-cases (str_eq a b)) [
  | inl e ↦ absurd (h ((eq_iff a b).0 e))
  | inr e ↦ e
]

pub All-split {ℓ κ} :
    {A : Type ℓ} (P : A → Type κ) (xs ys : List A) → All P (xs ++ ys) → All P xs × All P ys
All-split P [] ys h = (tt, h)
All-split P (x ∷ xs) ys h = let (a, b) = All-split P xs ys h.1 in ((h.0, a), b)

pub All-join {ℓ κ} :
    {A : Type ℓ} (P : A → Type κ) (xs ys : List A) → All P xs → All P ys → All P (xs ++ ys)
All-join P [] ys a b = b
All-join P (x ∷ xs) ys a b = (a.0, All-join P xs ys a.1 b)

-- Equivalences of conditions on lists, put together the way the lists are.
pub cons_iff {ℓ κ} : {P Q : Type ℓ} {R S : Type κ} (head : P ↔ Q) (tail : R ↔ S) → (P × R) ↔ (Q × S)
cons_iff head tail = (λ h. (head.0 h.0, tail.0 h.1), λ h. (head.1 h.0, tail.1 h.1))

pub pair_iff {ℓ} :
    {P Q R S : Type ℓ} (first : P ↔ Q) (second : R ↔ S)
    → (P × (R × Unit {0})) ↔ (Q × (S × Unit {0}))
pair_iff first second = cons_iff first (cons_iff second (λ h. h, λ h. h))

-- The checks of two lists are those of the lists that stand for them.
pub append_iff {ℓ κ μ} :
    {A : Type ℓ} {B : Type κ} (P : A → Type μ) (Q : B → Type μ) (xs zs : List A) (ys ws : List B)
    (first : All P xs ↔ All Q ys) (second : All P zs ↔ All Q ws)
    → All P (xs ++ zs) ↔ All Q (ys ++ ws)
append_iff P Q xs zs ys ws first second = (
  λ h. let (a, b) = All-split P xs zs h in All-join Q ys ws (first.0 a) (second.0 b),
  λ h. let (a, b) = All-split Q ys ws h in All-join P xs zs (first.1 a) (second.1 b),
)

pub map_iff {ℓ κ μ} :
    {A : Type ℓ} {B : Type κ} (P : B → Type μ) (Q : A → Type μ) (f : A → B)
    → ((a : A) → P (f a) ↔ Q a)
    → (xs : List A) → All P (map f xs) ↔ All Q xs
map_iff P Q f e [] = (λ h. tt, λ h. tt)
map_iff P Q f e (a ∷ xs) = cons_iff (e a) (map_iff P Q f e xs)
