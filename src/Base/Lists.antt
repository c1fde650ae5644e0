-- ===== src/Base/Lists.antt =====
-- Lists measured by native numbers: lengths, weights, selections by a Boolean test.
use Prim.Native.Nat.{ℕ, zero, suc, ◌+◌, ◌≤◌, min}
use mathlib.Core.Path.{◌≡◌, refl, ap}
use mathlib.Core.Bool.{Bool, true, false, ◌||◌, ◌&&◌}
use mathlib.Core.List.{List, [], ◌∷◌, ◌++◌}
use native.Mathlib.Omega.{arith}
use llama_stack.Base.Tests.{if◌then◌else◌}

module _ {ℓ} {A : Type ℓ} where
  abbrev pub length : List A → ℕ
  length [] = 0
  length (x ∷ xs) = suc (length xs)

  abbrev pub take : ℕ → List A → List A
  take zero xs = []
  take (suc n) [] = []
  take (suc n) (x ∷ xs) = x ∷ take n xs

  abbrev pub drop : ℕ → List A → List A
  drop zero xs = xs
  drop (suc n) [] = []
  drop (suc n) (x ∷ xs) = drop n xs

  -- The entries that pass a test, in order.
  abbrev pub keep : (A → Bool) → List A → List A
  keep p [] = []
  keep p (x ∷ xs) = if p x then x ∷ keep p xs else keep p xs

  -- The sum of a weight over a list.
  abbrev pub total : (A → ℕ) → List A → ℕ
  total w [] = 0
  total w (x ∷ xs) = w x + total w xs

  abbrev pub any : (A → Bool) → List A → Bool
  any p [] = false
  any p (x ∷ xs) = p x || any p xs

  abbrev pub all : (A → Bool) → List A → Bool
  all p [] = true
  all p (x ∷ xs) = p x && all p xs

  abbrev pub All {κ} : (A → Type κ) → List A → Type κ
  All P [] = Unit
  All P (x ∷ xs) = P x × All P xs

  -- The same entries, each as often, in some order: every weight has the same sum.
  abbrev pub SameEntries : List A → List A → Type ℓ
  SameEntries xs ys = (w : A → ℕ) → total w xs ≡ total w ys

module _ {ℓ} {A : Type ℓ} where
  pub length-append : (xs ys : List A) → length (xs ++ ys) ≡ length xs + length ys
  length-append [] ys = omega arith
  length-append (x ∷ xs) ys = omega (arith, length-append xs ys)

  pub total-append : (w : A → ℕ) (xs ys : List A) → total w (xs ++ ys) ≡ total w xs + total w ys
  total-append w [] ys = omega arith
  total-append w (x ∷ xs) ys = omega (arith, total-append w xs ys)

  pub total-keep :
      (w : A → ℕ) (p : A → Bool) (xs : List A)
      → total w (keep p xs) ≡ total (λ x. if p x then w x else 0) xs
  total-keep w p [] = refl
  total-keep w p (x ∷ xs) = ground (arith, total-keep w p xs)

  pub total-keep-le : (w : A → ℕ) (p : A → Bool) (xs : List A) → total w (keep p xs) ≤ total w xs
  total-keep-le w p [] = omega arith
  total-keep-le w p (x ∷ xs) = ground (arith, total-keep-le w p xs)

  pub total_mono : (v w : A → ℕ) → ((x : A) → v x ≤ w x) → (xs : List A) → total v xs ≤ total w xs
  total_mono v w h [] = omega arith
  total_mono v w h (x ∷ xs) = omega (arith, h x, total_mono v w h xs)

  pub total_congr : (v w : A → ℕ) → ((x : A) → v x ≡ w x) → (xs : List A) → total v xs ≡ total w xs
  total_congr v w h [] = refl
  total_congr v w h (x ∷ xs) = omega (arith, h x, total_congr v w h xs)

  pub total_zero : (w : A → ℕ) → ((x : A) → w x ≡ 0) → (xs : List A) → total w xs ≡ 0
  total_zero w h [] = refl
  total_zero w h (x ∷ xs) = omega (arith, h x, total_zero w h xs)

  pub length-take : (n : ℕ) (xs : List A) → length (take n xs) ≡ min n (length xs)
  length-take zero xs = omega arith
  length-take (suc n) [] = omega arith
  length-take (suc n) (x ∷ xs) = omega (arith, length-take n xs)

  pub take-append-drop : (n : ℕ) (xs : List A) → take n xs ++ drop n xs ≡ xs
  take-append-drop zero xs = refl
  take-append-drop (suc n) [] = refl
  take-append-drop (suc n) (x ∷ xs) = ap (◌∷◌ x) (take-append-drop n xs)

  pub All-weaken {κ μ} :
      (P : A → Type κ) (Q : A → Type μ)
      → ((a : A) → P a → Q a)
      → (xs : List A) → All P xs
      → All Q xs
  All-weaken P Q f [] h = tt
  All-weaken P Q f (x ∷ xs) h = (f x h.0, All-weaken P Q f xs h.1)

  pub take_all : (n : ℕ) (xs : List A) → length xs ≤ n → take n xs ≡ xs
  take_all zero [] h = refl
  take_all zero (x ∷ xs) h = absurd (omega arith)
  take_all (suc n) [] h = refl
  take_all (suc n) (x ∷ xs) h = ap (λ l. x ∷ l) (take_all n xs (omega arith))
