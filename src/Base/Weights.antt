-- ===== src/Base/Weights.antt =====
-- Sums of weights over lists: what a selection, a replacement and a member contribute.
use Prim.Native.Nat.{ℕ, ◌+◌, ◌≤◌}
use mathlib.Core.Path.{◌≡◌, refl}
use mathlib.Core.Logic.{∥∥₁_elim, inl, inr}
use mathlib.Core.Bool.{Bool, true, false, not}
use mathlib.Core.List.{List, [], ◌∷◌, map, Mem, Memᴰ}
use native.Mathlib.Bridge.{le_prop}
use native.Mathlib.Nat.{ℕ_set}
use native.Mathlib.Omega.{arith}
use llama_stack.Base.Tests.{if◌then◌else◌, Bool-cases}
use llama_stack.Base.Lists.{total, keep, any, length}

abbrev pub indicator {ℓ} : {A : Type ℓ} → (A → Bool) → A → ℕ
indicator p x = if p x then 1 else 0

module _ {A : Type 0} where
  -- Where no entry passes a test, dropping those that pass changes nothing.
  pub total-keep-not :
      (p : A → Bool) (w : A → ℕ) (xs : List A)
      → total (indicator p) xs ≡ 0
      → total w (keep (λ x. not (p x)) xs) ≡ total w xs
  total-keep-not p w [] h = refl
  total-keep-not p w (x ∷ xs) h = ground (arith, total-keep-not p w xs)

  pub total-length-keep : (p : A → Bool) (xs : List A) → total (indicator p) xs ≤ length (keep p xs)
  total-length-keep p [] = omega arith
  total-length-keep p (x ∷ xs) = ground (arith, total-length-keep p xs)

  -- Behind a selection no entry fails its test.
  pub total-keep_none :
      (p : A → Bool) (xs : List A) → total (indicator p) (keep (λ x. not (p x)) xs) ≡ 0
  total-keep_none p [] = refl
  total-keep_none p (x ∷ xs) = ground (arith, total-keep_none p xs)

  -- A selection has no weight where only what it drops has one.
  pub total-keep_zero :
      (p : A → Bool) (w : A → ℕ) (xs : List A)
      → ((x : A) → p x ≡ false → w x ≡ 0)
      → total w (keep (λ x. not (p x)) xs) ≡ 0
  total-keep_zero p w [] h = refl
  total-keep_zero p w (x ∷ xs) h = ground (arith, h x, total-keep_zero p w xs h)

  pub total-any :
      (p : A → Bool) (w : A → ℕ) (xs : List A)
      → ((x : A) → p x ≡ false → w x ≡ 0)
      → any p xs ≡ false
      → total w xs ≡ 0
  total-any p w [] h e = refl
  total-any p w (x ∷ xs) h e = ground (arith, h x, total-any p w xs h)

  le-total_of_memᴰ : (w : A → ℕ) {r : A} (xs : List A) → Memᴰ r xs → w r ≤ total w xs
  le-total_of_memᴰ w [] m = elim m [ ]
  le-total_of_memᴰ w (x ∷ xs) (Memᴰ.head e) = rw e (omega arith)
  le-total_of_memᴰ w (x ∷ xs) (Memᴰ.tail m) = omega (arith, le-total_of_memᴰ w xs m)

  pub le-total_of_mem : (w : A → ℕ) {r : A} (xs : List A) → Mem r xs → w r ≤ total w xs
  le-total_of_mem w xs m = ∥∥₁_elim m le_prop (le-total_of_memᴰ w xs)

  pub any-of_mem : (p : A → Bool) {r : A} (xs : List A) → Mem r xs → p r ≡ true → any p xs ≡ true
  any-of_mem p {r} xs m h = elim (Bool-cases (any p xs)) [
    | inl e ↦ e
    | inr e ↦ absurd (
        ground (
          arith,
          le-total_of_mem (indicator p) xs m,
          total-any p (indicator p) xs (λ x e'. rw e' refl) e,
        ))
  ]

  replace_none :
      (hit : A → Bool) (w : A → ℕ) (r : A) (xs : List A)
      → total (indicator hit) xs ≡ 0
      → total w (map (λ x. if hit x then r else x) xs) ≡ total w xs
  replace_none hit w r [] h = refl
  replace_none hit w r (x ∷ xs) h = ground (arith, replace_none hit w r xs)

  -- Replacing the one entry that passes a test.
  replace_one :
      (hit : A → Bool) (w : A → ℕ) (r : A) {old : A} (xs : List A)
      → total (indicator hit) xs ≤ 1
      → hit old ≡ true
      → Memᴰ old xs
      → total w (map (λ x. if hit x then r else x) xs) + w old ≡ total w xs + w r
  replace_one hit w r [] one h m = elim m [ ]
  replace_one hit w r (x ∷ xs) one h (Memᴰ.head e) =
      let here : hit x ≡ true = rw e at h in rw (e, here) (ground (arith, replace_none hit w r xs))
  replace_one hit w r (x ∷ xs) one h (Memᴰ.tail m) =
      let one' : total (indicator hit) xs ≤ 1 = omega arith in
      ground (arith, replace_one hit w r xs one' h m, le-total_of_memᴰ (indicator hit) xs m)

  pub total-replace :
      (hit : A → Bool) (w : A → ℕ) (r : A) {old : A} (xs : List A)
      → total (indicator hit) xs ≤ 1
      → hit old ≡ true
      → Mem old xs
      → total w (map (λ x. if hit x then r else x) xs) + w old ≡ total w xs + w r
  total-replace hit w r xs one h m =
      ∥∥₁_elim m (λ a b. ℕ_set _ _ a b) (replace_one hit w r xs one h)
