-- ===== src/Base/Prefix.antt =====
-- What `strings.TrimPrefix` and `strings.HasPrefix` find.
use Prim.Native.Char.{code}
use Prim.Native.String.{String, [], ◌∷◌, ◌++◌}
use text.Mathlib.TextLemmas.{nil-append, cons-append}
use text.Mathlib.TextEquality.{Char-path}
use mathlib.Core.Path.{◌≡◌, refl, sym, ◌∙◌}
use mathlib.Core.Logic.{inl, inr}
use mathlib.Core.Option.{some}
use llama_stack.Base.Tests.{==_iff, ◌==◌, Bool-cases}
use llama_stack.Base.Text.{strip_prefix, trim_prefix}

-- A prefix is found in front of any text.
pub strip_prefix-append : (p r : String) → strip_prefix p (p ++ r) ≡ some r
unfolding strip_prefix
strip_prefix-append [] r = rw (nil-append r) refl
strip_prefix-append (c ∷ p) r =
    rw (cons-append c p r, strip_prefix, (==_iff (code c) (code c)).1 refl)
      (strip_prefix-append p r)

pub trim_prefix-append : (p r : String) → trim_prefix (p ++ r) p ≡ r
unfolding trim_prefix
trim_prefix-append p r = rw (trim_prefix, strip_prefix-append p r) refl

some-injective : {a b : String} → some a ≡ some b → a ≡ b
some-injective e = cc

-- What is found behind a prefix is the rest of the text.
pub strip_prefix-eq : (p s : String) (r : String) → strip_prefix p s ≡ some r → s ≡ p ++ r
unfolding strip_prefix
strip_prefix-eq [] s r e = (some-injective e) ∙ sym (nil-append r)
strip_prefix-eq (c ∷ p) [] r e = absurd (cc e)
strip_prefix-eq (c ∷ p) (d ∷ s) r e = elim (Bool-cases (code c == code d)) [
  | inr other ↦ absurd (cc (rw (other, strip_prefix) at e))
  | inl same ↦
      let rest : s ≡ p ++ r = strip_prefix-eq p s r (rw (same, strip_prefix) at e) in
      let head : d ≡ c = sym (Char-path c d ((==_iff (code c) (code d)).0 same)) in
      rw (cons-append c p r) (λ i. head i ∷ rest i)
]
