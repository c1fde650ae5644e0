-- ===== src/Base/Results.antt =====
-- Go's error results. `Failure` has the errors that the source tells apart by `errors.Is`; every
-- other error is its text, the format and the numbers that `fmt.Errorf` was given, or the text in
-- front of the error that it wraps.
use Prim.Native.String.{String}
use mathlib.Core.Path.{◌≡◌, refl}
use mathlib.Core.Logic.{◌⊎◌, inl, inr}
use mathlib.Core.Bool.{Bool, true, false}
use mathlib.Core.List.{List}
use llama_stack.Base.Int.{ℤ}
use llama_stack.Base.Tests.{if◌then◌else◌}

pub data Failure : Type 0 where
  exhausted forbidden not_found : Failure
  not_exist : Failure
  canceled deadline_exceeded : Failure
  message : String → Failure
  errorf : String → List ℤ → Failure
  wrapped : String → Failure → Failure

-- A result list of Go, `(value, err error)`: an error, or else the value.
pub data Result {ℓ} (Value : Type ℓ) : Type ℓ where
  err : (failure : Failure) → Result Value
  ok : (value : Value) → Result Value

infixl 5 ◌>>◌ ◌>>=◌
-- `if err == nil { ... }`: what follows a call that may fail.
abbrev pub ◌>>=◌ {κ μ} :
    {S : Type κ} {T : Type μ} (call : Result S) (next : S → Result T) → Result T
call >>= next = elim call [ err e ↦ err e | ok value ↦ next value ]

abbrev pub is_ok {ℓ} : {A : Type ℓ} → Result A → Bool
is_ok (err e) = false
is_ok (ok a) = true

-- The same, behind a call that returns an error only.
abbrev pub ◌>>◌ {μ} : {T : Type μ} (check : Result (Unit {0})) (next : Result T) → Result T
check >> next = elim check [ err e ↦ err e | ok _ ↦ next ]

-- `if test { err = e; return }`
abbrev pub fail_if : Bool → Failure → Result (Unit {0})
fail_if true e = err e
fail_if false e = ok tt

pub Result-cases {ℓ} :
    {A : Type ℓ} (r : Result A) → ((a : A) × (r ≡ ok a)) ⊎ ((e : Failure) × (r ≡ err e))
Result-cases (ok a) = inl (a, refl)
Result-cases (err e) = inr (e, refl)

pub ok-injective {ℓ} : {A : Type ℓ} {a b : A} → ok a ≡ ok b → a ≡ b
ok-injective e = cc

-- What a call gave, where the code behind it went through.
pub parts_of_ok {κ μ} :
    {S : Type κ} {T : Type μ} (call : Result S) (next : S → Result T) {result : T}
    → (call >>= next) ≡ ok result
    → (value : S) × (call ≡ ok value) × (next value ≡ ok result)
parts_of_ok (err e) next through = absurd (cc through)
parts_of_ok (ok value) next through = (value, refl, through)

-- A check that lets pass.
pub if_ok : (e : Failure) (b : Bool) → (if b then err e else ok (tt {0})) ≡ ok (tt {0}) → b ≡ false
if_ok e true h = absurd (cc h)
if_ok e false h = refl

pub err_unique {ℓ} : {A : Type ℓ} (r : Result A) {a b : Failure} → r ≡ err a → r ≡ err b → a ≡ b
err_unique r p q = cc
