-- ===== src/ResourceApi/Scheduling.antt =====
-- When the handlers of internal/resourceapi/api.go hand out a lease.
use mathlib.Core.Option.{some-injective}
use llama_stack.Base.{
  ℕ, ◌≡◌, refl, ap, sym, ◌∙◌, Bool, true, false, ◌||◌, Option, none, some, List, [], ◌∷◌, String,
  Result, ok, err, Failure, message, forbidden, exhausted, not_found, not_exist, wrapped, canceled,
  deadline_exceeded, errorf, if◌then◌else◌, arith, Result-cases, inl, inr, ◌⊎◌,
}
use llama_stack.Base.Int.{pos, ltb_ℤ}
use llama_stack.Resource.Types.{Capability, Lease, Time, Duration}
use llama_stack.Resource.Store.{Driver}
use llama_stack.Resource.Manager.{Manager}
use llama_stack.Resource.Manager.Allocation.{Turn, allocate}
use llama_stack.Resource.Manager.Operations.{release}
use llama_stack.ResourceApi.{
  Response, AllocateRequest, authenticate_request, hand_out, allocate_handler, write_error,
  write_json, write_resource_error, not_scheduled, leased, seconds,
}

not_created : (e : Failure) → (write_resource_error e).status ≡ 201 → ⊥
unfolding write_resource_error
not_created exhausted h = absurd (omega arith)
not_created forbidden h = absurd (omega arith)
not_created not_found h = absurd (omega arith)
not_created canceled h = absurd (omega arith)
not_created deadline_exceeded h = absurd (omega arith)
not_created not_exist h = absurd (omega arith)
not_created (wrapped t e) h = not_created e h
not_created (message t) h = absurd (omega arith)
not_created (errorf f ns) h = absurd (omega arith)

-- An answer that creates a lease.
abbrev Created : {S : Type 0} → Option (Time → Result (Unit {0})) → Option Response × S → Type 0
Created schedule x =
    (r : Response)
    → x.0 ≡ some r
    → r.status ≡ 201
    → (lease : Lease) × (r ≡ write_json 201 (leased lease))
      × ((schedule ≡ none)
          ⊎ ((run : Time → Result (Unit {0})) × (schedule ≡ some run)
              × (run lease.expires_at ≡ ok tt)))

module _ {S : Type 0} (schedule : Option (Time → Result (Unit {0}))) where
  other-Created : (r : Response) (s : S) → (r.status ≡ 201 → ⊥) → Created schedule (some r, s)
  other-Created r s h r' e c =
      absurd (h (ap (λ (x : Response). x.status) (some-injective r r' e) ∙ c))

  created :
      (lease : Lease) (s : S)
      → (schedule ≡ none)
        ⊎ ((run : Time → Result (Unit {0})) × (schedule ≡ some run)
            × (run lease.expires_at ≡ ok tt))
      → Created schedule (some (write_json 201 (leased lease)), s)
  created lease s scheduled r e c = (lease, sym (some-injective _ r e), scheduled)

module _ (driver : Driver) (parse_ip : String → Bool) (sha256 : String → List ℕ)
    (admin_token : String) (max_wait : Duration) where
  open driver use {DB}

  hand_out-Created :
      (schedule : Option (Time → Result (Unit {0}))) (capability : Capability)
      (x : Option (Result Lease) × Manager DB)
      → Created schedule
          (hand_out driver parse_ip sha256 admin_token max_wait schedule capability x)
  unfolding hand_out
  hand_out-Created schedule capability (none, m) = λ r e c. absurd (cc e)
  hand_out-Created schedule capability (some (err x), m) =
      other-Created schedule (write_resource_error x) m (not_created x)
  hand_out-Created none capability (some (ok lease), m) = created none lease m (inl refl)
  hand_out-Created (some run) capability (some (ok lease), m) =
      elim (Result-cases (run lease.expires_at)) [
        | inl (u, goes) ↦ rw (hand_out, goes) (created (some run) lease m (inr (run, refl, goes)))
        | inr (x, fails) ↦
            rw (hand_out, fails)
              (other-Created (some run)
                (not_scheduled driver parse_ip sha256 admin_token max_wait (some run) x)
                (release driver capability lease.id m).1 (λ c. absurd (omega arith)))
      ]

  allocate_handler-Created :
      (schedule : Option (Time → Result (Unit {0}))) (authorization : String) (now start : Time)
      (decoded : Result AllocateRequest) (turns : List (Turn DB)) (m : Manager DB)
      → Created schedule (
          allocate_handler driver parse_ip sha256 admin_token max_wait schedule authorization now
            start decoded turns m)
  unfolding allocate_handler
  allocate_handler-Created schedule authorization now start decoded turns m =
      go
        (authenticate_request driver parse_ip sha256 admin_token max_wait schedule authorization now
          m)
        decoded
    where
      answer : Capability → AllocateRequest → Manager DB → Bool → Option Response × Manager DB
      answer capability input m₁ b =
          if b
          then (
            some (
                write_error 422 "invalid_wait"
                  (errorf "wait must be between zero and %s" (max_wait ∷ [])) 0),
            m₁,
          )
          else hand_out driver parse_ip sha256 admin_token max_wait schedule capability (
              allocate driver start capability input.target_ports (seconds input.ttl_seconds)
                (seconds input.wait_seconds) turns m₁)

      answered :
          (capability : Capability) (input : AllocateRequest) (m₁ : Manager DB) (b : Bool)
          → Created schedule (answer capability input m₁ b)
      answered capability input m₁ true = other-Created schedule _ m₁ (λ c. absurd (omega arith))
      answered capability input m₁ false = hand_out-Created schedule capability (
          allocate driver start capability input.target_ports (seconds input.ttl_seconds)
            (seconds input.wait_seconds) turns m₁)

      go :
          (x : Result Capability × Manager DB) (d : Result AllocateRequest)
          → Created {S = Manager DB} schedule (elim x.0 [
            | err e ↦ (some (write_resource_error e), x.1)
            | ok capability ↦ elim d [
              | err e ↦ (some (write_error 400 "invalid_request" e 0), x.1)
              | ok input ↦ answer capability input x.1 (
                  ltb_ℤ (seconds input.wait_seconds) (pos 0)
                  || ltb_ℤ max_wait (seconds input.wait_seconds))
            ]
          ])
      go (err e, m₁) d = other-Created schedule (write_resource_error e) m₁ (not_created e)
      go (ok capability, m₁) (err e) =
          other-Created schedule (write_error 400 "invalid_request" e 0) m₁
            (λ c. absurd (omega arith))
      go (ok capability, m₁) (ok input) = answered capability input m₁ _

-- A lease is handed out, by the status 201, only with its end scheduled: where the API has a
-- scheduler, it accepted the end of the very lease that the answer carries.
pub allocate_handler-scheduled :
    (driver : Driver) (parse_ip : String → Bool) (sha256 : String → List ℕ) (admin_token : String)
    (max_wait : Duration) (schedule : Option (Time → Result (Unit {0}))) (authorization : String)
    (now start : Time) (decoded : Result AllocateRequest) (turns : List (Turn driver.DB))
    (m : Manager driver.DB) (r : Response)
    → (allocate_handler driver parse_ip sha256 admin_token max_wait schedule authorization now start
        decoded turns m).0
      ≡ some r
    → r.status ≡ 201
    → (lease : Lease) × (r ≡ write_json 201 (leased lease))
      × ((schedule ≡ none)
          ⊎ ((run : Time → Result (Unit {0})) × (schedule ≡ some run)
              × (run lease.expires_at ≡ ok tt)))
allocate_handler-scheduled driver parse_ip sha256 admin_token max_wait schedule authorization now
      start decoded turns m =
    allocate_handler-Created driver parse_ip sha256 admin_token max_wait schedule authorization now
      start decoded turns m
