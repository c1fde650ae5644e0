-- ===== src/ResourceApi.antt =====
-- internal/resourceapi/api.go: the HTTP surface of the manager. A request is what the decoder and
-- the mux hand over; the bodies of requests are decoded by encoding/json, whose answer is an
-- argument. The header `Retry-After` has the same number as the body of its answer.
pub mod Admission
pub mod Scheduling
pub mod Client
pub mod Served
mod Tests
mod ServedTests
use llama_stack.Base.{
  ℕ, Bool, true, false, not, ◌&&◌, ◌||◌, Option, none, some, List, [], ◌∷◌, String, Result, ok, err,
  Failure, exhausted, forbidden, not_found, not_exist, wrapped, canceled, deadline_exceeded,
  message, errorf, if◌then◌else◌, str_eq, is_ok,
}
use llama_stack.Base.Int.{ℤ, pos, ltb_ℤ, scale}
use llama_stack.Base.Text.{trim_space, trim_prefix, has_prefix}
use llama_stack.Resource.Types.{Capability, Lease, Time, Duration, second}
use llama_stack.Resource.Store.{Driver}
use llama_stack.Resource.Manager.{Manager, Random}
use llama_stack.Resource.Manager.Allocation.{Turn, allocate}
use llama_stack.Resource.Manager.Operations.{
  issue_capability, authenticate, list, list_all, renew, release, revoke, revoke_capability,
}

-- `bearerToken`, on the header `Authorization`.
unfoldable pub bearer_token : String → Result String
bearer_token authorization =
    if not (has_prefix authorization "Bearer ")
    then err forbidden
    else let token = trim_space (trim_prefix authorization "Bearer ") in
      if str_eq token "" then err forbidden else ok token

-- What is written behind the status.
pub data Body : Type 0 where
  failed : (code : String) → Failure → (retry_after : ℕ) → Body
  issued : (token : String) → Capability → Body
  leased : Lease → Body
  leases : List Lease → Body
  no_content : Body

pub record Response : Type 0 where
  pub status : ℕ
  pub body : Body

abbrev pub write_error : ℕ → String → Failure → ℕ → Response
write_error status code e retry_after = record { status = status; body = failed code e retry_after }

abbrev pub write_json : ℕ → Body → Response
write_json status body = record { status = status; body = body }

-- The text of an answer is that of the whole error.
abbrev pub reported : Failure → Body → Body
reported e (failed code cause retry_after) = failed code e retry_after
reported e (issued token capability) = issued token capability
reported e (leased lease) = leased lease
reported e (leases found) = leases found
reported e no_content = no_content

-- `errors.Is` looks through what is wrapped around an error.
unfoldable pub write_resource_error : Failure → Response
write_resource_error exhausted = write_error 503 "resource_exhausted" exhausted 30
write_resource_error forbidden = write_error 403 "forbidden" forbidden 0
write_resource_error not_found = write_error 404 "not_found" not_found 0
write_resource_error canceled = write_error 408 "request_timeout" canceled 0
write_resource_error deadline_exceeded = write_error 408 "request_timeout" deadline_exceeded 0
write_resource_error not_exist = write_error 422 "allocation_failed" not_exist 0
write_resource_error (wrapped text e) =
    let inner = write_resource_error e in
    record { status = inner.status; body = reported (wrapped text e) inner.body }
write_resource_error (message text) = write_error 422 "allocation_failed" (message text) 0
write_resource_error (errorf format numbers) =
    write_error 422 "allocation_failed" (errorf format numbers) 0

-- `time.Duration(seconds) * time.Second`, which wraps around.
abbrev pub seconds : ℤ → Duration
seconds n = scale n second

pub record IssueCapabilityRequest : Type 0 where
  pub user_id : String
  pub run_id : String
  pub workspace_id : String
  pub target_host : String
  pub ttl_seconds : ℤ

pub record AllocateRequest : Type 0 where
  pub target_ports : List ℤ
  pub ttl_seconds : ℤ
  pub wait_seconds : ℤ

pub record RenewRequest : Type 0 where
  pub ttl_seconds : ℤ

module _ (driver : Driver) (parse_ip : String → Bool) (sha256 : String → List ℕ)
    (admin_token : String) (max_wait : Duration)
    (schedule : Option (Time → Result (Unit {0}))) where
  open driver use {DB}

  -- `isAdmin`.
  unfoldable pub is_admin : String → Bool
  unfolding bearer_token
  is_admin authorization = elim (bearer_token authorization) [
    | err e ↦ false
    | ok token ↦ str_eq token admin_token
  ]

  abbrev pub not_admin : Response
  not_admin = write_error 403 "forbidden" (message "valid administrator token required") 0

  abbrev pub Handler : Type 0
  Handler = Manager DB → Response × Manager DB

  unfoldable pub issue_capability_handler :
      String → Result IssueCapabilityRequest → (secret identifier : Random) → Time → Handler
  issue_capability_handler authorization decoded secret identifier now m =
      if not (is_admin authorization) then (not_admin, m) else elim decoded [
        | err e ↦ (write_error 400 "invalid_request" e 0, m)
        | ok input ↦
            let (answer, m') =
              issue_capability driver parse_ip sha256 secret identifier now input.user_id
                input.run_id input.workspace_id input.target_host (seconds input.ttl_seconds) m in
            elim answer [
              | err e ↦ (write_error 422 "invalid_capability" e 0, m')
              | ok (token, capability) ↦ (write_json 201 (issued token capability), m')
            ]
      ]

  unfoldable pub list_all_handler : String → Time → Handler
  list_all_handler authorization now m =
      if not (is_admin authorization)
      then (not_admin, m)
      else let (answer, m') = list_all driver now m in
        elim answer [
          | err e ↦ (write_error 500 "internal_error" e 0, m')
          | ok ls ↦ (write_json 200 (leases ls), m')
        ]

  -- The end of the handlers that answer `204 No Content`.
  abbrev pub emptied : Result (Unit {0}) × Manager DB → Response × Manager DB
  emptied (err e, m) = (write_resource_error e, m)
  emptied (ok _, m) = (write_json 204 no_content, m)

  unfoldable pub revoke_capability_handler : String → (capability_id : String) → Handler
  revoke_capability_handler authorization capability_id m =
      if not (is_admin authorization)
      then (not_admin, m)
      else emptied (revoke_capability driver capability_id m)

  unfoldable pub revoke_handler : String → (lease_id : String) → Handler
  revoke_handler authorization lease_id m =
      if not (is_admin authorization) then (not_admin, m) else emptied (revoke driver lease_id m)

  -- `authenticate`.
  unfoldable pub authenticate_request : String → Time → Manager DB → Result Capability × Manager DB
  unfolding bearer_token
  authenticate_request authorization now m = elim (bearer_token authorization) [
    | err e ↦ (err e, m)
    | ok token ↦ authenticate driver sha256 token now m
  ]

  abbrev pub not_scheduled : Failure → Response
  not_scheduled e = write_error 500 "scheduler_error" e 0

  -- The end of `allocate`, behind the call of the manager.
  unfoldable pub hand_out :
      Capability → Option (Result Lease) × Manager DB → Option Response × Manager DB
  unfolding write_resource_error
  hand_out capability (none, m) = (none, m)
  hand_out capability (some (err e), m) = (some (write_resource_error e), m)
  hand_out capability (some (ok lease), m) = elim schedule [
    | none ↦ (some (write_json 201 (leased lease)), m)
    | some run ↦ elim (run lease.expires_at) [
      | ok _ ↦ (some (write_json 201 (leased lease)), m)
      | err e ↦ (some (not_scheduled e), (release driver capability lease.id m).1)
    ]
  ]

  -- `allocate`; `none` stands for a call that still waits when the turns run out.
  unfoldable pub allocate_handler :
      String
      → (now start : Time) → Result AllocateRequest
      → List (Turn DB)
      → Manager DB
      → Option Response × Manager DB
  unfolding authenticate_request hand_out
  allocate_handler authorization now start decoded turns m =
      let (answer, m₁) = authenticate_request authorization now m in
      elim answer [
        | err e ↦ (some (write_resource_error e), m₁)
        | ok capability ↦ elim decoded [
          | err e ↦ (some (write_error 400 "invalid_request" e 0), m₁)
          | ok input ↦
              let wait = seconds input.wait_seconds in
              if ltb_ℤ wait (pos 0) || ltb_ℤ max_wait wait
              then (
                some (
                    write_error 422 "invalid_wait"
                      (errorf "wait must be between zero and %s" (max_wait ∷ [])) 0),
                m₁,
              )
              else hand_out capability (
                  allocate driver start capability input.target_ports (seconds input.ttl_seconds)
                    wait turns m₁)
        ]
      ]

  unfoldable pub list_handler : String → (now now' : Time) → Handler
  unfolding authenticate_request
  list_handler authorization now now' m =
      let (answer, m₁) = authenticate_request authorization now m in
      elim answer [
        | err e ↦ (write_resource_error e, m₁)
        | ok capability ↦
            let (listed, m₂) = list driver capability now' m₁ in
            elim listed [
              | err e ↦ (write_resource_error e, m₂)
              | ok ls ↦ (write_json 200 (leases ls), m₂)
            ]
      ]

  -- The end of `renew`, behind the call of the manager.
  unfoldable pub hand_back : Result Lease × Manager DB → Response × Manager DB
  hand_back (err e, m) = (write_resource_error e, m)
  hand_back (ok lease, m) = elim schedule [
    | none ↦ (write_json 200 (leased lease), m)
    | some run ↦ elim (run lease.expires_at) [
      | ok _ ↦ (write_json 200 (leased lease), m)
      | err e ↦ (not_scheduled e, m)
    ]
  ]

  -- `t` has the readings of the clock of `Renew`.
  unfoldable pub renew_handler :
      String → (now t t' t'' : Time) → Result RenewRequest → (lease_id : String) → Handler
  unfolding authenticate_request hand_back
  renew_handler authorization now t t' t'' decoded lease_id m =
      let (answer, m₁) = authenticate_request authorization now m in
      elim answer [
        | err e ↦ (write_resource_error e, m₁)
        | ok capability ↦ elim decoded [
          | err e ↦ (write_error 400 "invalid_request" e 0, m₁)
          | ok input ↦
              hand_back (renew driver capability lease_id (seconds input.ttl_seconds) t t' t'' m₁)
        ]
      ]

  unfoldable pub release_handler : String → (now : Time) → (lease_id : String) → Handler
  unfolding authenticate_request
  release_handler authorization now lease_id m =
      let (answer, m₁) = authenticate_request authorization now m in
      elim answer [
        | err e ↦ (write_resource_error e, m₁)
        | ok capability ↦ emptied (release driver capability lease_id m₁)
      ]
