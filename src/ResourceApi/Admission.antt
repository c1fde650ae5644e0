-- ===== src/ResourceApi/Admission.antt =====
-- Who the handlers of internal/resourceapi/api.go admit, and what they answer.

use Prim.Native.String.{◌++◌}
use llama_stack.Base.{
  ◌≢◌, ◌⊎◌, ◌∙◌, eq_iff, ok-injective, Result-cases, sym, subst, true, ok, inl, inr, Bool-cases,
  Option-cases, str_eq, ℕ, ◌+◌, ◌^◌, ◌≡◌, refl, ap, Bool, false, Option, some, List, String, Result,
  err, message, forbidden, arith,
}
use llama_stack.Base.Conditions.{differs, str_eq-false}
use llama_stack.Base.Prefix.{strip_prefix-append, strip_prefix-eq, trim_prefix-append}
use llama_stack.Base.Text.{has_prefix, trim_prefix, strip_prefix, trim_space}
use llama_stack.Base.Int.{pos, scale, to_bits, of_bits}
use llama_stack.Resource.Types.{Time, Duration}
use llama_stack.Resource.Store.{Driver}
use llama_stack.Resource.Manager.{Manager, Random}
use llama_stack.Resource.Manager.Allocation.{Turn}
use llama_stack.Resource.Manager.Operations.{
  issue_capability, list_all, revoke_capability, revoke, authenticate,
}
use llama_stack.ResourceApi.{
  emptied, IssueCapabilityRequest, AllocateRequest, RenewRequest, bearer_token, is_admin,
  issue_capability_handler, list_all_handler, revoke_capability_handler, revoke_handler,
  authenticate_request, allocate_handler, list_handler, renew_handler, release_handler, write_error,
  write_resource_error, seconds,
}

-- The header carries a token: what stands behind `Bearer `, without the space around it, and not
-- empty.
pub record HasToken (authorization token : String) : Type 0 where
  pub rest : String
  pub written : authorization ≡ "Bearer " ++ rest
  pub trimmed : trim_space rest ≡ token
  pub filled : token ≢ ""

bearer_token-HasToken :
    (authorization : String)
    → ((token : String) × HasToken authorization token × (bearer_token authorization ≡ ok token))
      ⊎ (bearer_token authorization ≡ err forbidden)
unfolding bearer_token has_prefix trim_prefix
bearer_token-HasToken authorization = elim (Option-cases (strip_prefix "Bearer " authorization)) [
  | inl bare ↦ inr (rw (bearer_token, has_prefix, bare) refl)
  | inr (rest, found) ↦ elim (Bool-cases (str_eq (trim_space rest) "")) [
    | inl blank ↦ inr (rw (bearer_token, has_prefix, trim_prefix, found, blank) refl)
    | inr filled ↦ inl (
      trim_space rest,
      record {
        rest = rest;
        written = strip_prefix-eq "Bearer " authorization rest found;
        trimmed = refl;
        filled = differs (trim_space rest) "" filled;
      },
      rw (bearer_token, has_prefix, trim_prefix, found, filled) refl,
    )
  ]
]

HasToken-bearer_token :
    (authorization token : String)
    → HasToken authorization token
    → bearer_token authorization ≡ ok token
unfolding bearer_token has_prefix
HasToken-bearer_token authorization token h =
    subst (λ a. bearer_token a ≡ ok token) (sym h.written)
      (rw
        (
          bearer_token,
          has_prefix,
          strip_prefix-append "Bearer " h.rest,
          trim_prefix-append "Bearer " h.rest,
          h.trimmed,
          str_eq-false token "" h.filled,
        )
        refl)

module _ (driver : Driver) (parse_ip : String → Bool) (sha256 : String → List ℕ)
    (admin_token : String) (max_wait : Duration) (schedule : Option (Time → Result (Unit {0})))
    (authorization : String) (m : Manager driver.DB) where
  open driver use {DB}

  -- The four administrative handlers answer 403 and leave the manager as it was.
  pub record IsRefused (decoded : Result IssueCapabilityRequest) (secret identifier : Random)
      (now : Time) (id : String) : Type 0 where
    pub issue :
        issue_capability_handler driver parse_ip sha256 admin_token max_wait schedule authorization
          decoded secret identifier now m
        ≡ (write_error 403 "forbidden" (message "valid administrator token required") 0, m)
    pub listing :
        list_all_handler driver parse_ip sha256 admin_token max_wait schedule authorization now m
        ≡ (write_error 403 "forbidden" (message "valid administrator token required") 0, m)
    pub revocation :
        revoke_capability_handler driver parse_ip sha256 admin_token max_wait schedule authorization
          id m
        ≡ (write_error 403 "forbidden" (message "valid administrator token required") 0, m)
    pub removal :
        revoke_handler driver parse_ip sha256 admin_token max_wait schedule authorization id m
        ≡ (write_error 403 "forbidden" (message "valid administrator token required") 0, m)

  -- They leave the manager as its operations do.
  pub record IsServed (input : IssueCapabilityRequest) (secret identifier : Random) (now : Time)
      (id : String) : Type 0 where
    pub issue :
        (issue_capability_handler driver parse_ip sha256 admin_token max_wait schedule authorization
          (ok input)
          secret
          identifier
          now
          m).1
        ≡ (issue_capability driver parse_ip sha256 secret identifier now input.user_id input.run_id
            input.workspace_id input.target_host
            (seconds input.ttl_seconds)
            m).1
    pub listing :
        (list_all_handler driver parse_ip sha256 admin_token max_wait schedule authorization now
          m).1
        ≡ (list_all driver now m).1
    pub revocation :
        (revoke_capability_handler driver parse_ip sha256 admin_token max_wait schedule
          authorization id m).1
        ≡ (revoke_capability driver id m).1
    pub removal :
        (revoke_handler driver parse_ip sha256 admin_token max_wait schedule authorization id m).1
        ≡ (revoke driver id m).1

  refused :
      is_admin driver parse_ip sha256 admin_token max_wait schedule authorization ≡ false
      → (decoded : Result IssueCapabilityRequest) (secret identifier : Random) (now : Time)
        (id : String)
      → IsRefused decoded secret identifier now id
  unfolding issue_capability_handler list_all_handler revoke_capability_handler revoke_handler
  refused other decoded secret identifier now id = record {
    issue = rw (issue_capability_handler, other) refl;
    listing = rw (list_all_handler, other) refl;
    revocation = rw (revoke_capability_handler, other) refl;
    removal = rw (revoke_handler, other) refl;
  }

  emptied-state :
      (x : Result (Unit {0}) × Manager DB)
      → (emptied driver parse_ip sha256 admin_token max_wait schedule x).1 ≡ x.1
  emptied-state (ok u, s) = refl
  emptied-state (err e, s) = refl

  served :
      is_admin driver parse_ip sha256 admin_token max_wait schedule authorization ≡ true
      → (input : IssueCapabilityRequest) (secret identifier : Random) (now : Time) (id : String)
      → IsServed input secret identifier now id
  unfolding issue_capability_handler list_all_handler revoke_capability_handler revoke_handler
  served admin input secret identifier now id = record {
    issue =
        elim (Result-cases
          (issue_capability driver parse_ip sha256 secret identifier now input.user_id input.run_id
            input.workspace_id input.target_host (seconds input.ttl_seconds) m).0) [
              | inl (x, goes) ↦ rw (issue_capability_handler, admin, goes) refl
              | inr (e, fails) ↦ rw (issue_capability_handler, admin, fails) refl
            ];
    listing = elim (Result-cases (list_all driver now m).0) [
      | inl (x, goes) ↦ rw (list_all_handler, admin, goes) refl
      | inr (e, fails) ↦ rw (list_all_handler, admin, fails) refl
    ];
    revocation =
        rw (revoke_capability_handler, admin) (emptied-state (revoke_capability driver id m));
    removal = rw (revoke_handler, admin) (emptied-state (revoke driver id m));
  }

-- The four administrative handlers serve exactly the requests whose header carries the
-- administrator's token, which is never empty: they leave the manager as its operation does. Any
-- other request they answer 403, and the manager stays as it was.
pub admin-refused :
    (driver : Driver) (parse_ip : String → Bool) (sha256 : String → List ℕ) (admin_token : String)
    (max_wait : Duration) (schedule : Option (Time → Result (Unit {0}))) (authorization : String)
    (m : Manager driver.DB) (input : IssueCapabilityRequest)
    (decoded : Result IssueCapabilityRequest) (secret identifier : Random) (now : Time)
    (id : String)
    → (HasToken authorization admin_token
        × IsServed driver parse_ip sha256 admin_token max_wait schedule authorization m input secret
            identifier now id)
      ⊎ ((¬ HasToken authorization admin_token)
          × IsRefused driver parse_ip sha256 admin_token max_wait schedule authorization m decoded
              secret identifier now id)
unfolding is_admin
admin-refused driver parse_ip sha256 admin_token max_wait schedule authorization m input decoded
      secret identifier now id =
    elim (bearer_token-HasToken authorization) [
      | inr none_given ↦ inr (
        λ h. absurd (cc (sym none_given ∙ HasToken-bearer_token authorization admin_token h)),
        refused driver parse_ip sha256 admin_token max_wait schedule authorization m
            (rw (is_admin, none_given) refl) decoded secret identifier now id,
      )
      | inl (token, has, given) ↦ elim (Bool-cases (str_eq token admin_token)) [
        | inl same ↦ inl (
          subst (HasToken authorization) ((eq_iff token admin_token).0 same) has,
          served driver parse_ip sha256 admin_token max_wait schedule authorization m
              (rw (is_admin, given) same) input secret identifier now id,
        )
        | inr other ↦ inr (
          λ h.
              differs token admin_token other
                (ok-injective (sym given ∙ HasToken-bearer_token authorization admin_token h)),
          refused driver parse_ip sha256 admin_token max_wait schedule authorization m
              (rw (is_admin, given) other) decoded secret identifier now id,
        )
      ]
    ]

-- With an empty administrator token no request at all counts as the administrator's.
pub is_admin-empty :
    (driver : Driver) (parse_ip : String → Bool) (sha256 : String → List ℕ) (max_wait : Duration)
    (schedule : Option (Time → Result (Unit {0}))) (authorization : String)
    → is_admin driver parse_ip sha256 "" max_wait schedule authorization ≡ false
unfolding is_admin bearer_token
is_admin-empty driver parse_ip sha256 max_wait schedule authorization = ground arith

-- A duration of seconds wraps around with the period 2 ^ 55: a lifetime of that many more seconds
-- passes the checks exactly where the shorter one does.
pub seconds-wraps : (n : ℕ) → seconds (pos (n + 2 ^ 55)) ≡ seconds (pos n)
unfolding scale to_bits of_bits
seconds-wraps n = ap of_bits (omega arith)

unauthenticated :
    (driver : Driver) (parse_ip : String → Bool) (sha256 : String → List ℕ) (admin_token : String)
    (max_wait : Duration) (schedule : Option (Time → Result (Unit {0}))) (authorization : String)
    (now : Time) (m : Manager driver.DB)
    → bearer_token authorization ≡ err forbidden
    → authenticate_request driver parse_ip sha256 admin_token max_wait schedule authorization now m
      ≡ (err forbidden, m)
unfolding authenticate_request
unauthenticated driver parse_ip sha256 admin_token max_wait schedule authorization now m e =
    rw (authenticate_request, e) refl

module _ (driver : Driver) (parse_ip : String → Bool) (sha256 : String → List ℕ)
    (admin_token : String) (max_wait : Duration) (schedule : Option (Time → Result (Unit {0})))
    (authorization : String) (m : Manager driver.DB) where
  open driver use {DB}

  -- The four handlers for capabilities answer 403 and leave the manager as it was.
  pub record IsUnknown (requested : Result AllocateRequest) (renewed : Result RenewRequest)
      (now t t' t'' : Time) (turns : List (Turn DB)) (id : String) : Type 0 where
    pub allocation :
        allocate_handler driver parse_ip sha256 admin_token max_wait schedule authorization now t
          requested turns m
        ≡ (some (write_error 403 "forbidden" forbidden 0), m)
    pub listing :
        list_handler driver parse_ip sha256 admin_token max_wait schedule authorization now t m
        ≡ (write_error 403 "forbidden" forbidden 0, m)
    pub renewal :
        renew_handler driver parse_ip sha256 admin_token max_wait schedule authorization now t t'
          t'' renewed id m
        ≡ (write_error 403 "forbidden" forbidden 0, m)
    pub removal :
        release_handler driver parse_ip sha256 admin_token max_wait schedule authorization now id m
        ≡ (write_error 403 "forbidden" forbidden 0, m)

  unknown :
      bearer_token authorization ≡ err forbidden
      → (requested : Result AllocateRequest) (renewed : Result RenewRequest) (now t t' t'' : Time)
        (turns : List (Turn DB)) (id : String)
      → IsUnknown requested renewed now t t' t'' turns id
  unfolding allocate_handler list_handler renew_handler release_handler write_resource_error
  unknown none_given requested renewed now t t' t'' turns id =
      let e =
        unauthenticated driver parse_ip sha256 admin_token max_wait schedule authorization now m
          none_given in
      record {
        allocation =
            rw (allocate_handler, ap (λ y. y.0) e, ap (λ y. y.1) e, write_resource_error) refl;
        listing = rw (list_handler, ap (λ y. y.0) e, ap (λ y. y.1) e, write_resource_error) refl;
        renewal = rw (renew_handler, ap (λ y. y.0) e, ap (λ y. y.1) e, write_resource_error) refl;
        removal = rw (release_handler, ap (λ y. y.0) e, ap (λ y. y.1) e, write_resource_error) refl;
      }

-- A request is authenticated by the manager, with the token that its header carries behind
-- `Bearer `, exactly if there is one that is not empty. Any other request is answered 403 by all
-- four handlers for capabilities, whatever its body is, and the manager stays as it was.
pub token-refused :
    (driver : Driver) (parse_ip : String → Bool) (sha256 : String → List ℕ) (admin_token : String)
    (max_wait : Duration) (schedule : Option (Time → Result (Unit {0}))) (authorization : String)
    (m : Manager driver.DB) (requested : Result AllocateRequest) (renewed : Result RenewRequest)
    (now t t' t'' : Time) (turns : List (Turn driver.DB)) (id : String)
    → ((token : String) × HasToken authorization token
        × (authenticate_request driver parse_ip sha256 admin_token max_wait schedule authorization
              now m
            ≡ authenticate driver sha256 token now m))
      ⊎ (((token : String) → ¬ HasToken authorization token)
          × IsUnknown driver parse_ip sha256 admin_token max_wait schedule authorization m requested
              renewed now t t' t'' turns id)
unfolding authenticate_request
token-refused driver parse_ip sha256 admin_token max_wait schedule authorization m requested renewed
      now t t' t'' turns id =
    elim (bearer_token-HasToken authorization) [
      | inl (token, has, given) ↦ inl (token, has, rw (authenticate_request, given) refl)
      | inr none_given ↦ inr (
        λ token h. absurd (cc (sym none_given ∙ HasToken-bearer_token authorization token h)),
        unknown driver parse_ip sha256 admin_token max_wait schedule authorization m none_given
            requested renewed now t t' t'' turns id,
      )
    ]
