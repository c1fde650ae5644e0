-- ===== src/ResourceApi/Served.antt =====
-- The client of internal/resourceapi/api.go over a network that hands its requests to the handlers
-- of the same file and brings their answers back.
use Prim.Native.String.{◌++◌}
use llama_stack.Base.{
  ℕ, ◌≡◌, refl, sym, ap, ◌∙◌, subst, ok-injective, Bool, List, false, not, Option, none, some,
  String, Result, ok, err, Failure, exhausted, forbidden, not_found, not_exist, wrapped, canceled,
  deadline_exceeded, message, errorf, if◌then◌else◌, str_eq, Result-cases, inl, inr, ◌↔◌,
}
use llama_stack.Base.Actions.{◌>>=◌, resume, done, fail, lift}
use llama_stack.Base.Int.{ℤ, pos}
use llama_stack.Base.Prefix.{strip_prefix-append, trim_prefix-append}
use llama_stack.Base.Split.{trim_right_char}
use llama_stack.Base.Text.{has_prefix, trim_space}
use llama_stack.Resource.Types.{Capability, Lease, Time, Duration}
use llama_stack.Resource.Store.{Driver}
use llama_stack.Resource.Manager.{Manager}
use llama_stack.Resource.Manager.Operations as Operations
use llama_stack.Resource.Manager.Operations.{authenticate}
use llama_stack.ResourceApi.{
  Response, renew_handler, hand_back, write_json, write_resource_error, leased, bearer_token,
  authenticate_request, seconds,
}
use llama_stack.ResourceApi.Client as C
use llama_stack.ResourceApi.Client.{
  Client, Request, Reply, renew_input, is_success, refusal, decoded, zero_lease, request,
}

is_success-write_resource_error :
    (e : Failure) → is_success (pos (write_resource_error e).status) ≡ false
unfolding write_resource_error
is_success-write_resource_error exhausted = refl
is_success-write_resource_error forbidden = refl
is_success-write_resource_error not_found = refl
is_success-write_resource_error not_exist = refl
is_success-write_resource_error (wrapped t e) = is_success-write_resource_error e
is_success-write_resource_error canceled = refl
is_success-write_resource_error deadline_exceeded = refl
is_success-write_resource_error (message t) = refl
is_success-write_resource_error (errorf f ns) = refl

-- The header that the client writes is read as its token.
bearer_token-written :
    (token : String)
    → trim_space token ≡ token
    → str_eq token "" ≡ false
    → bearer_token ("Bearer " ++ token) ≡ ok token
unfolding bearer_token has_prefix
bearer_token-written token tidy there =
    rw
      (
        bearer_token,
        has_prefix,
        strip_prefix-append "Bearer " token,
        trim_prefix-append "Bearer " token,
        tidy,
        there,
      )
      refl

-- The scheduler took the end of a lease, where there is one.
abbrev pub Accepted : Option (Time → Result (Unit {0})) → Time → Type 0
Accepted none time = Unit {0}
Accepted (some run) time = run time ≡ ok tt

module _ (driver : Driver) (parse_ip : String → Bool) (sha256 : String → List ℕ)
    (admin_token : String) (max_wait : Duration) (schedule : Option (Time → Result (Unit {0})))
    (client : Client (Manager driver.DB)) (wire : Response → Reply)
    (status : (r : Response) → (wire r).status ≡ pos r.status)
    (body : (code : ℕ) (lease : Lease) → (wire (write_json code (leased lease))).lease ≡ ok lease)
    (lease_id : String) (ttl_seconds : ℤ) (now t t' t'' : Time) where
  open driver use {DB}

  -- What the client makes of an answer.
  abbrev received : Response × Manager DB → Result Lease × Manager DB
  received (r, m) =
      resume
        (resume (ok (wire r), m)
          (λ reply. if not (is_success reply.status) then fail (refusal reply) else done reply))
        (λ reply. lift (decoded client zero_lease (λ x. x.lease) reply))

  abbrev carried : Response × Manager DB → Result Reply × Manager DB
  carried (r, m) = (ok (wire r), m)

  received-failed :
      (r : Response) (m m' : Manager DB) (lease : Lease)
      → is_success (pos r.status) ≡ false
      → received (r, m) ≡ (ok lease, m')
      → ⊥
  received-failed r m m' lease bad e = absurd (cc (rw (status r, bad) at e))

  received-leased :
      (lease : Lease) (m : Manager DB) → received (write_json 200 (leased lease), m) ≡ (ok lease, m)
  received-leased lease m = rw (status (write_json 200 (leased lease)), body 200 lease) refl

  abbrev Outcome : Lease → Manager DB → Result Lease × Manager DB → Type 0
  Outcome lease m' x = (x ≡ (ok lease, m')) × Accepted schedule lease.expires_at

  abbrev returning : Lease → Manager DB → Result Lease × Manager DB
  returning lease m = (ok lease, m)

  -- What `renew` of the API answers behind the authentication, and behind the manager's `Renew`.
  abbrev returned : Result Lease × Manager DB → Response × Manager DB
  returned = hand_back driver parse_ip sha256 admin_token max_wait schedule

  abbrev renewed : Capability → Manager DB → Result Lease × Manager DB
  renewed capability m =
      Operations.renew driver capability lease_id (seconds ttl_seconds) t t' t'' m

  abbrev serve : Result Capability × Manager DB → Response × Manager DB
  serve x =
      let (answer, m) = x in
      elim answer [
        | err e ↦ (write_resource_error e, m)
        | ok capability ↦ returned (renewed capability m)
      ]

  abbrev handled : String → Manager DB → Response × Manager DB
  handled authorization m =
      renew_handler driver parse_ip sha256 admin_token max_wait schedule authorization now t t' t''
        (ok (record { ttl_seconds = ttl_seconds })) lease_id m

  authenticated :
      (m : Manager DB)
      → trim_space client.capability_token ≡ client.capability_token
      → str_eq client.capability_token "" ≡ false
      → handled ("Bearer " ++ client.capability_token) m
        ≡ serve (authenticate driver sha256 client.capability_token now m)
  unfolding renew_handler
  authenticated m tidy there =
      let same : authenticate_request driver parse_ip sha256 admin_token max_wait schedule
            ("Bearer " ++ client.capability_token) now m
          ≡ authenticate driver sha256 client.capability_token now m =
        rw (authenticate_request, bearer_token-written client.capability_token tidy there) refl in
      ap serve same

  returned_iff :
      (lease : Lease) (m' : Manager DB) (x : Result Lease × Manager DB)
      → (received (returned x) ≡ (ok lease, m')) ↔ Outcome lease m' x
  unfolding hand_back
  returned_iff lease m' (err e, m) = (
    λ h. absurd (received-failed _ m m' lease (is_success-write_resource_error e) h),
    λ (h, _). absurd (cc h),
  )
  returned_iff lease m' (ok found, m) = scheduled schedule
    where
      same : returning found m ≡ (ok lease, m') → found ≡ lease
      same e = ok-injective (ap (λ x. x.0) e)

      scheduled :
          (s : Option (Time → Result (Unit {0})))
          → (received (hand_back driver parse_ip sha256 admin_token max_wait s (ok found, m))
              ≡ (ok lease, m'))
            ↔ ((returning found m ≡ (ok lease, m')) × Accepted s lease.expires_at)
      scheduled none =
          (λ h. (sym (received-leased found m) ∙ h, tt), λ (h, _). received-leased found m ∙ h)
      scheduled (some run) = elim (Result-cases (run found.expires_at)) [
        | inl (u, goes) ↦ (
          λ h.
              let e = sym (received-leased found m) ∙ (rw (hand_back, goes) at h) in
              (e, ap (λ l. run l.expires_at) (sym (same e)) ∙ goes),
          λ (h, _). rw (hand_back, goes) (received-leased found m ∙ h),
        )
        | inr (x, fails) ↦ (
          λ h. absurd (received-failed _ m m' lease refl (rw (hand_back, fails) at h)),
          λ (h, a). absurd (cc (sym fails ∙ (ap (λ l. run l.expires_at) (same h) ∙ a))),
        )
      ]

  serve_iff :
      (lease : Lease) (m' : Manager DB) (x : Result Capability × Manager DB)
      → (received (serve x) ≡ (ok lease, m')) ↔ (
          (capability : Capability) × (m : Manager DB) × (x ≡ (ok capability, m))
          × Outcome lease m' (renewed capability m))
  serve_iff lease m' (err e, m) = (
    λ h. absurd (received-failed _ m m' lease (is_success-write_resource_error e) h),
    λ (c, m₁, h, _). absurd (cc h),
  )
  serve_iff lease m' (ok capability, m) = (
    λ h. (capability, m, refl, (returned_iff lease m' (renewed capability m)).0 h),
    λ (c, m₁, h, granted). (returned_iff lease m' (renewed capability m)).1 (
        subst (λ k. Outcome lease m' (renewed k m)) (sym (ok-injective (ap (λ x. x.0) h)))
          (subst (λ n. Outcome lease m' (renewed c n)) (sym (ap (λ x. x.1) h)) granted)),
  )

  -- A client whose requests reach the handlers renews a lease exactly if its token authenticates a
  -- capability, the manager renews the lease for it, and the scheduler, where there is one, takes
  -- the new end; it then returns the very lease of the manager. The token is not empty and has no
  -- space around it; the network hands the client's request to the handler, its answer brings back
  -- the status, and a lease in a body is decoded as it was encoded.
  pub renew-served :
      trim_space client.capability_token ≡ client.capability_token
      → str_eq client.capability_token "" ≡ false
      → ((authorization : String) (m : Manager DB)
          → client.send
              (record {
                method = "POST";
                url =
                    trim_right_char b'/' client.base_url
                    ++ ("/v1/ports/leases/" ++ lease_id ++ "/renew");
                authorization = authorization;
                input = renew_input (record { ttl_seconds = ttl_seconds });
              })
              m
            ≡ carried (handled authorization m))
      → (lease : Lease) (m m' : Manager DB)
      → (C.renew client lease_id ttl_seconds m ≡ (ok lease, m')) ↔ (
          (capability : Capability) × (m₁ : Manager DB) × (authenticate driver sha256
              client.capability_token now m
            ≡ (ok capability, m₁))
          × ((Operations.renew driver capability lease_id (seconds ttl_seconds) t t' t'' m₁
                ≡ (ok lease, m'))
              × Accepted schedule lease.expires_at))
  unfolding C.renew request ◌>>=◌
  renew-served tidy there net lease m m' =
      subst
        (λ x. (x ≡ (ok lease, m')) ↔ (
          (capability : Capability) × (m₁ : Manager DB) × (authenticate driver sha256
              client.capability_token now m
            ≡ (ok capability, m₁))
          × Outcome lease m' (renewed capability m₁)))
        (sym (sent ∙ ap received (authenticated m tidy there)))
        (serve_iff lease m' (authenticate driver sha256 client.capability_token now m))
    where
      sent :
          C.renew client lease_id ttl_seconds m
          ≡ received (handled ("Bearer " ++ client.capability_token) m)
      sent = rw (C.renew, request, ◌>>=◌, net ("Bearer " ++ client.capability_token) m) refl
