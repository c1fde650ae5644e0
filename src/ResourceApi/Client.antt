-- ===== src/ResourceApi/Client.antt =====
-- The client of internal/resourceapi/api.go. The network is an argument: an action on a state that
-- answers a request, with what `encoding/json` finds in the answer for each type that is decoded.
use Prim.Native.String.{◌++◌}
use llama_stack.Base.{
  Bool, not, ◌&&◌, none, some, List, [], ◌∷◌, String, Result, ok, err, Failure, message, errorf,
  if◌then◌else◌,
}
use llama_stack.Base.Actions.{Action, ◌>>=◌, done, fail, lift}
use llama_stack.Base.Int.{ℤ, pos, ltb_ℤ, leb_ℤ}
use llama_stack.Base.Split.{trim_right_char, atoi}
use llama_stack.Resource.Types.{Capability, Lease}
use llama_stack.ResourceApi.{IssueCapabilityRequest, AllocateRequest, RenewRequest}

-- The bodies that requests carry.
pub data Input : Type 0 where
  no_input : Input
  issue_input : IssueCapabilityRequest → Input
  allocate_input : AllocateRequest → Input
  renew_input : RenewRequest → Input

pub record Request : Type 0 where
  pub method : String
  pub url : String
  pub authorization : String
  pub input : Input

-- An answer: its status, and what its body decodes to.
pub record Reply : Type 0 where
  pub status : ℤ
  pub failure : Result (String × String)
  pub issued : Result (String × Capability)
  pub lease : Result Lease
  pub leases : Result (List Lease)

pub record Client (S : Type 0) : Type 0 where
  pub base_url : String
  pub admin_token : String
  pub capability_token : String
  pub send : Request → Action S Reply

abbrev pub is_success : ℤ → Bool
is_success status = leb_ℤ (pos 200) status && ltb_ℤ status (pos 300)

abbrev pub refusal : Reply → Failure
refusal reply = elim reply.failure [
  | err e ↦ errorf "resource API returned HTTP %d" (reply.status ∷ [])
  | ok (code, text) ↦ message (code ++ ": " ++ text)
]

-- The zero values of Go.
abbrev zero_capability : Capability
zero_capability = record {
  id = "";
  hash = "";
  user_id = "";
  run_id = "";
  workspace_id = "";
  target_host = "";
  expires_at = 0;
}

abbrev pub zero_lease : Lease
zero_lease = record {
  id = "";
  user_id = "";
  run_id = "";
  workspace_id = "";
  target_host = "";
  ports = [];
  created_at = 0;
  expires_at = 0;
}

module _ {S : Type 0} (client : Client S) where
  -- `request`, up to the decoding of the answer.
  unfoldable pub request : String → String → String → Input → Action S Reply
  unfolding trim_right_char ◌>>=◌
  request method path token input = do
    reply ← client.send (record {
      method = method;
      url = trim_right_char b'/' client.base_url ++ path;
      authorization = "Bearer " ++ token;
      input = input;
    })
    if not (is_success reply.status) then fail (refusal reply) else done reply

  -- The decoding of an answer with a body: no body is read behind the status 204.
  abbrev pub decoded : {A : Type 0} → A → (Reply → Result A) → Reply → Result A
  decoded zero_value read reply =
      if leb_ℤ (pos 204) reply.status && leb_ℤ reply.status (pos 204)
      then ok zero_value
      else read reply

  unfoldable pub issue_capability : IssueCapabilityRequest → Action S (String × Capability)
  unfolding request ◌>>=◌
  issue_capability input = do
    reply ← request "POST" "/v1/admin/capabilities" client.admin_token (issue_input input)
    lift (decoded ("", zero_capability) (λ r. r.issued) reply)

  unfoldable pub revoke_capability : String → Action S (Unit {0})
  unfolding request ◌>>=◌
  revoke_capability capability_id = do
    _ ← request "DELETE" ("/v1/admin/capabilities/" ++ capability_id) client.admin_token no_input
    done tt

  unfoldable pub allocate : AllocateRequest → Action S Lease
  unfolding request ◌>>=◌
  allocate input = do
    reply ← request "POST" "/v1/ports/leases" client.capability_token (allocate_input input)
    lift (decoded zero_lease (λ r. r.lease) reply)

  unfoldable pub list : Action S (List Lease)
  unfolding request ◌>>=◌
  list = do
    reply ← request "GET" "/v1/ports/leases" client.capability_token no_input
    lift (decoded [] (λ r. r.leases) reply)

  unfoldable pub list_all : Action S (List Lease)
  unfolding request ◌>>=◌
  list_all = do
    reply ← request "GET" "/v1/admin/leases" client.admin_token no_input
    lift (decoded [] (λ r. r.leases) reply)

  unfoldable pub renew : String → ℤ → Action S Lease
  unfolding request ◌>>=◌
  renew lease_id ttl_seconds = do
    reply ←
        request "POST" ("/v1/ports/leases/" ++ lease_id ++ "/renew") client.capability_token
          (renew_input (record { ttl_seconds = ttl_seconds }))
    lift (decoded zero_lease (λ r. r.lease) reply)

  unfoldable pub release : String → Action S (Unit {0})
  unfolding request ◌>>=◌
  release lease_id = do
    _ ← request "DELETE" ("/v1/ports/leases/" ++ lease_id) client.capability_token no_input
    done tt

  unfoldable pub revoke : String → Action S (Unit {0})
  unfolding request ◌>>=◌
  revoke lease_id = do
    _ ← request "DELETE" ("/v1/admin/leases/" ++ lease_id) client.admin_token no_input
    done tt

-- `Seconds`.
unfoldable pub seconds_of : String → Result ℤ
unfolding atoi
seconds_of value = elim (atoi value) [
  | none ↦ err (message "strconv.Atoi: parsing the value failed")
  | some n ↦ (if ltb_ℤ n (pos 0) then err (message "seconds must not be negative") else ok n)
]
