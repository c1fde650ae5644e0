-- ===== src/ResourceApi/ServedTests.antt =====
-- The client of internal/resourceapi/api.go against its handlers, on a small database.

use llama_stack.Base.{◌≡◌, refl, some, [], ◌∷◌, Result, ok, err, Option, message, ◌↔◌}
use llama_stack.Base.Actions.{◌>>=◌, Action}
use llama_stack.Base.Int.{pos, scale, to_bits, of_bits}
use llama_stack.Base.Text.{
  hex_encode, trim_space, trim_prefix, has_prefix, strip_prefix, trim_left, trim_right, is_space,
}
use llama_stack.Resource.Types.{Capability, Lease, Time}
use llama_stack.Resource.Store.{
  capability_by_token_hash, capability_from_record, lease_by_id, update_lease, lease_from_record,
}
use llama_stack.Resource.Store.Memory.{Rows, memory}
use llama_stack.Resource.Manager.{Manager, minimum_time}
use llama_stack.Resource.Manager.Operations as Operations
use llama_stack.Resource.Manager.Operations.{authenticate, hash_token, initial}
use llama_stack.Resource.Manager.Samples.{config, ada_row, own_lease, parses, digest}
use llama_stack.ResourceApi.{
  Response, Body, leased, renew_handler, hand_back, seconds, bearer_token, authenticate_request,
}
use llama_stack.ResourceApi.Client as C
use llama_stack.ResourceApi.Client.{
  Client, Request, Reply, Input, no_input, issue_input, allocate_input, renew_input, request,
}
use llama_stack.ResourceApi.Served.{Accepted, renew-served}

abbrev lease_in : Body → Result Lease
lease_in (leased lease) = ok lease
lease_in _ = err (message "unexpected body")

abbrev wire : Response → Reply
wire r = record {
  status = pos r.status;
  failure = ok ("", "");
  issued = err (message "unexpected body");
  lease = lease_in r.body;
  leases = ok [];
}

abbrev accepts : Option (Time → Result (Unit {0}))
accepts = some (λ t. ok tt)

-- The network: a renewal reaches the handler.
abbrev answers : Request → Input → Action (Manager Rows) Reply
answers q (renew_input input) m =
    let (r, m') =
      renew_handler memory parses digest "root" (pos 30000000000) accepts q.authorization 9 10 11 12
        (ok input) "lease_1" m in
    (ok (wire r), m')
answers q _ m = (err (message "no route"), m)

abbrev client : Client (Manager Rows)
client = record {
  base_url = "http://127.0.0.1:7070/";
  admin_token = "";
  capability_token = "t";
  send = λ q. answers q q.input;
}

-- The capability of the token holds a lease.
abbrev owned : Manager Rows
owned = initial memory config (record {
  capability_list = record ada_row { hash = "07" } ∷ [];
  lease_list = record own_lease { capability_hash = "07" } ∷ [];
})

abbrev renewed : Lease
renewed = record {
  id = "lease_1";
  user_id = "ada";
  run_id = "run";
  workspace_id = "work";
  target_host = "10.0.0.2";
  ports = record { host_port = 20003; target_port = pos 22 } ∷ [];
  created_at = 7;
  expires_at = 60000000012;
}

renewal : (C.renew client "lease_1" (pos 60) owned).0 ≡ ok renewed
unfolding C.renew request renew_handler hand_back authenticate_request bearer_token has_prefix
    trim_prefix strip_prefix trim_space trim_left trim_right is_space authenticate hash_token
    hex_encode capability_by_token_hash capability_from_record Operations.renew ◌>>=◌ lease_by_id
    update_lease lease_from_record minimum_time scale to_bits of_bits
renewal = refl

abbrev after : Manager Rows
after = (C.renew client "lease_1" (pos 60) owned).1

renew-served_example : (C.renew client "lease_1" (pos 60) owned ≡ (ok renewed, after)) ↔ (
    (capability : Capability) × (m₁ : Manager Rows) × (authenticate memory digest "t" 9 owned
      ≡ (ok capability, m₁))
    × ((Operations.renew memory capability "lease_1" (seconds (pos 60)) 10 11 12 m₁
          ≡ (ok renewed, after))
        × Accepted accepts renewed.expires_at))
unfolding trim_space trim_left trim_right is_space
renew-served_example =
    renew-served memory parses digest "root" (pos 30000000000) accepts client wire (λ r. refl)
      (λ code lease. refl) "lease_1" (pos 60) 9 10 11 12 refl refl (λ authorization m. refl) renewed
      owned after
