-- ===== src/ResourceApi/Tests.antt =====
-- The theorems on the HTTP surface of the manager, applied to requests on a small database.
use llama_stack.Base.{
  ℕ, ◌≡◌, ◌⊎◌, refl, Bool, true, false, Option, none, some, List, [], ◌∷◌, String, Result, ok, err,
  forbidden, message,
}
use llama_stack.Base.Actions.{◌>>=◌}
use llama_stack.Base.Int.{pos, scale, to_bits, of_bits}
use llama_stack.Base.Text.{
  hex_encode, trim_space, trim_prefix, has_prefix, strip_prefix, trim_left, trim_right, is_space,
}
use llama_stack.Resource.Types.{Lease, Time}
use llama_stack.Resource.Manager.{
  Manager, remove_expired_locked, random_id, minimum_time, listen, install_proxy,
  close_records_proxies,
}
use llama_stack.Resource.Manager.Allocation.{
  Turn, timer_fired, allocate, check_request, check_targets, allocate_loop, allocate_once,
  commit_lease, reserve_listeners, reserve_loop, check_limits, is_used, install_proxies,
}
use llama_stack.Resource.Manager.Operations.{authenticate, hash_token}
use llama_stack.Resource.Store.{
  CapabilityRecord, capability_by_token_hash, capability_from_record, expired_leases,
  delete_expired_leases, delete_expired_capabilities, active_leases, insert_lease,
}
use llama_stack.Resource.Store.Memory.{Rows, memory}
use llama_stack.ResourceApi.{
  IssueCapabilityRequest, AllocateRequest, authenticate_request, hand_out, bearer_token, is_admin,
  allocate_handler, write_json, leased,
}
use llama_stack.ResourceApi.Admission.{
  HasToken, IsServed, IsRefused, IsUnknown, admin-refused, token-refused,
}
use llama_stack.ResourceApi.Scheduling.{allocate_handler-scheduled}

abbrev parses : String → Bool
parses s = true

abbrev digest : String → List ℕ
digest s = 7 ∷ []

abbrev manager : Manager Rows
manager = record {
  config = record {
    port_start = 20000;
    port_end = 20003;
    default_ttl = pos 3600000000000;
    maximum_ttl = pos 7200000000000;
    maximum_run = 2;
    maximum_user = 3;
  };
  store = record { capability_list = []; lease_list = [] };
  proxies = λ q. none;
  listening = λ q. false;
  changed = 0;
  closed = false;
}

abbrev nothing_decoded : Result IssueCapabilityRequest
nothing_decoded = err (message "EOF")

abbrev wanted : IssueCapabilityRequest
wanted = record {
  user_id = "ada";
  run_id = "run";
  workspace_id = "work";
  target_host = "10.0.0.2";
  ttl_seconds = pos 60;
}

admin-refused_example :
    (HasToken "Bearer guess" "root"
      × IsServed memory parses digest "root"
          (pos 0)
          none
          "Bearer guess"
          manager
          wanted
          (ok [])
          (ok [])
          5
          "cap_1")
    ⊎ ((¬ HasToken "Bearer guess" "root")
        × IsRefused memory parses digest "root"
            (pos 0)
            none
            "Bearer guess"
            manager
            nothing_decoded
            (ok [])
            (ok [])
            5
            "cap_1")
admin-refused_example =
    admin-refused memory parses digest "root" (pos 0) none "Bearer guess" manager wanted
      nothing_decoded (ok []) (ok []) 5 "cap_1"

guessed :
    (is_admin memory parses digest "root" (pos 0) none "Bearer guess" ≡ false)
    × (is_admin memory parses digest "root" (pos 0) none "Bearer root " ≡ true)
    × (is_admin memory parses digest "" (pos 0) none "Bearer " ≡ false)
unfolding is_admin bearer_token has_prefix trim_prefix strip_prefix trim_space trim_left trim_right
    is_space
guessed = (refl, refl, refl)

token-refused_example :
    ((token : String) × HasToken "Basic x" token
      × (authenticate_request memory parses digest "root" (pos 0) none "Basic x" 5 manager
          ≡ authenticate memory digest token 5 manager))
    ⊎ (((token : String) → ¬ HasToken "Basic x" token)
        × IsUnknown memory parses digest "root"
            (pos 0)
            none
            "Basic x"
            manager
            (err (message "EOF"))
            (err (message "EOF"))
            5
            6
            7
            8
            []
            "lease_1")
token-refused_example =
    token-refused memory parses digest "root" (pos 0) none "Basic x" manager (err (message "EOF"))
      (err (message "EOF")) 5 6 7 8 [] "lease_1"

no_token : (bearer_token "Basic x" ≡ err forbidden) × (bearer_token "Bearer  " ≡ err forbidden)
unfolding bearer_token has_prefix trim_prefix strip_prefix trim_space trim_left trim_right is_space
no_token = (refl, refl)

abbrev ada_row : CapabilityRecord
ada_row = record {
  hash = "07";
  id = "cap_1";
  user_id = "ada";
  run_id = "run";
  workspace_id = "work";
  target_host = "10.0.0.2";
  expires_at = 9000000000000;
}

abbrev ready : Manager Rows
ready = record manager { store = record { capability_list = ada_row ∷ []; lease_list = [] } }

abbrev turn : Turn Rows
turn = record {
  meanwhile = λ m. m;
  free = λ q. true;
  now = 1000;
  random = ok (1 ∷ []);
  checked = 1001;
  wake = timer_fired;
}

abbrev accepts : Option (Time → Result (Unit {0}))
accepts = some (λ t. ok tt)

abbrev asked : Result AllocateRequest
asked = ok (record { target_ports = pos 8080 ∷ []; ttl_seconds = pos 60; wait_seconds = pos 0 })

abbrev handed_out : Lease
handed_out = record {
  id = "lease_01";
  user_id = "ada";
  run_id = "run";
  workspace_id = "work";
  target_host = "10.0.0.2";
  ports = record { host_port = 20000; target_port = pos 8080 } ∷ [];
  created_at = 1000;
  expires_at = 60000001000;
}

answered :
    (allocate_handler memory parses digest "root"
      (pos 30000000000)
      accepts
      "Bearer t"
      5
      6
      asked
      (turn ∷ [])
      ready).0
    ≡ some (write_json 201 (leased handed_out))
unfolding allocate_handler authenticate_request hand_out bearer_token has_prefix trim_prefix
    strip_prefix trim_space trim_left trim_right is_space authenticate hash_token hex_encode
    capability_by_token_hash capability_from_record allocate check_request check_targets
    allocate_loop allocate_once commit_lease reserve_listeners reserve_loop check_limits is_used
    install_proxies ◌>>=◌ remove_expired_locked random_id minimum_time listen install_proxy
    close_records_proxies expired_leases delete_expired_leases delete_expired_capabilities
    active_leases insert_lease scale to_bits of_bits
answered = refl

allocate_handler-scheduled_example :
    (lease : Lease) × (write_json 201 (leased handed_out) ≡ write_json 201 (leased lease))
    × ((accepts ≡ none)
        ⊎ ((run : Time → Result (Unit {0})) × (accepts ≡ some run)
            × (run lease.expires_at ≡ ok tt)))
allocate_handler-scheduled_example =
    allocate_handler-scheduled memory parses digest "root" (pos 30000000000) accepts "Bearer t" 5 6
      asked (turn ∷ []) ready (write_json 201 (leased handed_out)) answered refl
