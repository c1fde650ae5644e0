-- ===== src/Resource/Manager/Tests.antt =====
-- Runs of the manager of internal/resource on a small database, and its theorems applied to them.
use llama_stack.Base.{
  All, none, ◌≡◌, refl, subst, sym, true, List, [], ◌∷◌, ok, err, arith, ◌≤◌, ◌⊎◌, total, errorf,
}
use llama_stack.Base.Int.{ℤ, pos}
use llama_stack.Resource.Types.{Lease, add}
use llama_stack.Base.Actions.{◌>>=◌}
use llama_stack.Base.Text.{hex_encode}
use llama_stack.Resource.Store.{
  capability_by_token_hash, capability_from_record, expired_leases, delete_expired_leases,
  delete_expired_capabilities, active_leases, insert_lease,
}
use llama_stack.Resource.Store.Memory.{Rows, memory, memory-Lawful, lease_rows-memory}
use llama_stack.Resource.Manager.Samples.{
  ada, before, bytes, config, free, old_lease, parses, digest, rows,
}
use llama_stack.Resource.Manager.Allocation.Waiting.{Waits, allocate-Waits}
use llama_stack.Resource.Manager.{
  close_listeners, close_listener, Manager, remove_expired_locked, random_id, minimum_time, listen,
  close_records_proxies, install_proxy,
}
use llama_stack.Resource.Manager.Allocation.{
  Turn, changed_closed, allocate, check_request, check_targets, allocate_loop, allocate_once,
  commit_lease, reserve_listeners, reserve_loop, check_limits, is_used, install_proxies,
  ports_of_run, ports_of_user,
}
use llama_stack.Resource.Manager.Operations.{
  reconcile, restore_records, restore_ports, drop_lease, open_manager,
}
use llama_stack.Resource.Manager.Exclusive.{IsSound}
use llama_stack.Resource.Manager.History.{Call, run, allocates, renews, revokes, reaps, closes}
use llama_stack.Resource.Manager.History.Soundness.{run-IsSound}
use llama_stack.Resource.Manager.History.Requests.{allocate-IsSound}
use llama_stack.Resource.Manager.History.Unbinding.{IsTight, run-IsTight}
use llama_stack.Resource.Manager.Allocation.Undone.{allocate_once-failed}
use llama_stack.Resource.Manager.Allocation.Reference.{first_fit, reserve_listeners-first_fit}
use llama_stack.Resource.Manager.Allocation.Guarantees.{
  allocate_once-ports, allocate_once-quota, allocate_once-owner, IsGranted,
}

abbrev granted : Lease
granted = record {
  id = "lease_01ab";
  user_id = "ada";
  run_id = "run";
  workspace_id = "work";
  target_host = "10.0.0.2";
  ports =
      record { host_port = 20002; target_port = pos 8080 }
      ∷ record { host_port = 20003; target_port = pos 22 }
      ∷ [];
  created_at = 1000;
  expires_at = 3600000001000;
}

abbrev after_grant : Manager Rows
after_grant =
    (allocate_once memory free 1000 bytes ada (pos 8080 ∷ pos 22 ∷ []) (pos 3600000000000) before).1

granted_run :
    (allocate_once memory free 1000 bytes ada (pos 8080 ∷ pos 22 ∷ []) (pos 3600000000000) before).0
    ≡ ok granted
unfolding allocate_once commit_lease reserve_listeners reserve_loop check_limits is_used
    install_proxies ◌>>=◌ remove_expired_locked random_id minimum_time listen close_records_proxies
    capability_by_token_hash capability_from_record expired_leases delete_expired_leases
    delete_expired_capabilities active_leases insert_lease hex_encode
granted_run = refl

granted_step :
    allocate_once memory free 1000 bytes ada (pos 8080 ∷ pos 22 ∷ []) (pos 3600000000000) before
    ≡ (ok granted, after_grant)
granted_step i = (granted_run i, after_grant)

allocate_once-ports_example :
    IsGranted config (pos 8080 ∷ pos 22 ∷ []) (memory-Lawful.lease_rows after_grant.store) granted
allocate_once-ports_example =
    allocate_once-ports memory memory-Lawful free 1000 bytes ada (pos 8080 ∷ pos 22 ∷ [])
      (pos 3600000000000) before granted after_grant granted_step

allocate_once-quota_example :
    (total (ports_of_run "ada" "run") (memory-Lawful.lease_rows after_grant.store) ≤ 2)
    × (total (ports_of_user "ada") (memory-Lawful.lease_rows after_grant.store) ≤ 3)
allocate_once-quota_example =
    allocate_once-quota memory memory-Lawful free 1000 bytes ada (pos 8080 ∷ pos 22 ∷ [])
      (pos 3600000000000) before granted after_grant granted_step

allocate_once-owner_example :
    (granted.user_id ≡ "ada")
    × (granted.run_id ≡ "run")
    × (granted.workspace_id ≡ "work")
    × (granted.target_host ≡ "10.0.0.2")
    × (granted.expires_at ≤ add 1000 (pos 3600000000000))
    × (granted.expires_at ≤ ada.expires_at)
allocate_once-owner_example =
    allocate_once-owner memory memory-Lawful free 1000 bytes ada (pos 8080 ∷ pos 22 ∷ [])
      (pos 3600000000000) before granted after_grant granted_step

-- Three ports are more than the run may hold.
over_limit :
    (allocate_once memory free 1000 bytes ada
      (pos 1 ∷ pos 2 ∷ pos 3 ∷ [])
      (pos 3600000000000)
      before).0
    ≡ err (errorf "run port limit exceeded: %d maximum" (pos 2 ∷ []))
unfolding allocate_once commit_lease reserve_listeners reserve_loop check_limits is_used
    install_proxies ◌>>=◌ remove_expired_locked random_id minimum_time listen close_records_proxies
    capability_by_token_hash capability_from_record expired_leases delete_expired_leases
    delete_expired_capabilities active_leases insert_lease hex_encode
over_limit = refl

allocate_once-failed_example :
    ((allocate_once memory free 1000 bytes ada
        (pos 1 ∷ pos 2 ∷ pos 3 ∷ [])
        (pos 3600000000000)
        before).1
      ≡ before)
    ⊎ ((allocate_once memory free 1000 bytes ada
          (pos 1 ∷ pos 2 ∷ pos 3 ∷ [])
          (pos 3600000000000)
          before).1
        ≡ (remove_expired_locked memory 1000 before).1)
allocate_once-failed_example =
    allocate_once-failed memory free 1000 bytes ada (pos 1 ∷ pos 2 ∷ pos 3 ∷ []) (pos 3600000000000)
      before (errorf "run port limit exceeded: %d maximum" (pos 2 ∷ [])) over_limit

reserve_listeners-first_fit_example :
    reserve_listeners free (pos 80 ∷ []) (old_lease ∷ []) before
    ≡ first_fit free (pos 80 ∷ []) (old_lease ∷ []) before
reserve_listeners-first_fit_example =
    reserve_listeners-first_fit free (pos 80 ∷ []) (old_lease ∷ []) before

rows-IsSound : IsSound (memory-Lawful.lease_rows rows)
rows-IsSound =
    subst IsSound (sym (lease_rows-memory rows))
      (record { exclusive = λ q. ground arith; keyed = λ k. ground arith })

-- A restart, and what the manager is then asked to do.
abbrev opened : Manager Rows
opened = (reconcile memory (λ q. true) 10 20 before).1

opened_run : open_manager memory config (ok rows) (λ q. true) 10 20 ≡ ok opened
unfolding open_manager reconcile restore_records restore_ports drop_lease ◌>>=◌
    remove_expired_locked listen install_proxy close_records_proxies expired_leases
    delete_expired_leases delete_expired_capabilities active_leases
opened_run = refl

abbrev calls : List Call
calls =
    allocates free 1000 bytes ada (pos 8080 ∷ []) (pos 3600000000000)
    ∷ renews ada "lease_01ab" (pos 5000) 2000 2001 2002
    ∷ revokes "lease_0"
    ∷ reaps 9000000000001
    ∷ closes
    ∷ []

run-IsSound_example :
    IsSound (memory-Lawful.lease_rows (run memory parses digest opened calls).store)
run-IsSound_example =
    run-IsSound memory memory-Lawful parses digest config rows (λ q. true) 10 20 opened calls
      rows-IsSound opened_run

run-IsTight_example :
    IsTight memory (run memory parses digest opened calls) ada "lease_01ab" 9000000000001
run-IsTight_example =
    run-IsTight memory parses digest config rows (λ q. true) 10 20 opened calls opened_run ada
      "lease_01ab" 9000000000001

-- The pool has two free host ports: three target ports of a user with room wait for a change.
abbrev three : List ℤ
three = pos 1 ∷ pos 2 ∷ pos 3 ∷ []

abbrev roomy : Manager Rows
roomy = record before { config = record config { maximum_run = 9; maximum_user = 9 } }

abbrev changed_turn : Turn Rows
changed_turn = record {
  meanwhile = λ m. m;
  free = free;
  now = 1000;
  random = bytes;
  checked = 1001;
  wake = changed_closed;
}

still_waiting :
    (allocate memory 900 ada three (pos 3600000000000) (pos 5000) (changed_turn ∷ []) roomy).0
    ≡ none
unfolding allocate check_request check_targets allocate_loop close_listeners close_listener
    allocate_once commit_lease reserve_listeners reserve_loop check_limits is_used install_proxies
    ◌>>=◌ remove_expired_locked random_id minimum_time listen close_records_proxies
    capability_by_token_hash capability_from_record expired_leases delete_expired_leases
    delete_expired_capabilities active_leases insert_lease hex_encode
still_waiting = refl

allocate-Waits_example : All (Waits (add 900 (pos 5000))) (changed_turn ∷ [])
allocate-Waits_example =
    allocate-Waits memory 900 ada three (pos 3600000000000) (pos 5000) (changed_turn ∷ []) roomy
      still_waiting

roomy-IsSound : IsSound (memory-Lawful.lease_rows roomy.store)
roomy-IsSound = rows-IsSound

allocate-IsSound_example : IsSound (
    memory-Lawful.lease_rows
      (allocate memory 900 ada three
        (pos 3600000000000)
        (pos 5000)
        (changed_turn ∷ [])
        roomy).1.store)
allocate-IsSound_example =
    allocate-IsSound memory memory-Lawful 900 ada three (pos 3600000000000) (pos 5000)
      (changed_turn ∷ []) roomy (λ m h. h, tt) roomy-IsSound
