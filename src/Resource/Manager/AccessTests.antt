-- ===== src/Resource/Manager/AccessTests.antt =====
-- The theorems on tokens, renewals, releases and revocations, applied to runs on a small database.
use llama_stack.Base.{◌≡◌, ◌≢◌, ◌&&◌, refl, subst, [], ◌∷◌, ok, err, Failure, false, str_eq}
use llama_stack.Base.Actions.{◌>>=◌}
use llama_stack.Base.Int.{pos}
use llama_stack.Base.Text.{hex_encode}
use llama_stack.Resource.Types.{Capability, Lease}
use mathlib.Core.List.{Mem}
use llama_stack.Base.Weights.{any-of_mem}
use llama_stack.Resource.Store.{
  LeaseRecord, capability_row, lease_by_id, capability_by_token_hash, capability_from_record,
  update_lease, lease_from_record, delete_lease, capability_by_id, leases_for_capability,
  delete_capability, insert_capability, expired_leases, delete_expired_leases,
  delete_expired_capabilities, active_leases,
}
use llama_stack.Resource.Store.Memory.{Rows, memory, memory-Lawful, lease_rows-memory}
use llama_stack.Resource.Manager.{
  Manager, minimum_time, close_records_proxies, random_id, remove_expired_locked, address_in_use,
}
use llama_stack.Resource.Manager.Samples.{
  last_only, ada, owned, old_lease, own_lease, parses, digest, bytes, config,
}
use llama_stack.Resource.Manager.Operations.{
  renew, release, release_where, revoke_capability, issue_capability, check_capability,
  authenticate, hash_token, new_capability, open_manager, reconcile, initial,
}
use llama_stack.Resource.Manager.Renewing.{IsRenewal, renew-owner}
use llama_stack.Resource.Manager.Releasing.{IsRelease, release_complete, release-stranger}
use llama_stack.Resource.Manager.Revoking.{IsRevocation, revoke_capability_complete}
use llama_stack.Resource.Manager.Tokens.{authenticate-issue, authenticate-issue_accepted}
use llama_stack.Resource.Manager.Reopening.{IsGivenUp, open_manager-last_failed}

abbrev renewed : Lease
renewed = record {
  id = "lease_1";
  user_id = "ada";
  run_id = "run";
  workspace_id = "work";
  target_host = "10.0.0.2";
  ports = own_lease.ports;
  created_at = 7;
  expires_at = 6000;
}

abbrev after_renewal : Manager Rows
after_renewal = (renew memory ada "lease_1" (pos 5000) 998 999 1000 owned).1

renewed_run : (renew memory ada "lease_1" (pos 5000) 998 999 1000 owned).0 ≡ ok renewed
unfolding renew ◌>>=◌ capability_by_token_hash capability_from_record lease_by_id update_lease
    lease_from_record minimum_time
renewed_run = refl

renew-owner_example :
    IsRenewal config ada "lease_1"
      (pos 5000)
      999
      1000
      (memory-Lawful.lease_rows owned.store)
      renewed
      (memory-Lawful.lease_rows after_renewal.store)
    × (after_renewal ≡ record owned { store = after_renewal.store })
renew-owner_example =
    renew-owner memory memory-Lawful ada "lease_1" (pos 5000) 998 999 1000 owned renewed
      after_renewal (λ i. (renewed_run i, after_renewal))

abbrev after_release : Manager Rows
after_release = (release memory ada "lease_1" owned).1

released_run : (release memory ada "lease_1" owned).0 ≡ ok tt
unfolding release release_where ◌>>=◌ lease_by_id delete_lease
released_run = refl

release_complete_example :
    IsRelease ada "lease_1"
      (memory-Lawful.lease_rows owned.store)
      (memory-Lawful.lease_rows after_release.store)
      after_release.listening
release_complete_example =
    release_complete memory memory-Lawful ada "lease_1" owned after_release (λ q. refl)
      (λ i. (released_run i, after_release))

-- The lease "lease_0" is another capability's.
foreign :
    (r : LeaseRecord)
    → Mem r (memory-Lawful.lease_rows owned.store)
    → r.id ≡ "lease_0"
    → r.capability_hash ≢ ada.hash
foreign r stored named same = absurd (
    cc (
      any-of_mem (λ (x : LeaseRecord). str_eq x.id "lease_0" && str_eq x.capability_hash ada.hash)
        (old_lease ∷ own_lease ∷ []) (subst (λ l. Mem r l) (lease_rows-memory owned.store) stored)
        (rw (named, same) refl)))

release-stranger_example : (e : Failure) × (release memory ada "lease_0" owned ≡ (err e, owned))
release-stranger_example =
    release-stranger memory memory-Lawful ada "lease_0" owned (λ e. absurd (cc e)) foreign

abbrev after_revocation : Manager Rows
after_revocation = (revoke_capability memory "cap_1" owned).1

revoked_run : (revoke_capability memory "cap_1" owned).0 ≡ ok tt
unfolding revoke_capability ◌>>=◌ capability_by_id leases_for_capability close_records_proxies
    delete_capability
revoked_run = refl

revoke_capability_complete_example :
    IsRevocation memory memory-Lawful "cap_1" owned.store after_revocation.store
revoke_capability_complete_example =
    revoke_capability_complete memory memory-Lawful "cap_1" owned after_revocation
      (λ i. (revoked_run i, after_revocation))

abbrev eve : Capability
eve = new_capability "07" "cap_01ab" "eve" "run" "work" "10.0.0.9" 100 (pos 4000)

abbrev after_issue : Manager Rows
after_issue =
    (issue_capability memory parses digest (ok (1 ∷ [])) bytes 100 "eve" "run" "work" "10.0.0.9"
      (pos 4000) owned).1

issued_run :
    (issue_capability memory parses digest
      (ok (1 ∷ []))
      bytes
      100
      "eve"
      "run"
      "work"
      "10.0.0.9"
      (pos 4000)
      owned).0
    ≡ ok ("lsrc_01", eve)
unfolding issue_capability ◌>>=◌ check_capability random_id hash_token hex_encode insert_capability
issued_run = refl

eve_accepted : (authenticate memory digest "lsrc_01" 200 after_issue).0 ≡ ok eve
unfolding authenticate issue_capability ◌>>=◌ check_capability random_id hash_token hex_encode
    insert_capability capability_by_token_hash capability_from_record
eve_accepted = refl

authenticate-issue_example : eve ≡ eve
authenticate-issue_example =
    authenticate-issue memory memory-Lawful parses digest (ok (1 ∷ [])) bytes 100 "eve" "run" "work"
      "10.0.0.9" (pos 4000) owned "lsrc_01" eve after_issue 200 eve
      (λ i. (issued_run i, after_issue)) eve_accepted

authenticate-issue_accepted_example :
    (authenticate memory digest "lsrc_01" 200 after_issue).0 ≡ ok eve
unfolding issue_capability ◌>>=◌ check_capability random_id hash_token hex_encode insert_capability
authenticate-issue_accepted_example =
    authenticate-issue_accepted memory memory-Lawful parses digest (ok (1 ∷ [])) bytes 100 "eve"
      "run" "work" "10.0.0.9" (pos 4000) owned "lsrc_01" eve after_issue 200
      (capability_row eve ∷ []) (λ i. (issued_run i, after_issue)) refl refl

swept_run :
    remove_expired_locked memory 10 last_only
    ≡ (ok tt, (remove_expired_locked memory 10 last_only).1)
unfolding remove_expired_locked ◌>>=◌ expired_leases close_records_proxies delete_expired_leases
    delete_expired_capabilities
swept_run = refl

listed_run :
    active_leases memory 20 (remove_expired_locked memory 10 last_only).1.store
    ≡ ok (own_lease ∷ [])
unfolding remove_expired_locked ◌>>=◌ expired_leases close_records_proxies delete_expired_leases
    delete_expired_capabilities active_leases
listed_run = refl

open_manager-last_failed_example :
    (open_manager memory config (ok last_only.store) (λ q. false) 10 20 ≡ err address_in_use)
    × IsGivenUp memory memory-Lawful own_lease
        (reconcile memory (λ q. false) 10 20 (initial memory config last_only.store)).1
open_manager-last_failed_example =
    open_manager-last_failed memory memory-Lawful config last_only.store (λ q. false) 10 20
      (remove_expired_locked memory 10 last_only).1 [] own_lease
      (record { host_port = 20003; target_port = pos 22 }) [] swept_run listed_run refl refl
