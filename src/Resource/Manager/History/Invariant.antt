-- ===== src/Resource/Manager/History/Invariant.antt =====
-- Invariants of internal/resource/manager.go: what is to show of each operation, and histories.
use llama_stack.Base.{ℕ, sym, subst, Bool, List, [], ◌∷◌, String, inl, inr, Result-cases}
use llama_stack.Base.Int.{ℤ}
use llama_stack.Resource.Types.{Capability, Lease, Time, Duration}
use llama_stack.Resource.Store.{Driver}
use llama_stack.Resource.Manager.{Manager, Random}
use llama_stack.Resource.Manager.Kept.{
  IsKept, release_where-kept, revoke_capability-kept, remove_expired_locked-kept,
}
use llama_stack.Resource.Manager.Allocation.{allocate_once}
use llama_stack.Resource.Manager.Allocation.Success.{Steps, allocate_once-Steps}
use llama_stack.Resource.Manager.Allocation.Undone.{allocate_once-failed}
use llama_stack.Resource.Manager.Operations.{
  issue_capability, renew, release, revoke, reap, close_manager,
}
use llama_stack.Resource.Manager.History.{
  Call, step, run, issues, allocates, renews, releases, revokes, revokes_capability, reaps, closes,
}

module _ (driver : Driver) (parse_ip : String → Bool) (sha256 : String → List ℕ) where
  open driver use {DB}

  -- What is left to show of each operation: a failed attempt to allocate only sweeps.
  pub record IsInvariant (I : Manager DB → Type 0) : Type 0 where
    pub kept : IsKept driver I
    pub issued :
        (secret identifier : Random) (now : Time) (user run workspace host : String)
        (ttl : Duration) (m : Manager DB)
        → I m
        → I
            (issue_capability driver parse_ip sha256 secret identifier now user run workspace host
              ttl m).1
    pub granted :
        (free : ℕ → Bool) (now : Time) (random : Random) (capability : Capability)
        (targets : List ℤ) (ttl : Duration) (m : Manager DB) (lease : Lease) (m' : Manager DB)
        → Steps driver free now random capability targets ttl m lease m'
        → I m
        → I m'
    pub renewed :
        (capability : Capability) (lease_id : String) (ttl : Duration) (now now' now'' : Time)
        (m : Manager DB)
        → I m
        → I (renew driver capability lease_id ttl now now' now'' m).1
    pub ended : (m : Manager DB) → I m → I (close_manager driver m)

  module _ (I : Manager DB → Type 0) (invariant : IsInvariant I) where
    open invariant use {kept}

    pub allocate_once-keeps :
        (free : ℕ → Bool) (now : Time) (random : Random) (capability : Capability)
        (targets : List ℤ) (ttl : Duration) (m : Manager DB)
        → I m
        → I (allocate_once driver free now random capability targets ttl m).1
    allocate_once-keeps free now random capability targets ttl m h =
        elim (Result-cases (allocate_once driver free now random capability targets ttl m).0) [
          | inl (lease, e) ↦
              invariant.granted free now random capability targets ttl m lease _
                (allocate_once-Steps driver free now random capability targets ttl m lease _
                  (λ i. (e i, (allocate_once driver free now random capability targets ttl m).1)))
                h
          | inr (x, e) ↦
              elim (allocate_once-failed driver free now random capability targets ttl m x e) [
                | inl same ↦ subst I (sym same) h
                | inr swept ↦ subst I (sym swept) (remove_expired_locked-kept driver I kept now m h)
              ]
        ]

    step-keeps : (c : Call) (m : Manager DB) → I m → I (step driver parse_ip sha256 m c)
    unfolding step release revoke reap
    step-keeps (issues secret identifier now user run workspace host ttl) m h =
        invariant.issued secret identifier now user run workspace host ttl m h
    step-keeps (allocates free now random capability targets ttl) m h =
        allocate_once-keeps free now random capability targets ttl m h
    step-keeps (renews capability lease_id ttl now now' now'') m h =
        invariant.renewed capability lease_id ttl now now' now'' m h
    step-keeps (releases capability lease_id) m h =
        release_where-kept driver I kept lease_id capability.hash m h
    step-keeps (revokes lease_id) m h = release_where-kept driver I kept lease_id "" m h
    step-keeps (revokes_capability id) m h = revoke_capability-kept driver I kept id m h
    step-keeps (reaps now) m h = remove_expired_locked-kept driver I kept now m h
    step-keeps closes m h = invariant.ended m h

    pub run-keeps : (cs : List Call) (m : Manager DB) → I m → I (run driver parse_ip sha256 m cs)
    unfolding run
    run-keeps [] m h = h
    run-keeps (c ∷ cs) m h = run-keeps cs _ (step-keeps c m h)
