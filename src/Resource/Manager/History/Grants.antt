-- ===== src/Resource/Manager/History/Grants.antt =====
-- The stored leases of internal/resource/manager.go behind a successful `allocateOnce`.
use llama_stack.Base.{
  ℕ, ◌≤◌, ◌≡◌, subst, Bool, List, String, inl, inr, arith, total, str_eq, eq_iff, Bool-cases,
}
use llama_stack.Base.Int.{ℤ}
use llama_stack.Base.Weights.{indicator}
use llama_stack.Resource.Types.{Capability, Lease, Time, Duration}
use llama_stack.Resource.Store.{Driver, insert_lease}
use llama_stack.Resource.Store.Laws.{has_key, Lawful}
use llama_stack.Resource.Manager.{Manager, Random}
use llama_stack.Resource.Manager.Exclusive.{IsSound, holders, times, leases_named, Within}
use llama_stack.Resource.Manager.Sweep.{active_leases-swept, remove_expired_locked-Within}
use llama_stack.Resource.Manager.Allocation.Hosts.{has_host}
use llama_stack.Resource.Manager.Allocation.Counting.{times_of_not-has_host}
use llama_stack.Resource.Manager.Allocation.Success.{Steps}
use llama_stack.Resource.Manager.Allocation.Guarantees.{holder, rows-Steps}

module _ (driver : Driver) (laws : Lawful driver) where
  open driver use {DB}
  open laws use {lease_rows}

  module _ (free : ℕ → Bool) (now : Time) (random : Random) (capability : Capability)
      (targets : List ℤ) (ttl : Duration) (m : Manager DB) (lease : Lease) (m' : Manager DB)
      (s : Steps driver free now random capability targets ttl m lease m') where
    -- The active leases are among those that were stored before.
    active-Within : Within (lease_rows m.store) s.active
    active-Within w = omega (
      arith,
      active_leases-swept driver laws now m s.swept s.active s.sweep s.listed w,
      subst (λ x. total w (lease_rows x.1.store) ≤ total w (lease_rows m.store)) s.sweep
          (remove_expired_locked-Within driver laws now m w),
    )

    fresh_id : leases_named lease.id s.active ≡ 0
    unfolding insert_lease
    fresh_id =
        subst (λ (l : Lease). leases_named l.id s.active ≡ 0) s.result
          (omega (
            arith,
            (laws.lease_laws.insert_lem _ s.swept.store s.db s.stored).1,
            active_leases-swept driver laws now m s.swept s.active s.sweep s.listed
                (indicator (has_key (λ r. r.id) s.id)),
          ))

    exclusive : IsSound (lease_rows m.store) → (q : ℕ) → holders q (lease_rows m'.store) ≤ 1
    exclusive v q = elim (Bool-cases (has_host q lease.ports)) [
      | inl held ↦
          omega
            (arith, holder driver laws free now random capability targets ttl m lease m' s q held)
      | inr other ↦ omega (
        arith,
        rows-Steps driver laws free now random capability targets ttl m lease m' s
            (λ r. times q r.ports),
        times_of_not-has_host q lease.ports other,
        active-Within (λ r. times q r.ports),
        v.exclusive q,
      )
    ]

    keyed : IsSound (lease_rows m.store) → (k : String) → leases_named k (lease_rows m'.store) ≤ 1
    keyed v k =
        let added =
          rows-Steps driver laws free now random capability targets ttl m lease m' s
            (indicator (has_key (λ r. r.id) k)) in
        elim (Bool-cases (str_eq lease.id k)) [
          | inl same ↦
              let none_before : leases_named k s.active ≡ 0 =
                subst (λ x. leases_named x s.active ≡ 0) ((eq_iff lease.id k).0 same) fresh_id in
              ground arith
          | inr other ↦ omega (
            arith,
            rw other at added,
            active-Within (indicator (has_key (λ r. r.id) k)),
            v.keyed k,
          )
        ]

    pub Steps-IsSound : IsSound (lease_rows m.store) → IsSound (lease_rows m'.store)
    Steps-IsSound v = record { exclusive = exclusive v; keyed = keyed v }
