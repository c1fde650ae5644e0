-- ===== src/Resource/Manager/Kept.antt =====
-- Properties of the manager that closing a proxy, a deletion and a signal keep are kept by every
-- operation that only takes leases away.
use llama_stack.Base.{ℕ, Bool, true, false, List, [], ◌∷◌, String, Result, if◌then◌else◌}
use llama_stack.Base.Actions.{bind-keeps, lift}
use llama_stack.Resource.Types.{Port, Time}
use llama_stack.Resource.Store.{
  Driver, CapabilityRecord, LeaseRecord, expired_leases, delete_expired_leases,
  delete_expired_capabilities, delete_lease, delete_capability, capability_by_id,
  leases_for_capability, lease_by_id,
}
use llama_stack.Resource.Manager.{
  Manager, exec, close_port_proxy, close_ports, close_lease_proxies, close_records_proxies,
  signal_changed_locked, query, modify, remove_expired_locked,
}
use llama_stack.Resource.Manager.Operations.{release_where, revoke_capability}

-- The statements that delete.
pub data Deletion : Type 0 where
  expired_leases_at expired_capabilities_at : Time → Deletion
  lease_named : String → Deletion
  capability_row : CapabilityRecord → Deletion

module _ (driver : Driver) where
  open driver use {DB}

  abbrev pub statement : Deletion → DB → Result DB
  statement (expired_leases_at now) = delete_expired_leases driver now
  statement (expired_capabilities_at now) = delete_expired_capabilities driver now
  statement (lease_named k) = delete_lease driver k
  statement (capability_row c) = delete_capability driver c

  pub record IsKept (I : Manager DB → Type 0) : Type 0 where
    pub close_port : (q : ℕ) (m : Manager DB) → I m → I (close_port_proxy q m)
    pub delete : (d : Deletion) (m : Manager DB) → I m → I (exec (statement d) m).1
    pub signal : (m : Manager DB) → I m → I (signal_changed_locked m)

  module _ (I : Manager DB → Type 0) (kept : IsKept I) where
    pub close_ports-kept : (ps : List Port) (m : Manager DB) → I m → I (close_ports ps m)
    unfolding close_ports
    close_ports-kept [] m h = h
    close_ports-kept (p ∷ ps) m h = close_ports-kept ps _ (kept.close_port p.host_port m h)

    pub close_lease_proxies-kept :
        (r : LeaseRecord) (m : Manager DB) → I m → I (close_lease_proxies r m)
    unfolding close_lease_proxies
    close_lease_proxies-kept r m h = close_ports-kept r.ports m h

    pub close_records_proxies-kept :
        (rs : List LeaseRecord) (m : Manager DB) → I m → I (close_records_proxies rs m)
    unfolding close_records_proxies
    close_records_proxies-kept [] m h = h
    close_records_proxies-kept (r ∷ rs) m h =
        close_records_proxies-kept rs _ (close_lease_proxies-kept r m h)

    pub signal_unless :
        (b : Bool) (m : Manager DB) → I m → I (if b then m else signal_changed_locked m)
    signal_unless true m h = h
    signal_unless false m h = kept.signal m h

    pub remove_expired_locked-kept :
        (now : Time) (m : Manager DB) → I m → I (remove_expired_locked driver now m).1
    unfolding remove_expired_locked
    remove_expired_locked-kept now m h =
        bind-keeps I (query (expired_leases driver now)) _ m h λ rs s₀ h₀.
          bind-keeps I (modify (close_records_proxies rs)) _ s₀
            (close_records_proxies-kept rs s₀ h₀)
            λ _ s₁ h₁.
              bind-keeps I (exec (delete_expired_leases driver now)) _ s₁
                (kept.delete (expired_leases_at now) s₁ h₁)
                λ _ s₂ h₂.
                  bind-keeps I (exec (delete_expired_capabilities driver now)) _ s₂
                    (kept.delete (expired_capabilities_at now) s₂ h₂)
                    λ _ s₃ h₃. signal_unless _ s₃ h₃

    pub release_where-kept :
        (lease_id hash : String) (m : Manager DB) → I m → I (release_where driver lease_id hash m).1
    unfolding release_where
    release_where-kept lease_id hash m h =
        bind-keeps I (query (lease_by_id driver lease_id)) _ m h λ r s₀ h₀.
          bind-keeps I (lift _) _ s₀ h₀ λ _ s₁ h₁.
            bind-keeps I (exec (delete_lease driver lease_id)) _ s₁
              (kept.delete (lease_named lease_id) s₁ h₁)
              λ _ s₂ h₂.
                bind-keeps I (modify (close_lease_proxies r)) _ s₂
                  (close_lease_proxies-kept r s₂ h₂) λ _ s₃ h₃. kept.signal s₃ h₃

    pub revoke_capability-kept :
        (capability_id : String) (m : Manager DB)
        → I m
        → I (revoke_capability driver capability_id m).1
    unfolding revoke_capability
    revoke_capability-kept capability_id m h =
        bind-keeps I (query (capability_by_id driver capability_id)) _ m h λ c s₀ h₀.
          bind-keeps I (query (leases_for_capability driver c.hash 0)) _ s₀ h₀ λ rs s₁ h₁.
            bind-keeps I (modify (close_records_proxies rs)) _ s₁
              (close_records_proxies-kept rs s₁ h₁)
              λ _ s₂ h₂.
                bind-keeps I (exec (delete_capability driver c)) _ s₂
                  (kept.delete (capability_row c) s₂ h₂) λ _ s₃ h₃. kept.signal s₃ h₃
