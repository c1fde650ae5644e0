-- ===== src/Resource/Manager/Restoring.antt =====
-- `Open` and `reconcile` of internal/resource/manager.go: what a restart keeps.
use llama_stack.Base.{
  ℕ, ◌≡◌, refl, sym, subst, Bool, not, ◌&&◌, Option, none, some, List, [], ◌∷◌, String, ok, err,
  Failure, inl, inr, Result-cases, ok-injective, Bool-cases,
}
use llama_stack.Base.Actions.{bind-keeps}
use llama_stack.Resource.Types.{Config, Port, Time}
use llama_stack.Resource.Store.{Driver, LeaseRecord, active_leases}
use llama_stack.Resource.Manager.{Manager, listen, install_proxy, query, remove_expired_locked}
use llama_stack.Resource.Manager.Kept.{
  IsKept, lease_named, close_lease_proxies-kept, remove_expired_locked-kept,
}
use llama_stack.Resource.Manager.Operations.{
  restore_ports, restore_records, drop_lease, returned, reconcile, initial, open_manager,
}

-- A port that can be bound gets its listener and its proxy together.
abbrev pub Restorable : {DB : Type 0} → (Manager DB → Type 0) → Type 0
Restorable I =
    (free : ℕ → Bool) (host : String) (p : Port) (m : Manager _)
    → (listen free p.host_port m).0 ≡ ok tt
    → I m
    → I (install_proxy host p (listen free p.host_port m).1)

listen-failed :
    {DB : Type 0} (free : ℕ → Bool) (q : ℕ) (m : Manager DB) {e : Failure}
    → (listen free q m).0 ≡ err e
    → (listen free q m).1 ≡ m
unfolding listen
listen-failed free q m h = elim (Bool-cases (free q && not (m.listening q))) [
  | inl e ↦ absurd (cc (rw (e, listen) at h))
  | inr e ↦ rw (e, listen) refl
]

module _ (driver : Driver) where
  open driver use {DB}

  module _ (I : Manager DB → Type 0) (kept : IsKept driver I) (restores : Restorable I) where
    drop_lease-kept : (r : LeaseRecord) (m : Manager DB) → I m → I (drop_lease driver r m)
    unfolding drop_lease
    drop_lease-kept r m h =
        kept.delete (lease_named r.id) _ (close_lease_proxies-kept driver I kept r m h)

    restore_ports-kept :
        (free : ℕ → Bool) (r : LeaseRecord) (ps : List Port) (e : Option Failure) (m : Manager DB)
        → I m
        → I (restore_ports driver free r ps e m).1
    unfolding restore_ports
    restore_ports-kept free r [] e m h = h
    restore_ports-kept free r (p ∷ ps) e m h = elim (Result-cases (listen free p.host_port m).0) [
      | inl (u, bound) ↦
          rw (bound, restore_ports)
            (restore_ports-kept free r ps none _ (restores free r.target_host p m bound h))
      | inr (x, failed) ↦
          rw (failed, restore_ports)
            (drop_lease-kept r _ (subst I (sym (listen-failed free p.host_port m failed)) h))
    ]

    restore_records-kept :
        (free : ℕ → Bool) (rs : List LeaseRecord) (e : Option Failure) (m : Manager DB)
        → I m
        → I (restore_records driver free rs e m).1
    unfolding restore_records
    restore_records-kept free [] e m h = h
    restore_records-kept free (r ∷ rs) e m h =
        restore_records-kept free rs _ _ (restore_ports-kept free r r.ports e m h)

    returned-kept : (x : Option Failure × Manager DB) → I x.1 → I (returned driver x).1
    returned-kept (none, m) h = h
    returned-kept (some e, m) h = h

    reconcile-kept :
        (free : ℕ → Bool) (now now' : Time) (m : Manager DB)
        → I m
        → I (reconcile driver free now now' m).1
    unfolding reconcile
    reconcile-kept free now now' m h =
        bind-keeps I (remove_expired_locked driver now) _ m
          (remove_expired_locked-kept driver I kept now m h)
          λ _ s h₁.
            bind-keeps I (query (active_leases driver now')) _ s h₁
              λ records s' h₂. returned-kept _ (restore_records-kept free records none s' h₂)

    pub open_manager-kept :
        (config : Config) (db : DB) (free : ℕ → Bool) (now now' : Time) (m : Manager DB)
        → open_manager driver config (ok db) free now now' ≡ ok m
        → I (initial driver config db)
        → I m
    unfolding open_manager
    open_manager-kept config db free now now' m e h =
        elim (Result-cases (reconcile driver free now now' (initial driver config db)).0) [
          | inl (u, goes) ↦
              subst I (ok-injective (rw (goes, open_manager) at e))
                (reconcile-kept free now now' (initial driver config db) h)
          | inr (x, fails) ↦ absurd (cc (rw (fails, open_manager) at e))
        ]
