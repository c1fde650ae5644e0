-- ===== src/Resource/Manager/History/Unbinding.antt =====
-- What the operations of internal/resource/manager.go that take leases away unbind.
use llama_stack.Base.{
  ℕ, ◌≡◌, refl, true, false, List, [], ◌∷◌, String, Result, ok, err, All, is_ok, arith, ◌⊎◌, inl,
  inr, Bool-cases, Bool,
}
use llama_stack.Base.Actions.{◌>>=◌, ◌>>◌, bind-keeps, lift_cases}
use llama_stack.Resource.Types.{Config, Capability, Port, Time}
use llama_stack.Resource.Store.{
  Driver, LeaseRecord, lease_by_id, expired_leases, capability_by_id, leases_for_capability,
  delete_lease, delete_expired_leases, delete_expired_capabilities, delete_capability,
}
use llama_stack.Resource.Manager.{
  Manager, exec, exec_cases, query_cases, exec_then_cases, modify, close_ports, close_lease_proxies,
  close_records_proxies, close_port_proxy, signal_changed_locked, remove_expired_locked,
}
use llama_stack.Resource.Manager.Kept.{
  IsKept, close_ports-kept, close_records_proxies-kept, signal_unless, statement,
}
use llama_stack.Resource.Manager.Allocation.Hosts.{All-has_host}
use llama_stack.Resource.Manager.Closing.{close_ports-Serves, close_port_proxy-shut}
use llama_stack.Resource.Manager.Operations.{
  release, revoke, release_where, reap, revoke_capability, close_manager, open_manager,
}
use llama_stack.Resource.Manager.History.{Call, run}
use llama_stack.Resource.Manager.History.NoLeak.{Serves, Serves-kept, run-Serves}

-- The rows that a statement reads, if it does not fail.
abbrev pub read {ℓ} : {R : Type ℓ} → Result (List R) → List R
read (ok rows) = rows
read (err e) = []

abbrev pub one {ℓ} : {R : Type ℓ} → Result R → List R
one (ok row) = row ∷ []
one (err e) = []

-- None of the host ports of the leases is bound.
abbrev pub Unbound : {DB : Type 0} → Manager DB → List LeaseRecord → Type 0
Unbound m = All (λ r. All (λ p. m.listening p.host_port ≡ false) r.ports)

module _ (driver : Driver) where
  open driver use {DB}

  abbrev pub leases_of : String → DB → List LeaseRecord
  leases_of capability_id db = elim (capability_by_id driver capability_id db) [
    | ok c ↦ read (leases_for_capability driver c.hash 0 db)
    | err e ↦ []
  ]

  -- Every bound port has a proxy, and what takes a lease away unbinds its ports, whether or not
  -- the database then deletes it; `Close` unbinds all of them.
  pub record IsTight (m : Manager DB) (capability : Capability) (id : String) (now : Time)
      : Type 0 where
    pub served : Serves m
    pub released :
        (is_ok (release driver capability id m).0 ≡ false)
        ⊎ Unbound (release driver capability id m).1 (one (lease_by_id driver id m.store))
    pub revoked :
        (is_ok (revoke driver id m).0 ≡ false)
        ⊎ Unbound (revoke driver id m).1 (one (lease_by_id driver id m.store))
    pub reaped : Unbound (reap driver now m).1 (read (expired_leases driver now m.store))
    pub capability_revoked : Unbound (revoke_capability driver id m).1 (leases_of id m.store)
    pub ended : (m.closed ≡ true) ⊎ ((q : ℕ) → (close_manager driver m).listening q ≡ false)

  Unbound-kept : (rs : List LeaseRecord) → IsKept driver (λ m. Unbound m rs)
  unfolding signal_changed_locked
  Unbound-kept rs = record {
    close_port = λ q m h. shut q m rs h;
    delete = λ d m h. exec_cases (λ x. Unbound x.1 rs) (statement driver d) m (λ _ _. h) (λ _ _. h);
    signal = λ m h. h;
  }
    where
      shut_ports :
          (q : ℕ) (m : Manager DB) (ps : List Port)
          → All (λ p. m.listening p.host_port ≡ false) ps
          → All (λ p. (close_port_proxy q m).listening p.host_port ≡ false) ps
      shut_ports q m [] h = tt
      shut_ports q m (p ∷ ps) h = (close_port_proxy-shut p.host_port q m h.0, shut_ports q m ps h.1)

      shut :
          (q : ℕ) (m : Manager DB) (rs : List LeaseRecord)
          → Unbound m rs
          → Unbound (close_port_proxy q m) rs
      shut q m [] h = tt
      shut q m (r ∷ rs) h = (shut_ports q m r.ports h.0, shut q m rs h.1)

  close_lease-Unbound :
      (r : LeaseRecord) (m : Manager DB) → Serves m → Unbound (close_lease_proxies r m) (r ∷ [])
  unfolding close_lease_proxies
  close_lease-Unbound r m h = (
    All-has_host (λ q. (close_ports r.ports m).listening q ≡ false) r.ports
        (λ q p. close_ports-Serves q r.ports m h p),
    tt,
  )

  close_records-Unbound :
      (rs : List LeaseRecord) (m : Manager DB) → Serves m → Unbound (close_records_proxies rs m) rs
  unfolding close_records_proxies close_lease_proxies
  close_records-Unbound [] m h = tt
  close_records-Unbound (r ∷ rs) m h =
      let first = close_lease-Unbound r m h in
      (
        (close_records_proxies-kept driver (λ x. Unbound x (r ∷ [])) (Unbound-kept (r ∷ [])) rs _
            first).0,
        close_records-Unbound rs _
            (close_ports-kept driver Serves (Serves-kept driver) r.ports m h),
      )

  exec-Unbound :
      (rs : List LeaseRecord) (write : DB → Result DB) (m : Manager DB)
      → Unbound m rs
      → Unbound (exec write m).1 rs
  exec-Unbound rs write m h = exec_cases (λ x. Unbound x.1 rs) write m (λ _ _. h) (λ _ _. h)

  reap-Unbound :
      (now : Time) (m : Manager DB)
      → Serves m
      → Unbound (reap driver now m).1 (read (expired_leases driver now m.store))
  unfolding reap remove_expired_locked
  reap-Unbound now m h =
      query_cases (λ x. Unbound x.1 (read (expired_leases driver now m.store)))
        (expired_leases driver now) _ m (λ e failed. rw failed tt)
        (λ rs found. rw found (
          bind-keeps (λ x. Unbound x rs) (modify (close_records_proxies rs)) _ m
            (close_records-Unbound rs m h)
            λ _ s₁ h₁.
              bind-keeps (λ x. Unbound x rs) (exec (delete_expired_leases driver now)) _ s₁
                (exec-Unbound rs (delete_expired_leases driver now) s₁ h₁)
                λ _ s₂ h₂.
                  bind-keeps (λ x. Unbound x rs) (exec (delete_expired_capabilities driver now)) _
                    s₂ (exec-Unbound rs (delete_expired_capabilities driver now) s₂ h₂)
                    λ _ s₃ h₃. signal_unless driver (λ x. Unbound x rs) (Unbound-kept rs) _ s₃ h₃))

  closed-Unbound :
      (r : LeaseRecord) (m : Manager DB)
      → Serves m
      → Unbound ((modify (close_lease_proxies r) >> modify signal_changed_locked) m).1 (r ∷ [])
  unfolding ◌>>=◌
  closed-Unbound r m h = (Unbound-kept (r ∷ [])).signal _ (close_lease-Unbound r m h)

  release_where-Unbound :
      (id hash : String) (m : Manager DB)
      → Serves m
      → (is_ok (release_where driver id hash m).0 ≡ false)
        ⊎ Unbound (release_where driver id hash m).1 (one (lease_by_id driver id m.store))
  unfolding release_where
  release_where-Unbound id hash m h =
      query_cases (λ x. (is_ok x.0 ≡ false) ⊎ Unbound x.1 (one (lease_by_id driver id m.store)))
        (lease_by_id driver id) _ m (λ e failed. inl refl)
        (λ r found. rw found (
          lift_cases (Done r) _ _ m (λ e refused. inl refl)
            (λ _ owned.
              exec_then_cases (Done r) (delete_lease driver id) _ m (λ e failed. inl refl)
                (λ db deleted. inr (closed-Unbound r (record m { store = db }) h)))))
    where
      Done : LeaseRecord → Result (Unit {0}) × Manager DB → Type 0
      Done r x = (is_ok x.0 ≡ false) ⊎ Unbound x.1 (r ∷ [])

  revoke_capability-Unbound :
      (id : String) (m : Manager DB)
      → Serves m
      → Unbound (revoke_capability driver id m).1 (leases_of id m.store)
  unfolding revoke_capability
  revoke_capability-Unbound id m h =
      query_cases (λ x. Unbound x.1 (leases_of id m.store)) (capability_by_id driver id) _ m
        (λ e failed. rw (failed, leases_of) tt)
        (λ c named.
          rw (named, leases_of)
            (query_cases (λ x. Unbound x.1 (read (leases_for_capability driver c.hash 0 m.store)))
              (leases_for_capability driver c.hash 0) _ m (λ e failed. rw failed tt)
              (λ rs found. rw found (
                bind-keeps (λ x. Unbound x rs) (modify (close_records_proxies rs)) _ m
                  (close_records-Unbound rs m h)
                  λ _ s₁ h₁.
                    bind-keeps (λ x. Unbound x rs) (exec (delete_capability driver c)) _ s₁
                      (exec-Unbound rs (delete_capability driver c) s₁ h₁)
                      λ _ s₂ h₂. (Unbound-kept rs).signal s₂ h₂))))

  close_manager-unbound :
      (m : Manager DB)
      → Serves m
      → (m.closed ≡ true) ⊎ ((q : ℕ) → (close_manager driver m).listening q ≡ false)
  unfolding close_manager
  close_manager-unbound m h = elim (Bool-cases m.closed) [
    | inl shut ↦ inl shut
    | inr still ↦ inr (λ q. rw (still, close_manager) (ground (arith, h q)))
  ]

  IsTight-of :
      (m : Manager DB) (capability : Capability) (id : String) (now : Time)
      → Serves m
      → IsTight m capability id now
  unfolding release revoke
  IsTight-of m capability id now h = record {
    served = h;
    released = release_where-Unbound id capability.hash m h;
    revoked = release_where-Unbound id "" m h;
    reaped = reap-Unbound now m h;
    capability_revoked = revoke_capability-Unbound id m h;
    ended = close_manager-unbound m h;
  }

-- Once a manager is opened, whatever sequence of operations it is put through, successful or not,
-- each host port is bound exactly while a proxy is installed for it. From then on a successful
-- `Release` or `Revoke` leaves no host port of its lease bound, `Reap` none of the leases it finds
-- expired, `RevokeCapability` none of the leases it finds for the capability, these two even where
-- the database fails to delete them, and the first `Close` no host port at all.
pub run-IsTight :
    (driver : Driver) (parse_ip : String → Bool) (sha256 : String → List ℕ) (config : Config)
    (db : driver.DB) (free : ℕ → Bool) (now now' : Time) (m : Manager driver.DB) (cs : List Call)
    → open_manager driver config (ok db) free now now' ≡ ok m
    → (capability : Capability) (id : String) (later : Time)
    → IsTight driver (run driver parse_ip sha256 m cs) capability id later
run-IsTight driver parse_ip sha256 config db free now now' m cs opened capability id later =
    IsTight-of driver (run driver parse_ip sha256 m cs) capability id later
      (run-Serves driver parse_ip sha256 config db free now now' m cs opened)
