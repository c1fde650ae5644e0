-- ===== src/Resource/Manager/Allocation/Guarantees.antt =====
-- What a lease that `allocateOnce` returns is worth: its ports, its quotas, its owner and its end.
use text.Mathlib.TextPositions.{eq_refl}
use llama_stack.Base.{
  ℕ, suc, ◌+◌, ◌-◌, ◌≤◌, ◌<◌, ◌≡◌, refl, ap, sym, ◌∙◌, subst, All-weaken, Bool, true, List, map, ok,
  arith, length, total, All,
}
use llama_stack.Base.Int.{ℤ}
use llama_stack.Resource.Types.{Config, Capability, Lease, Port, Time, Duration, add}
use llama_stack.Resource.Store.{Driver, LeaseRecord, lease_row, insert_lease}
use llama_stack.Resource.Store.Laws.{Lawful}
use llama_stack.Resource.Manager.{Manager, Random, minimum_time}
use llama_stack.Resource.Manager.Exclusive.{times, holders}
use llama_stack.Resource.Manager.Sweep.{remove_expired_locked-config, active_leases-swept}
use llama_stack.Resource.Manager.Allocation.{ports_of_run, ports_of_user, allocate_once}
use llama_stack.Resource.Manager.Allocation.Hosts.{
  available, assign, has_host, All-has_host, has_host-available, can_bind,
}
use llama_stack.Resource.Manager.Allocation.Success.{Steps, allocate_once-Steps, given}
use llama_stack.Resource.Manager.Allocation.Counting.{
  install_proxies-store, holders_of_not-is_used, times-available-le, times_of_has_host,
  targets-assign, length-assign, assign-InRange, check_limits-ok,
}

-- The ports of a lease, against the request, the pool and the leases stored with it.
pub record IsGranted (config : Config) (targets : List ℤ) (rows : List LeaseRecord) (lease : Lease)
    : Type 0 where
  pub served : map (λ p. p.target_port) lease.ports ≡ targets
  pub in_pool :
      All (λ p. (config.port_start ≤ p.host_port) × (p.host_port < suc config.port_end)) lease.ports
  pub alone : All (λ p. holders p.host_port rows ≡ 1) lease.ports

module _ (driver : Driver) (laws : Lawful driver) where
  open driver use {DB}
  open laws use {lease_rows}

  module _ (free : ℕ → Bool) (now : Time) (random : Random) (capability : Capability)
      (targets : List ℤ) (ttl : Duration) (m : Manager DB) (lease : Lease) (m' : Manager DB)
      (s : Steps driver free now random capability targets ttl m lease m') where
    abbrev start : ℕ
    start = s.swept.config.port_start

    abbrev left : ℕ
    left = suc s.swept.config.port_end - start

    abbrev can : ℕ → Bool
    can = can_bind free s.active s.swept.listening

    abbrev hosts : List Port
    hosts = given driver free now random capability targets ttl m s.active s.swept

    lease_ports : hosts ≡ lease.ports
    lease_ports = ap (λ (l : Lease). l.ports) s.result

    store_eq : s.db ≡ m'.store
    store_eq =
        sym (install_proxies-store capability.target_host hosts _)
        ∙ ap (λ (y : Manager DB). y.store) s.final

    -- The table holds the new lease and the leases that were active.
    pub rows-Steps :
        (w : LeaseRecord → ℕ)
        → total w (lease_rows m'.store) ≡ w (lease_row lease capability.hash) + total w s.active
    unfolding insert_lease
    rows-Steps w =
        subst
          (λ db. total w (lease_rows db) ≡ w (lease_row lease capability.hash) + total w s.active)
          store_eq
          (subst
            (λ l. total w (lease_rows s.db) ≡ w (lease_row l capability.hash) + total w s.active)
            s.result
            (omega (
              arith,
              (laws.lease_laws.insert_lem _ s.swept.store s.db s.stored).0 w,
              active_leases-swept driver laws now m s.swept s.active s.sweep s.listed w,
            )))

    swept_config : s.swept.config ≡ m.config
    swept_config = sym (ap (λ y. y.1.config) s.sweep) ∙ remove_expired_locked-config driver now m

    in_pool :
        All (λ p. (m.config.port_start ≤ p.host_port) × (p.host_port < suc m.config.port_end)) hosts
    in_pool =
        subst
          (λ (c : Config).
            All (λ p. (c.port_start ≤ p.host_port) × (p.host_port < suc c.port_end)) hosts)
          swept_config
          (All-weaken _ _ (λ p h. (h.0, omega arith)) (assign (available can left start) targets)
            (assign-InRange can left start (start + left) targets (omega arith)))

    alone :
        (q : ℕ)
        → has_host q lease.ports ≡ true
        → (times q lease.ports ≡ 1) × (holders q s.active ≡ 0)
    alone q g =
        let given_q : has_host q hosts ≡ true =
          subst (λ ps. has_host q ps ≡ true) (sym lease_ports) g in
        let once : times q lease.ports ≤ 1 =
          subst (λ ps. times q ps ≤ 1) lease_ports (times-available-le can left start targets q) in
        let some_q = times_of_has_host q lease.ports g in
        let can = has_host-available can left start targets q given_q in
        (omega arith, holders_of_not-is_used s.active q (ground arith))

    -- A host port of the lease is held by the lease alone.
    pub holder : (q : ℕ) → has_host q lease.ports ≡ true → holders q (lease_rows m'.store) ≡ 1
    holder q g = omega (arith, rows-Steps (λ r. times q r.ports), alone q g)

    ports-Steps : IsGranted m.config targets (lease_rows m'.store) lease
    ports-Steps = record {
      served =
          subst (λ ps. map (λ p. p.target_port) ps ≡ targets) lease_ports
            (targets-assign _ targets s.enough);
      in_pool =
          subst
            (All (λ p. (m.config.port_start ≤ p.host_port) × (p.host_port < suc m.config.port_end)))
            lease_ports in_pool;
      alone = All-has_host _ lease.ports holder;
    }

    quota-Steps :
        (total (ports_of_run capability.user_id capability.run_id) (lease_rows m'.store)
          ≤ m.config.maximum_run)
        × (total (ports_of_user capability.user_id) (lease_rows m'.store) ≤ m.config.maximum_user)
    quota-Steps =
        let (run, user) = check_limits-ok m.config capability (length targets) s.active s.allowed in
        (
          omega (
            arith,
            rows-Steps (ports_of_run capability.user_id capability.run_id),
            subst
                (λ l.
                  ports_of_run capability.user_id capability.run_id (lease_row l capability.hash)
                  ≡ length targets)
                s.result
                (rw (eq_refl capability.user_id, eq_refl capability.run_id)
                  (length-assign _ targets s.enough)),
          ),
          omega (
            arith,
            rows-Steps (ports_of_user capability.user_id),
            subst
                (λ l.
                  ports_of_user capability.user_id (lease_row l capability.hash) ≡ length targets)
                s.result (rw (eq_refl capability.user_id) (length-assign _ targets s.enough)),
          ),
        )

    owner-Steps :
        (lease.user_id ≡ capability.user_id)
        × (lease.run_id ≡ capability.run_id)
        × (lease.workspace_id ≡ capability.workspace_id)
        × (lease.target_host ≡ capability.target_host)
        × (lease.expires_at ≤ add now ttl)
        × (lease.expires_at ≤ capability.expires_at)
    unfolding minimum_time
    owner-Steps = rw (← s.result) (refl, refl, refl, refl, ground arith, ground arith)

-- A lease that `allocateOnce` returns serves the target ports in order, from the pool of the
-- configuration, and holds each of its host ports once while no other stored lease holds it.
pub allocate_once-ports :
    (driver : Driver) (laws : Lawful driver) (free : ℕ → Bool) (now : Time) (random : Random)
    (capability : Capability) (targets : List ℤ) (ttl : Duration) (m : Manager driver.DB)
    (lease : Lease) (m' : Manager driver.DB)
    → allocate_once driver free now random capability targets ttl m ≡ (ok lease, m')
    → IsGranted m.config targets (laws.lease_rows m'.store) lease
allocate_once-ports driver laws free now random capability targets ttl m lease m' e =
    ports-Steps driver laws free now random capability targets ttl m lease m'
      (allocate_once-Steps driver free now random capability targets ttl m lease m' e)

-- After a successful `allocateOnce` the stored leases of the capability's run hold at most
-- `maximum_run` ports, and those of its user at most `maximum_user`.
pub allocate_once-quota :
    (driver : Driver) (laws : Lawful driver) (free : ℕ → Bool) (now : Time) (random : Random)
    (capability : Capability) (targets : List ℤ) (ttl : Duration) (m : Manager driver.DB)
    (lease : Lease) (m' : Manager driver.DB)
    → allocate_once driver free now random capability targets ttl m ≡ (ok lease, m')
    → (total (ports_of_run capability.user_id capability.run_id) (laws.lease_rows m'.store)
        ≤ m.config.maximum_run)
      × (total (ports_of_user capability.user_id) (laws.lease_rows m'.store)
          ≤ m.config.maximum_user)
allocate_once-quota driver laws free now random capability targets ttl m lease m' e =
    quota-Steps driver laws free now random capability targets ttl m lease m'
      (allocate_once-Steps driver free now random capability targets ttl m lease m' e)

-- A lease that `allocateOnce` returns carries its capability's user, run, workspace and target
-- host, and ends neither after its own lifetime nor after the capability.
pub allocate_once-owner :
    (driver : Driver) (laws : Lawful driver) (free : ℕ → Bool) (now : Time) (random : Random)
    (capability : Capability) (targets : List ℤ) (ttl : Duration) (m : Manager driver.DB)
    (lease : Lease) (m' : Manager driver.DB)
    → allocate_once driver free now random capability targets ttl m ≡ (ok lease, m')
    → (lease.user_id ≡ capability.user_id)
      × (lease.run_id ≡ capability.run_id)
      × (lease.workspace_id ≡ capability.workspace_id)
      × (lease.target_host ≡ capability.target_host)
      × (lease.expires_at ≤ add now ttl)
      × (lease.expires_at ≤ capability.expires_at)
allocate_once-owner driver laws free now random capability targets ttl m lease m' e =
    owner-Steps driver laws free now random capability targets ttl m lease m'
      (allocate_once-Steps driver free now random capability targets ttl m lease m' e)
