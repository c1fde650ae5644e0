-- ===== src/Resource/Manager/Allocation.antt =====
-- `Allocate` of internal/resource/manager.go and what it calls.
pub mod Hosts
pub mod FirstFit
pub mod Reference
pub mod Success
pub mod Undone
pub mod Counting
pub mod Guarantees
pub mod Waiting
use llama_stack.Base.{
  ℕ, zero, suc, ◌+◌, ◌-◌, Bool, true, false, not, ◌&&◌, ◌||◌, Option, none, some, List, [], ◌∷◌,
  ◌++◌, String, Result, ok, err, Failure, exhausted, message, errorf, ◌==◌, if◌then◌else◌, any,
  length, total, ltb, str_eq,
}
use llama_stack.Base.Actions.{Action, ◌>>=◌, ◌>>◌, done, lift, on_failure}
use llama_stack.Base.Int.{ℤ, pos, ltb_ℤ, leb_ℤ}
use llama_stack.Resource.Types.{Config, Capability, Lease, Port, Time, Duration, add, after, second}
use llama_stack.Resource.Store.{
  Driver, LeaseRecord, capability_by_token_hash, active_leases, insert_lease,
}
use llama_stack.Resource.Manager.{
  Manager, Random, random_id, minimum_time, listen, close_listeners, install_proxy, modify, query,
  exec, remove_expired_locked,
}

-- The map `used` of `reserveListeners`.
unfoldable pub is_used : List LeaseRecord → ℕ → Bool
is_used active port =
    any (λ (r : LeaseRecord). any (λ (p : Port). p.host_port == port) r.ports) active

-- What the loop of `reserveListeners` leaves: the ports so far, the target ports still to serve
-- and the variable `err`.
pub record Reservation : Type 0 where
  pub ports : List Port
  pub waiting : List ℤ
  pub failure : Option Failure

module _ {DB : Type 0} where
  -- The loop, with the number of host ports left. The entry of `listeners` at an index is the
  -- listener on the host port of `ports` there.
  unfoldable pub reserve_loop :
      (ℕ → Bool)
      → List LeaseRecord
      → (left host_port : ℕ) → List Port
      → List ℤ
      → Option Failure
      → Manager DB
      → Reservation × Manager DB
  reserve_loop free active zero host_port ports waiting e m =
      (record { ports = ports; waiting = waiting; failure = e }, m)
  reserve_loop free active (suc left) host_port ports [] e m =
      (record { ports = ports; waiting = []; failure = e }, m)
  reserve_loop free active (suc left) host_port ports (target ∷ waiting) e m =
      elim (is_used active host_port) [
        | true ↦ reserve_loop free active left (suc host_port) ports (target ∷ waiting) e m
        | false ↦ elim (listen free host_port m).0 [
          | err failed ↦
              reserve_loop free active left (suc host_port) ports (target ∷ waiting) (some failed)
                (listen free host_port m).1
          | ok _ ↦
              reserve_loop free active left (suc host_port)
                (ports ++ record { host_port = host_port; target_port = target } ∷ []) waiting none
                (listen free host_port m).1
        ]
      ]

  -- The part of `reserveListeners` behind its loop.
  abbrev settle : Reservation × Manager DB → Result (List Port) × Manager DB
  settle (r, m) = elim r.waiting [
    | [] ↦ elim r.failure [ none ↦ (ok r.ports, m) | some e ↦ (err e, m) ]
    | _ ∷ _ ↦ (err exhausted, close_listeners r.ports m)
  ]

  unfoldable pub reserve_listeners :
      (ℕ → Bool) → List ℤ → List LeaseRecord → Action (Manager DB) (List Port)
  unfolding reserve_loop
  reserve_listeners free target_ports active m = settle (
      reserve_loop free active (suc m.config.port_end - m.config.port_start) m.config.port_start []
        target_ports none m)

abbrev pub ports_of_user : String → LeaseRecord → ℕ
ports_of_user user r = if str_eq r.user_id user then length r.ports else 0

abbrev pub ports_of_run : String → String → LeaseRecord → ℕ
ports_of_run user run r = if str_eq r.user_id user && str_eq r.run_id run then length r.ports else 0

unfoldable pub check_limits : Config → Capability → ℕ → List LeaseRecord → Result (Unit {0})
check_limits config capability requested active =
    if ltb config.maximum_run
      (total (ports_of_run capability.user_id capability.run_id) active + requested)
    then err (errorf "run port limit exceeded: %d maximum" (pos config.maximum_run ∷ []))
    else if ltb config.maximum_user (total (ports_of_user capability.user_id) active + requested)
    then err (errorf "user port limit exceeded: %d maximum" (pos config.maximum_user ∷ []))
    else ok tt

abbrev pub new_lease : Capability → String → List Port → Time → Duration → Lease
new_lease capability id ports now ttl = record {
  id = id;
  user_id = capability.user_id;
  run_id = capability.run_id;
  workspace_id = capability.workspace_id;
  target_host = capability.target_host;
  ports = ports;
  created_at = now;
  expires_at = minimum_time (add now ttl) capability.expires_at;
}

-- The loop at the end of `allocateOnce`.
unfoldable pub install_proxies : {DB : Type 0} → String → List Port → Manager DB → Manager DB
install_proxies host [] m = m
install_proxies host (p ∷ ps) m = install_proxies host ps (install_proxy host p m)

module _ (driver : Driver) where
  open driver use {DB}

  -- Behind the reservation, where a failure closes the listeners.
  unfoldable pub commit_lease :
      Time → Random → Capability → Duration → List Port → Action (Manager DB) Lease
  commit_lease now random capability ttl ports = do
    id ← lift (random_id "lease_" random)
    let lease = new_lease capability id ports now ttl
    exec (insert_lease driver lease capability.hash)
    modify (install_proxies lease.target_host ports)
    done lease

  unfoldable pub allocate_once :
      (ℕ → Bool) → Time → Random → Capability → List ℤ → Duration → Action (Manager DB) Lease
  allocate_once free now random capability target_ports ttl m =
      (do
        _ ← query (capability_by_token_hash driver capability.hash now)
        remove_expired_locked driver now
        active ← query (active_leases driver now)
        lift (check_limits m.config capability (length target_ports) active)
        ports ← reserve_listeners free target_ports active
        on_failure (close_listeners ports) (commit_lease now random capability ttl ports))
        m

-- What ends the `select` of `Allocate`.
pub data Wake : Type 0 where
  ctx_done : Failure → Wake
  timer_fired changed_closed : Wake

-- One turn of the loop of `Allocate`: what other goroutines did before it took the mutex, the
-- readings of the clock, and what woke it if it had to wait.
pub record Turn (DB : Type 0) : Type 0 where
  pub meanwhile : Manager DB → Manager DB
  pub free : ℕ → Bool
  pub now : Time
  pub random : Random
  pub checked : Time
  pub wake : Wake

abbrev pub is_exhausted {ℓ} : {A : Type ℓ} → Result A → Bool
is_exhausted (err exhausted) = true
is_exhausted _ = false

abbrev pub invalid_port : ℤ → Bool
invalid_port port = ltb_ℤ port (pos 1) || ltb_ℤ (pos 65535) port

-- The loop over the target ports.
unfoldable pub check_targets : List ℤ → Result (Unit {0})
check_targets [] = ok tt
check_targets (port ∷ ports) =
    if invalid_port port
    then err (errorf "target port %d is invalid" (port ∷ []))
    else check_targets ports

abbrev pub effective_ttl : Config → Duration → Duration
effective_ttl config ttl =
    if leb_ℤ ttl (pos 0) && leb_ℤ (pos 0) ttl then config.default_ttl else ttl

abbrev is_nil : List ℤ → Bool
is_nil [] = true
is_nil (x ∷ xs) = false

-- The checks of `Allocate` before its loop.
unfoldable pub check_request : Config → List ℤ → Duration → Result (Unit {0})
unfolding check_targets
check_request config target_ports ttl =
    if is_nil target_ports
    then err (message "at least one target port is required")
    else if ltb_ℤ ttl (pos second) || ltb_ℤ config.maximum_ttl ttl
    then err (errorf "lease TTL must be between one second and %s" (config.maximum_ttl ∷ []))
    else check_targets target_ports

module _ (driver : Driver) where
  open driver use {DB}

  -- `none` means that the turns ran out while the call still waits.
  unfoldable pub allocate_loop :
      (deadline : Time)
      → (waits : Bool) → Capability
      → List ℤ
      → Duration
      → List (Turn DB)
      → Manager DB
      → Option (Result Lease) × Manager DB
  allocate_loop deadline waits capability ports ttl [] m = (none, m)
  allocate_loop deadline waits capability ports ttl (t ∷ ts) m =
      let attempt =
        allocate_once driver t.free t.now t.random capability ports ttl (t.meanwhile m) in
      let again = allocate_loop deadline waits capability ports ttl ts attempt.1 in
      if not (is_exhausted attempt.0) || not waits
      then (some attempt.0, attempt.1)
      else if after t.checked deadline
      then (some (err exhausted), attempt.1)
      else elim t.wake [
        | ctx_done e ↦ (some (err e), attempt.1)
        | timer_fired ↦ (some (err exhausted), attempt.1)
        | changed_closed ↦ again
      ]

  -- `Allocate`, called at `start`.
  unfoldable pub allocate :
      (start : Time)
      → Capability
      → List ℤ
      → (ttl wait : Duration) → List (Turn DB)
      → Manager DB
      → Option (Result Lease) × Manager DB
  unfolding check_request
  allocate start capability ports ttl wait ts m =
      let lifetime = effective_ttl m.config ttl in
      elim (check_request m.config ports lifetime) [
        | err e ↦ (some (err e), m)
        | ok _ ↦ allocate_loop (add start wait) (ltb_ℤ (pos 0) wait) capability ports lifetime ts m
      ]
