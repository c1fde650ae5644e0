-- ===== src/Resource/Manager/History/NoLeak.antt =====
-- Bound host ports and installed proxies of internal/resource/manager.go, operation by operation.
use llama_stack.Base.{
  ℕ, ◌≡◌, refl, sym, ap, ◌∙◌, subst, Bool, not, ◌&&◌, ◌||◌, List, [], ◌∷◌, String, Result, ok,
  arith, Option-cases, Bool-cases, inl, inr,
}
use llama_stack.Base.Actions.{lift_cases}
use llama_stack.Base.Int.{ℤ}
use llama_stack.Base.Text.{is_some}
use llama_stack.Resource.Types.{Config, Capability, Lease, Port, Time, Duration}
use llama_stack.Resource.Proxy
use llama_stack.Resource.Store.{Driver, insert_capability, lease_by_id, update_lease}
use llama_stack.Resource.Manager.{
  Manager, Random, query_cases, exec_cases, exec_then_cases, close_port_proxy, install_proxy,
  listen, signal_changed_locked,
}
use llama_stack.Resource.Manager.Kept.{IsKept, statement, remove_expired_locked-kept}
use llama_stack.Resource.Manager.Allocation.{install_proxies}
use llama_stack.Resource.Manager.Allocation.Hosts.{has_host, bind_all_lem}
use llama_stack.Resource.Manager.Allocation.Success.{Steps, given}
use llama_stack.Resource.Manager.Operations.{issue_capability, renew, close_manager, open_manager}
use llama_stack.Resource.Manager.History.{Call, run}
use llama_stack.Resource.Manager.Restoring.{Restorable, open_manager-kept}
use llama_stack.Resource.Manager.History.Invariant.{IsInvariant, run-keeps}

-- Every bound port has a proxy, and every proxy its port.
abbrev pub Serves : {DB : Type 0} → Manager DB → Type 0
Serves m = (q : ℕ) → m.listening q ≡ is_some (m.proxies q)

module _ {DB : Type 0} where
  pub close_port_proxy-Serves : (p : ℕ) (m : Manager DB) → Serves m → Serves (close_port_proxy p m)
  unfolding close_port_proxy Proxy.close
  close_port_proxy-Serves p m h = elim (Option-cases (m.proxies p)) [
    | inl e ↦ rw (e, close_port_proxy) h
    | inr (x, e) ↦ rw (e, close_port_proxy) (λ q. ground (arith, h q))
  ]

  install_proxies-lem :
      (host : String) (ps : List Port) (m : Manager DB) (q : ℕ)
      → ((install_proxies host ps m).listening q ≡ m.listening q)
        × (is_some ((install_proxies host ps m).proxies q) ≡ has_host q ps || is_some (m.proxies q))
  unfolding install_proxies install_proxy
  install_proxies-lem host [] m q = (refl, refl)
  install_proxies-lem host (p ∷ ps) m q =
      let rest = install_proxies-lem host ps (install_proxy host p m) q in
      (rest.0, ground (arith, rest.1))

module _ (driver : Driver) where
  open driver use {DB}

  pub Serves-kept : IsKept driver Serves
  unfolding signal_changed_locked
  Serves-kept = record {
    close_port = close_port_proxy-Serves;
    delete = λ d m h. exec_cases (λ x. Serves x.1) (statement driver d) m (λ _ _. h) (λ _ _. h);
    signal = λ m h. h;
  }

  Steps-Serves :
      (free : ℕ → Bool) (now : Time) (random : Random) (capability : Capability) (targets : List ℤ)
      (ttl : Duration) (m : Manager DB) (lease : Lease) (m' : Manager DB)
      → Steps driver free now random capability targets ttl m lease m'
      → Serves m
      → Serves m'
  Steps-Serves free now random capability targets ttl m lease m' s h = subst Serves s.final λ q.
      let installed = install_proxies-lem capability.target_host hosts _ q in
      installed.0
      ∙ bind_all_lem hosts s.swept.listening q
      ∙ ap (λ b. has_host q hosts || b) (swept q)
      ∙ sym installed.1
    where
      hosts : List Port
      hosts = given driver free now random capability targets ttl m s.active s.swept

      swept : Serves s.swept
      swept =
          subst (λ x. Serves x.1) s.sweep
            (remove_expired_locked-kept driver Serves Serves-kept now m h)

  renew-Serves :
      (capability : Capability) (lease_id : String) (ttl : Duration) (now now' now'' : Time)
      (m : Manager DB)
      → Serves m
      → Serves (renew driver capability lease_id ttl now now' now'' m).1
  unfolding renew
  renew-Serves capability lease_id ttl now now' now'' m h =
      lift_cases P _ _ m (λ _ _. h)
        λ _ _.
          query_cases P _ _ m (λ _ _. h)
            λ _ _.
              query_cases P (lease_by_id driver lease_id) _ m (λ _ _. h)
                λ _ _.
                  lift_cases P _ _ m (λ _ _. h)
                    λ _ _. exec_then_cases P (update_lease driver _) _ m (λ _ _. h) λ _ _. h
    where
      P : {A : Type 0} → Result A × Manager DB → Type 0
      P x = Serves x.1

  close_manager-Serves : (m : Manager DB) → Serves m → Serves (close_manager driver m)
  unfolding close_manager
  close_manager-Serves m h q = ground (arith, h q)

  module _ (parse_ip : String → Bool) (sha256 : String → List ℕ) where
    issue_capability-Serves :
        (secret identifier : Random) (now : Time) (user run workspace host : String)
        (ttl : Duration) (m : Manager DB)
        → Serves m
        → Serves
            (issue_capability driver parse_ip sha256 secret identifier now user run workspace host
              ttl m).1
    unfolding issue_capability
    issue_capability-Serves secret identifier now user run workspace host ttl m h =
        lift_cases P _ _ m (λ _ _. h)
          λ _ _.
            lift_cases P secret _ m (λ _ _. h)
              λ _ _.
                lift_cases P _ _ m (λ _ _. h)
                  λ _ _. exec_then_cases P (insert_capability driver _) _ m (λ _ _. h) λ _ _. h
      where
        P : {A : Type 0} → Result A × Manager DB → Type 0
        P x = Serves x.1

    Serves-IsInvariant : IsInvariant driver parse_ip sha256 Serves
    Serves-IsInvariant = record {
      kept = Serves-kept;
      issued = issue_capability-Serves;
      granted = Steps-Serves;
      renewed = renew-Serves;
      ended = close_manager-Serves;
    }

  Serves-Restorable : Restorable {DB = DB} Serves
  unfolding listen install_proxy
  Serves-Restorable free host p m e h q =
      elim (Bool-cases (free p.host_port && not (m.listening p.host_port))) [
        | inl can ↦ rw (can, listen) (ground (arith, h q))
        | inr cannot ↦ absurd (cc (rw (cannot, listen) at e))
      ]

-- Once a manager is opened, whatever sequence of operations it is put through, successful or not,
-- each host port is bound exactly while a proxy is installed for it.
pub run-Serves :
    (driver : Driver) (parse_ip : String → Bool) (sha256 : String → List ℕ) (config : Config)
    (db : driver.DB) (free : ℕ → Bool) (now now' : Time) (m : Manager driver.DB) (cs : List Call)
    → open_manager driver config (ok db) free now now' ≡ ok m
    → Serves (run driver parse_ip sha256 m cs)
run-Serves driver parse_ip sha256 config db free now now' m cs opened =
    run-keeps driver parse_ip sha256 Serves (Serves-IsInvariant driver parse_ip sha256) cs m (
      open_manager-kept driver Serves (Serves-kept driver) (Serves-Restorable driver) config db free
        now now' m opened (λ q. refl))
