-- ===== src/Resource/Manager/Closing.antt =====
-- What `closeLeaseProxies` of internal/resource/manager.go closes.
use llama_stack.Base.{
  ℕ, ◌≡◌, refl, ◌∙◌, true, false, List, [], ◌∷◌, arith, ◌==◌, ==_iff, Bool-cases, Option-cases, inl,
  inr,
}
use llama_stack.Resource.Types.{Port}
use llama_stack.Resource.Proxy
use llama_stack.Resource.Store.{LeaseRecord}
use llama_stack.Resource.Manager.{
  Manager, close_ports, close_port_proxy, close_records_proxies, close_lease_proxies,
}
use llama_stack.Resource.Manager.Allocation.Hosts.{has_host}
use llama_stack.Resource.Manager.History.NoLeak.{Serves, close_port_proxy-Serves}

module _ {DB : Type 0} where
  pub close_port_proxy-shut :
      (q p : ℕ) (m : Manager DB)
      → m.listening q ≡ false
      → (close_port_proxy p m).listening q ≡ false
  unfolding close_port_proxy Proxy.close
  close_port_proxy-shut q p m h = elim (Option-cases (m.proxies p)) [
    | inl e ↦ rw (e, close_port_proxy) h
    | inr (x, e) ↦ rw (e, close_port_proxy) (ground (arith, h))
  ]

  close_ports-shut :
      (q : ℕ) (ps : List Port) (m : Manager DB)
      → m.listening q ≡ false
      → (close_ports ps m).listening q ≡ false
  unfolding close_ports
  close_ports-shut q [] m h = h
  close_ports-shut q (p ∷ ps) m h =
      close_ports-shut q ps _ (close_port_proxy-shut q p.host_port m h)

  close_port_proxy-here :
      (q : ℕ) (m : Manager DB) → Serves m → (close_port_proxy q m).listening q ≡ false
  unfolding close_port_proxy Proxy.close
  close_port_proxy-here q m h = elim (Option-cases (m.proxies q)) [
    | inl e ↦ rw (e, close_port_proxy) (h q ∙ rw e refl)
    | inr (x, e) ↦ rw (e, close_port_proxy) (ground arith)
  ]

  -- Where every bound port has a proxy, closing the proxies of ports unbinds them.
  pub close_ports-Serves :
      (q : ℕ) (ps : List Port) (m : Manager DB)
      → Serves m
      → has_host q ps ≡ true
      → (close_ports ps m).listening q ≡ false
  unfolding close_ports
  close_ports-Serves q [] m h e = absurd (cc e)
  close_ports-Serves q (p ∷ ps) m h e = elim (Bool-cases (p.host_port == q)) [
    | inl here ↦
        close_ports-shut q ps _ (rw ((==_iff p.host_port q).0 here) (close_port_proxy-here q m h))
    | inr other ↦ close_ports-Serves q ps _ (close_port_proxy-Serves p.host_port m h) (ground arith)
  ]

  close_port_proxy-store : (p : ℕ) (m : Manager DB) → (close_port_proxy p m).store ≡ m.store
  unfolding close_port_proxy
  close_port_proxy-store p m = elim (Option-cases (m.proxies p)) [
    | inl e ↦ rw (e, close_port_proxy) refl
    | inr (x, e) ↦ rw (e, close_port_proxy) refl
  ]

  pub close_ports-store : (ps : List Port) (m : Manager DB) → (close_ports ps m).store ≡ m.store
  unfolding close_ports
  close_ports-store [] m = refl
  close_ports-store (p ∷ ps) m = close_ports-store ps _ ∙ close_port_proxy-store p.host_port m

  pub close_records_proxies-store :
      (rs : List LeaseRecord) (m : Manager DB) → (close_records_proxies rs m).store ≡ m.store
  unfolding close_records_proxies close_lease_proxies
  close_records_proxies-store [] m = refl
  close_records_proxies-store (r ∷ rs) m =
      close_records_proxies-store rs _ ∙ close_ports-store r.ports m
