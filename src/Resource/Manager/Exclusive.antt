-- ===== src/Resource/Manager/Exclusive.antt =====
-- Counting who holds a host port among the leases stored by internal/resource/manager.go, and the
-- statements that only delete.
use llama_stack.Base.{
  ℕ, ◌≤◌, ◌≡◌, List, String, Result, ok, arith, ◌==◌, total, total-keep-le, parts_of_ok,
  Option-cases, inl, inr,
}
use llama_stack.Base.Weights.{indicator}
use llama_stack.Resource.Types.{Port}
use llama_stack.Resource.Store.{
  Driver, LeaseRecord, delete_expired_leases, delete_expired_capabilities, delete_lease,
  delete_capability, lease_by_id,
}
use llama_stack.Resource.Store.Laws.{has_key, Lawful}
use llama_stack.Resource.Manager.{
  Manager, exec, exec_cases, close_port_proxy, signal_changed_locked,
}
use llama_stack.Resource.Manager.Kept.{
  Deletion, expired_leases_at, expired_capabilities_at, lease_named, capability_row, statement,
  IsKept,
}

-- How often a list of ports names a host port.
abbrev pub times : ℕ → List Port → ℕ
times q = total (indicator (λ p. p.host_port == q))

-- How often the leases of a list hold a host port.
abbrev pub holders : ℕ → List LeaseRecord → ℕ
holders q = total (λ r. times q r.ports)

abbrev pub leases_named : String → List LeaseRecord → ℕ
leases_named k = total (indicator (has_key (λ r. r.id) k))

-- No host port is held twice, and no identifier names two leases.
pub record IsSound (rows : List LeaseRecord) : Type 0 where
  pub exclusive : (q : ℕ) → holders q rows ≤ 1
  pub keyed : (k : String) → leases_named k rows ≤ 1

abbrev pub Within : List LeaseRecord → List LeaseRecord → Type 0
Within xs ys = (w : LeaseRecord → ℕ) → total w ys ≤ total w xs

pub IsSound-Within : (xs ys : List LeaseRecord) → Within xs ys → IsSound xs → IsSound ys
IsSound-Within xs ys within s = record {
  exclusive = λ q. omega (arith, within (λ r. times q r.ports), s.exclusive q);
  keyed = λ k. omega (arith, within (indicator (has_key (λ r. r.id) k)), s.keyed k);
}

module _ (driver : Driver) (laws : Lawful driver) where
  open driver use {DB}
  open laws use {lease_rows}

  -- A statement that only deletes leases.
  abbrev pub Deletes : (DB → Result DB) → Type 0
  Deletes write = (db db' : DB) → write db ≡ ok db' → Within (lease_rows db) (lease_rows db')

  statement-Deletes : (d : Deletion) → Deletes (statement driver d)
  unfolding delete_expired_leases delete_expired_capabilities delete_lease delete_capability
  statement-Deletes (expired_leases_at now) db db' e w =
      omega
        (arith, laws.lease_laws.delete_where_lem _ db db' e w, total-keep-le w _ (lease_rows db))
  statement-Deletes (expired_capabilities_at now) db db' e w =
      omega (arith, laws.delete_where_cascade _ db db' e w, total-keep-le w _ (lease_rows db))
  statement-Deletes (lease_named k) db db' e w =
      let (r, _, e') = parts_of_ok (lease_by_id driver k db) _ e in
      omega (arith, laws.lease_laws.delete_lem k db db' e' w, total-keep-le w _ (lease_rows db))
  statement-Deletes (capability_row c) db db' e w =
      omega (arith, laws.delete_cascade c.hash db db' e w, total-keep-le w _ (lease_rows db))

  -- The leases of a state are among those of a list.
  abbrev pub Left : List LeaseRecord → Manager DB → Type 0
  Left rows m = Within rows (lease_rows m.store)

  exec-Left :
      (write : DB → Result DB)
      → Deletes write
      → (rows : List LeaseRecord) (m : Manager DB) → Left rows m
      → Left rows (exec write m).1
  exec-Left write deletes rows m left =
      exec_cases (λ x. Left rows x.1) write m (λ e _. left)
        (λ db e w. omega (arith, deletes m.store db e w, left w))

  pub Left-kept : (rows : List LeaseRecord) → IsKept driver (Left rows)
  unfolding close_port_proxy signal_changed_locked
  Left-kept rows = record {
    close_port = λ q m h. elim (Option-cases (m.proxies q)) [
      | inl e ↦ rw (e, close_port_proxy) h
      | inr (p, e) ↦ rw (e, close_port_proxy) h
    ];
    delete = λ d. exec-Left (statement driver d) (statement-Deletes d) rows;
    signal = λ m h. h;
  }
