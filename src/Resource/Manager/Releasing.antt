-- ===== src/Resource/Manager/Releasing.antt =====
-- `Release` of internal/resource/manager.go: who may release a lease, and what is left of it.

use mathlib.Core.List.{Mem}
use llama_stack.Base.{
  ℕ, ◌≡◌, ◌≢◌, Failure, Result-cases, refl, ap, ◌∙◌, subst, Bool, true, false, not, ◌&&◌, List,
  String, ok, err, not_found, arith, All, keep, str_eq, eq_iff, if_ok, parts_of_ok, Bool-cases, inl,
  inr, ◌⊎◌,
}
use llama_stack.Base.Actions.{◌>>=◌, bind_ok, lift_ok}
use llama_stack.Base.Conditions.{str_eq-false}
use llama_stack.Base.Weights.{indicator, total-keep_none}
use llama_stack.Resource.Types.{Capability}
use llama_stack.Resource.Store.{Driver, LeaseRecord, lease_by_id, delete_lease}
use llama_stack.Resource.Store.Laws.{has_key, Lawful}
use llama_stack.Resource.Manager.{
  Manager, query_ok, exec_ok, modify, close_lease_proxies, close_ports, signal_changed_locked,
}
use llama_stack.Resource.Manager.Exclusive.{leases_named}
use llama_stack.Resource.Manager.Operations.{release, release_where}
use llama_stack.Resource.Manager.Closing.{close_ports-Serves, close_ports-store}
use llama_stack.Resource.Manager.History.NoLeak.{Serves}
use llama_stack.Resource.Manager.Allocation.Hosts.{All-has_host}
use llama_stack.Resource.Manager.History.Lookup.{lease_by_id-found}

-- What a release did: the lease was the capability's, and neither it nor its listeners are left.
pub record IsRelease (capability : Capability) (lease_id : String) (before after : List LeaseRecord)
    (listening : ℕ → Bool) : Type 0 where
  pub released : LeaseRecord
  pub stored : Mem released before
  pub named : released.id ≡ lease_id
  pub owned : (str_eq capability.hash "" ≡ true) ⊎ (released.capability_hash ≡ capability.hash)
  pub gone : leases_named lease_id after ≡ 0
  pub unbound : All (λ p. listening p.host_port ≡ false) released.ports

module _ (driver : Driver) (laws : Lawful driver) where
  open driver use {DB}
  open laws use {lease_rows}

  gone_lem :
      (k : String) (rows : List LeaseRecord)
      → leases_named k (keep (λ x. not (has_key (λ r. r.id) k x)) rows) ≡ 0
  gone_lem k rows = total-keep_none (has_key (λ (r : LeaseRecord). r.id) k) rows

  pub delete_lease-gone :
      (k : String) (db db' : DB)
      → delete_lease driver k db ≡ ok db'
      → leases_named k (lease_rows db') ≡ 0
  unfolding delete_lease
  delete_lease-gone k db db' e =
      let (r, _, e') = parts_of_ok (lease_by_id driver k db) _ e in
      omega (
        arith,
        laws.lease_laws.delete_lem k db db' e' (indicator (has_key (λ r. r.id) k)),
        gone_lem k (lease_rows db),
      )

  releasing :
      (capability : Capability) (lease_id : String) (m m' : Manager DB)
      → Serves m
      → release driver capability lease_id m ≡ (ok tt, m')
      → IsRelease capability lease_id (lease_rows m.store) (lease_rows m'.store) m'.listening
  unfolding release release_where close_lease_proxies signal_changed_locked
  releasing capability lease_id m m' h e =
      query_ok (lease_by_id driver lease_id) _ m e λ r found e₁. lift_ok _ _ m e₁ λ _ owned e₂.
        exec_ok (delete_lease driver lease_id) _ m e₂ λ db deleted e₃.
          bind_ok (modify (close_lease_proxies r)) _ (record m { store = db }) e₃
            λ _ s closed e₄.
              let (named, stored) = lease_by_id-found driver laws lease_id m.store r found in
              let m₁ : Manager DB = record m { store = db } in
              let final : signal_changed_locked (close_ports r.ports m₁) ≡ m' =
                ap signal_changed_locked (ap (λ y. y.1) closed) ∙ ap (λ y. y.1) e₄ in
              let mine : not (str_eq capability.hash "")
                    && not (str_eq r.capability_hash capability.hash)
                  ≡ false =
                if_ok _ _ owned in
              record {
                released = r;
                stored = stored;
                named = (eq_iff r.id lease_id).0 named;
                owned = elim (Bool-cases (str_eq capability.hash "")) [
                  | inl nameless ↦ inl nameless
                  | inr named_one ↦
                      inr ((eq_iff r.capability_hash capability.hash).0 (ground arith))
                ];
                gone =
                    subst (λ (x : Manager DB). leases_named lease_id (lease_rows x.store) ≡ 0) final
                      (rw (close_ports-store r.ports m₁)
                        (delete_lease-gone lease_id m.store db deleted));
                unbound = All-has_host _ r.ports λ q p.
                    subst (λ (x : Manager DB). x.listening q ≡ false) final
                      (close_ports-Serves q r.ports m₁ h p);
              }

-- A successful `Release` took away a stored lease of the capability: no stored lease has the
-- identifier, and none of its host ports is bound, where each bound port had a proxy before.
pub release_complete :
    (driver : Driver) (laws : Lawful driver) (capability : Capability) (lease_id : String)
    (m m' : Manager driver.DB)
    → Serves m
    → release driver capability lease_id m ≡ (ok tt, m')
    → IsRelease capability lease_id
        (laws.lease_rows m.store)
        (laws.lease_rows m'.store)
        m'.listening
release_complete = releasing

-- A capability cannot release the lease of another: where no stored lease of the identifier is the
-- capability's, `Release` fails and leaves the manager as it was. The capability's hash is not
-- empty; `Revoke` of the administrator passes an empty one.
pub release-stranger :
    (driver : Driver) (laws : Lawful driver) (capability : Capability) (lease_id : String)
    (m : Manager driver.DB)
    → capability.hash ≢ ""
    → ((r : LeaseRecord)
        → Mem r (laws.lease_rows m.store)
        → r.id ≡ lease_id
        → r.capability_hash ≢ capability.hash)
    → (e : Failure) × (release driver capability lease_id m ≡ (err e, m))
unfolding release release_where ◌>>=◌
release-stranger driver laws capability lease_id m named foreign =
    elim (Result-cases (lease_by_id driver lease_id m.store)) [
      | inr (e, failed) ↦ (e, rw failed refl)
      | inl (r, found) ↦
          let (same, stored) = lease_by_id-found driver laws lease_id m.store r found in
          let other : str_eq r.capability_hash capability.hash ≡ false =
            str_eq-false r.capability_hash capability.hash
              (foreign r stored ((eq_iff r.id lease_id).0 same)) in
          (not_found, rw (found, str_eq-false capability.hash "" named, other) refl)
    ]
