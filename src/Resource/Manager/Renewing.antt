-- ===== src/Resource/Manager/Renewing.antt =====
-- `Renew` of internal/resource/manager.go: who may renew a lease, and for how long.

use mathlib.Core.List.{Mem}
use llama_stack.Base.{
  ◌≡◌, ◌≤◌, ◌⊎◌, refl, subst, SameEntries, map, if◌then◌else◌, Bool-cases, inl, inr, ap, sym, true,
  false, not, List, String, ok, arith, str_eq, eq_iff, if_ok, ok-injective, ◌||◌,
}
use llama_stack.Base.Actions.{lift_ok}
use llama_stack.Base.Int.{pos, ltb_ℤ, leb_ℤ}
use llama_stack.Resource.Types.{Config, Capability, Lease, Time, Duration, add, after}
use llama_stack.Resource.Store.{Driver, LeaseRecord, lease_by_id, lease_from_record, update_lease}
use llama_stack.Resource.Store.Laws.{has_key, Lawful}
use llama_stack.Resource.Manager.{Manager, query_ok, exec_ok, minimum_time}
use llama_stack.Resource.Manager.Operations.{renew}
use llama_stack.Resource.Manager.History.Lookup.{lease_by_id-found}

-- What a renewal was asked for and allowed to do.
pub record IsRenewal (config : Config) (capability : Capability) (lease_id : String)
    (ttl : Duration) (now' now'' : Time) (rows : List LeaseRecord) (lease : Lease)
    (after_rows : List LeaseRecord) : Type 0 where
  pub before : LeaseRecord
  pub stored : Mem before rows
  pub named : before.id ≡ lease_id
  pub owned : before.capability_hash ≡ capability.hash
  pub running : after before.expires_at now' ≡ true
  pub positive : leb_ℤ ttl (pos 0) ≡ false
  pub bounded : ltb_ℤ config.maximum_ttl ttl ≡ false
  pub renewed :
      lease
      ≡ lease_from_record
          (record before { expires_at = minimum_time (add now'' ttl) capability.expires_at })
  pub ended :
      (lease.expires_at ≤ add now'' ttl)
      × (lease.expires_at ≤ capability.expires_at)
      × ((lease.expires_at ≡ add now'' ttl) ⊎ (lease.expires_at ≡ capability.expires_at))
  -- The stored leases are those from before, but that the lease with the identifier has the new
  -- end.
  pub replaced : SameEntries after_rows (
      map
        (λ r.
          if has_key (λ (l : LeaseRecord). l.id) before.id r
          then record before { expires_at = lease.expires_at }
          else r)
        rows)

minimum_time-lem :
    (a b : Time)
    → (minimum_time a b ≤ a)
      × (minimum_time a b ≤ b)
      × ((minimum_time a b ≡ a) ⊎ (minimum_time a b ≡ b))
unfolding minimum_time
minimum_time-lem a b = elim (Bool-cases (after a b)) [
  | inl e ↦ rw (e, minimum_time) (ground arith, ground arith, inr refl)
  | inr e ↦ rw (e, minimum_time) (ground arith, ground arith, inl refl)
]

module _ (driver : Driver) (laws : Lawful driver) where
  open driver use {DB}
  open laws use {lease_rows}

  renewal :
      (capability : Capability) (lease_id : String) (ttl : Duration) (now now' now'' : Time)
      (m : Manager DB) (lease : Lease) (m' : Manager DB)
      → renew driver capability lease_id ttl now now' now'' m ≡ (ok lease, m')
      → IsRenewal m.config capability lease_id ttl now' now''
          (lease_rows m.store)
          lease
          (lease_rows m'.store)
        × (m' ≡ record m { store = m'.store })
  unfolding renew update_lease lease_from_record
  renewal capability lease_id ttl now now' now'' m lease m' e = lift_ok _ _ m e λ _ allowed e₁.
      query_ok _ _ m e₁ λ _ _ e₂. query_ok (lease_by_id driver lease_id) _ m e₂ λ r found e₃.
        lift_ok _ _ m e₃ λ _ owned e₄.
          exec_ok (update_lease driver (replacement r)) _ m e₄ λ db written e₅.
            let (named, stored) = lease_by_id-found driver laws lease_id m.store r found in
            let in_time : leb_ℤ ttl (pos 0) || ltb_ℤ m.config.maximum_ttl ttl ≡ false =
              if_ok _ _ allowed in
            let mine : not (str_eq r.capability_hash capability.hash)
                  || not (after r.expires_at now')
                ≡ false =
              if_ok _ _ owned in
            let final : record m { store = db } ≡ m' = ap (λ y. y.1) e₅ in
            let same : lease_from_record (replacement r) ≡ lease =
              ok-injective (ap (λ y. y.0) e₅) in
            (
              record {
                before = r;
                stored = stored;
                named = (eq_iff r.id lease_id).0 named;
                owned = (eq_iff r.capability_hash capability.hash).0 (ground arith);
                running = ground arith;
                positive = ground arith;
                bounded = ground arith;
                renewed = sym same;
                ended =
                    subst
                      (λ (l : Lease).
                        (l.expires_at ≤ add now'' ttl)
                        × (l.expires_at ≤ capability.expires_at)
                        × ((l.expires_at ≡ add now'' ttl) ⊎ (l.expires_at ≡ capability.expires_at)))
                      same (minimum_time-lem (add now'' ttl) capability.expires_at);
                replaced =
                    subst (λ (x : Manager DB). Replaced r lease x) final
                      (subst (λ l. Replaced r l (record m { store = db })) same
                        (laws.lease_laws.update_lem (replacement r) m.store db written));
              },
              subst (λ (x : Manager DB). x ≡ record m { store = x.store }) final refl,
            )
    where
      replacement : LeaseRecord → LeaseRecord
      replacement r = record r { expires_at = minimum_time (add now'' ttl) capability.expires_at }

      Replaced : LeaseRecord → Lease → Manager DB → Type 0
      Replaced r l x = SameEntries (lease_rows x.store) (
          map
            (λ y.
              if has_key (λ (z : LeaseRecord). z.id) r.id y
              then record r { expires_at = l.expires_at }
              else y)
            (lease_rows m.store))

-- A lease that `Renew` returns is a stored lease of the capability that was still running, in
-- which only the end has changed, to the earlier one of the renewal's and the capability's; the
-- renewal is positive and at most `maximum_ttl`. Behind it the stored leases are the same but for
-- the new end of that lease, and nothing else of the manager has changed.
pub renew-owner :
    (driver : Driver) (laws : Lawful driver) (capability : Capability) (lease_id : String)
    (ttl : Duration) (now now' now'' : Time) (m : Manager driver.DB) (lease : Lease)
    (m' : Manager driver.DB)
    → renew driver capability lease_id ttl now now' now'' m ≡ (ok lease, m')
    → IsRenewal m.config capability lease_id ttl now' now''
        (laws.lease_rows m.store)
        lease
        (laws.lease_rows m'.store)
      × (m' ≡ record m { store = m'.store })
renew-owner = renewal
