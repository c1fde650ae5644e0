-- ===== src/Resource/Manager/Revoking.antt =====
-- `RevokeCapability` of internal/resource/manager.go: what is left of the token and its leases.
use text.Mathlib.TextPositions.{eq_refl}
use mathlib.Core.List.{Mem}
use llama_stack.Base.{
  ◌≡◌, ◌≢◌, refl, ap, sym, ◌∙◌, subst, Bool, ◌&&◌, String, ok, arith, total, any, str_eq, eq_iff,
  Bool-cases, inl, inr,
}
use llama_stack.Base.Actions.{bind_ok}
use llama_stack.Base.Weights.{
  indicator, total-keep_none, total-keep_zero, any-of_mem, le-total_of_mem,
}
use llama_stack.Resource.Types.{Capability, Time}
use llama_stack.Resource.Store.{
  Driver, LeaseRecord, CapabilityRecord, capability_by_id, delete_capability,
  capability_by_token_hash,
}
use llama_stack.Resource.Store.Laws.{has_key, Lawful}
use llama_stack.Resource.Manager.{
  Manager, query_ok, exec_ok, modify, close_records_proxies, signal_changed_locked,
}
use llama_stack.Resource.Manager.Operations.{revoke_capability}
use llama_stack.Resource.Manager.Closing.{close_records_proxies-store}
use llama_stack.Resource.Manager.History.Lookup.{
  capability_by_id-found, capability_by_token_hash-found,
}

module _ (driver : Driver) (laws : Lawful driver) where
  open driver use {DB}
  open laws use {lease_rows}

  -- What a revocation of a capability did.
  pub record IsRevocation (capability_id : String) (before after : DB) : Type 0 where
    pub revoked : CapabilityRecord
    pub stored : Mem revoked (laws.capability_rows before)
    pub named : revoked.id ≡ capability_id
    pub refused :
        (now : Time) (c : Capability)
        → capability_by_token_hash driver revoked.hash now after ≢ ok c
    pub leaseless :
        total (indicator (λ r. str_eq r.capability_hash revoked.hash)) (lease_rows after) ≡ 0

  no_token :
      (hash : String) (db : DB)
      → total (indicator (has_key (λ r. r.hash) hash)) (laws.capability_rows db) ≡ 0
      → (now : Time) (c : Capability) → capability_by_token_hash driver hash now db ≢ ok c
  no_token hash db none_left now c e =
      let t = capability_by_token_hash-found driver laws hash now db c e in
      absurd (
        ground (
          arith,
          t.hashed,
          le-total_of_mem (indicator (has_key (λ (r : CapabilityRecord). r.hash) hash))
              (laws.capability_rows db) t.stored,
        ))

  token_gone :
      (c : CapabilityRecord) (db db' : DB)
      → delete_capability driver c db ≡ ok db'
      → total (indicator (has_key (λ r. r.hash) c.hash)) (laws.capability_rows db') ≡ 0
  unfolding delete_capability
  token_gone c db db' e =
      laws.capability_laws.delete_lem c.hash db db' e _
      ∙ total-keep_none (has_key (λ (r : CapabilityRecord). r.hash) c.hash)
          (laws.capability_rows db)

  leases_gone :
      (c : CapabilityRecord) (db db' : DB)
      → Mem c (laws.capability_rows db)
      → delete_capability driver c db ≡ ok db'
      → total (indicator (λ r. str_eq r.capability_hash c.hash)) (lease_rows db') ≡ 0
  unfolding delete_capability
  leases_gone c db db' stored e =
      laws.delete_cascade c.hash db db' e _
      ∙ total-keep_zero cascades _ (lease_rows db) λ l spared.
        elim (Bool-cases (str_eq l.capability_hash c.hash)) [
          | inl same ↦ absurd (
              cc (
                sym spared
                ∙ any-of_mem (owns l) (laws.capability_rows db) stored
                    (rw ((eq_iff l.capability_hash c.hash).0 same, eq_refl c.hash) refl)))
          | inr other ↦ rw other refl
        ]
    where
      owns : LeaseRecord → CapabilityRecord → Bool
      owns l r = str_eq r.hash c.hash && str_eq r.hash l.capability_hash

      cascades : LeaseRecord → Bool
      cascades l = any (owns l) (laws.capability_rows db)

  revoking :
      (capability_id : String) (m m' : Manager DB)
      → revoke_capability driver capability_id m ≡ (ok tt, m')
      → IsRevocation capability_id m.store m'.store
  unfolding revoke_capability delete_capability signal_changed_locked
  revoking capability_id m m' e =
      query_ok (capability_by_id driver capability_id) _ m e λ c found e₁.
        query_ok _ _ m e₁ λ records _ e₂.
          bind_ok (modify (close_records_proxies records)) _ m e₂ λ _ s closed e₃.
            exec_ok (delete_capability driver c) _ s e₃ λ db deleted e₄.
              let (named, stored) =
                capability_by_id-found driver laws capability_id m.store c found in
              let before : s.store ≡ m.store =
                ap (λ y. y.1.store) (sym closed) ∙ close_records_proxies-store records m in
              let deleted' : delete_capability driver c m.store ≡ ok db =
                subst (λ x. delete_capability driver c x ≡ ok db) before deleted in
              let final : db ≡ m'.store = ap (λ y. y.1.store) e₄ in
              record {
                revoked = c;
                stored = stored;
                named = (eq_iff c.id capability_id).0 named;
                refused =
                    subst
                      (λ x.
                        (now : Time) (k : Capability)
                        → capability_by_token_hash driver c.hash now x ≢ ok k)
                      final (no_token c.hash db (token_gone c m.store db deleted'));
                leaseless =
                    subst
                      (λ x.
                        total (indicator (λ r. str_eq r.capability_hash c.hash)) (lease_rows x) ≡ 0)
                      final (leases_gone c m.store db stored deleted');
              }

-- After a successful `RevokeCapability` the token of the capability is good at no time, and no
-- lease that was allocated with it is stored.
pub revoke_capability_complete :
    (driver : Driver) (laws : Lawful driver) (capability_id : String) (m m' : Manager driver.DB)
    → revoke_capability driver capability_id m ≡ (ok tt, m')
    → IsRevocation driver laws capability_id m.store m'.store
revoke_capability_complete = revoking
