-- ===== src/Resource/Manager/History/Lookup.antt =====
-- What the lookups by a key of internal/resource/store.go return.
use mathlib.Core.List.{Mem}
use llama_stack.Base.{
  ◌≡◌, true, List, [], ◌∷◌, String, Result, ok, err, All, str_eq, parts_of_ok, subst, forbidden,
  not_found, ok-injective, ◌&&◌, arith,
}
use llama_stack.Resource.Store.{
  Driver, LeaseRecord, CapabilityRecord, lease_by_id, capability_by_id, first_or,
  capability_by_token_hash, capability_from_record, greater_than,
}
use llama_stack.Resource.Types.{Capability, Time}
use llama_stack.Resource.Store.Laws.{Lawful}

first_or-found :
    {R : Type 0} (missing : Result R) (P : R → Type 0) (rs : List R) {r : R}
    → ((x : R) → missing ≡ ok x → ⊥)
    → first_or missing rs ≡ ok r
    → All P rs
    → P r
first_or-found missing P [] never e h = absurd (never _ e)
first_or-found missing P (x ∷ rs) never e h = subst P (ok-injective e) h.0

module _ (driver : Driver) (laws : Lawful driver) where
  open driver use {DB}
  open laws use {lease_rows, capability_rows}

  -- The lease that is found is a stored one with the identifier.
  pub lease_by_id-found :
      (k : String) (db : DB) (r : LeaseRecord)
      → lease_by_id driver k db ≡ ok r
      → (str_eq r.id k ≡ true) × Mem r (lease_rows db)
  unfolding lease_by_id
  lease_by_id-found k db r e =
      let (rs, selected, e') = parts_of_ok (driver.leases.select_limit 1 _ db) _ e in
      first_or-found (err not_found) (λ x. (str_eq x.id k ≡ true) × Mem x (lease_rows db)) rs
        (λ x p. cc p) e' (laws.lease_laws.select_limit_lem 1 _ db rs selected).1

  pub capability_by_id-found :
      (k : String) (db : DB) (r : CapabilityRecord)
      → capability_by_id driver k db ≡ ok r
      → (str_eq r.id k ≡ true) × Mem r (capability_rows db)
  unfolding capability_by_id
  capability_by_id-found k db r e =
      let (rs, selected, e') = parts_of_ok (driver.capabilities.select_limit 1 _ db) _ e in
      first_or-found (err not_found) (λ x. (str_eq x.id k ≡ true) × Mem x (capability_rows db)) rs
        (λ x p. cc p) e' (laws.capability_laws.select_limit_lem 1 _ db rs selected).1

  -- The row behind a capability that a token's hash is good for.
  pub record IsToken (hash : String) (now : Time) (db : DB) (capability : Capability) : Type 0 where
    pub row : CapabilityRecord
    pub stored : Mem row (capability_rows db)
    pub hashed : str_eq row.hash hash ≡ true
    pub running : greater_than row.expires_at now ≡ true
    pub read : capability_from_record row ≡ capability

  pub capability_by_token_hash-found :
      (hash : String) (now : Time) (db : DB) (capability : Capability)
      → capability_by_token_hash driver hash now db ≡ ok capability
      → IsToken hash now db capability
  unfolding capability_by_token_hash
  capability_by_token_hash-found hash now db capability e =
      let (rs, selected, e') = parts_of_ok (driver.capabilities.select_limit 1 _ db) _ e in
      let (row, found, e'') = parts_of_ok (first_or (err forbidden) rs) _ e' in
      let (holds, stored) =
        first_or-found (err forbidden)
          (λ x.
            (str_eq x.hash hash && greater_than x.expires_at now ≡ true)
            × Mem x (capability_rows db))
          rs (λ x p. cc p) found (laws.capability_laws.select_limit_lem 1 _ db rs selected).1 in
      record {
        row = row;
        stored = stored;
        hashed = ground arith;
        running = ground arith;
        read = ok-injective e'';
      }
