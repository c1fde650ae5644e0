-- ===== src/Resource/Store.antt =====
-- internal/resource/store.go. The tables of gosqlite are a parameter: its operations are the
-- fields of `Driver`, and what its documentation promises of them is in Store/Laws.
pub mod Laws
pub mod Memory
use llama_stack.Base.{
  ℕ, Bool, ◌&&◌, List, [], ◌∷◌, map, String, Result, ok, err, forbidden, not_found, ◌>>=◌, ◌>>◌,
  leb, str_eq,
}
use llama_stack.Resource.Types.{Time, after, Capability, Lease, Port}

pub record CapabilityRecord : Type 0 where
  pub hash : String
  pub id : String
  pub user_id : String
  pub run_id : String
  pub workspace_id : String
  pub target_host : String
  pub expires_at : Time

pub record LeaseRecord : Type 0 where
  pub id : String
  pub capability_hash : String
  pub user_id : String
  pub run_id : String
  pub workspace_id : String
  pub target_host : String
  pub ports : List Port
  pub created_at : Time
  pub expires_at : Time

-- gosqlite's `RegisteredStruct`: a statement that fails leaves the database as it was. A filter is
-- a test on rows, `key_cmp field op value`; `select_ordered` and `select_limit` are `Ordering` and
-- `Limit` at the end of a filter.
pub record Table (DB R : Type 0) : Type 0 where
  pub insert : R → DB → Result DB
  pub select : (R → Bool) → DB → Result (List R)
  pub select_ordered : (R → Bool) → (R → Time) → DB → Result (List R)
  pub select_limit : ℕ → (R → Bool) → DB → Result (List R)
  pub update : R → DB → Result DB
  pub delete : String → DB → Result DB
  pub delete_where : (R → Bool) → DB → Result DB

-- gosqlite's `Driver` with the two tables that the store registers.
pub record Driver : Type 1 where
  pub DB : Type 0
  pub capabilities : Table DB CapabilityRecord
  pub leases : Table DB LeaseRecord

-- `KeyCmp(field, op, value)`.
abbrev pub key_cmp {ℓ κ} : {R : Type ℓ} {V : Type κ} → (R → V) → (V → V → Bool) → V → R → Bool
key_cmp field op value r = op (field r) value

abbrev pub greater_than : Time → Time → Bool
greater_than = after

abbrev pub less_than_or_equal : Time → Time → Bool
less_than_or_equal = leb

unfoldable pub capability_from_record : CapabilityRecord → Capability
capability_from_record r = record {
  id = r.id;
  hash = r.hash;
  user_id = r.user_id;
  run_id = r.run_id;
  workspace_id = r.workspace_id;
  target_host = r.target_host;
  expires_at = r.expires_at;
}

unfoldable pub lease_from_record : LeaseRecord → Lease
lease_from_record r = record {
  id = r.id;
  user_id = r.user_id;
  run_id = r.run_id;
  workspace_id = r.workspace_id;
  target_host = r.target_host;
  ports = r.ports;
  created_at = r.created_at;
  expires_at = r.expires_at;
}

unfoldable pub leases_from_records : List LeaseRecord → List Lease
leases_from_records = map lease_from_record

-- The row that `insertCapability` writes.
abbrev pub capability_row : Capability → CapabilityRecord
capability_row c = record {
  hash = c.hash;
  id = c.id;
  user_id = c.user_id;
  run_id = c.run_id;
  workspace_id = c.workspace_id;
  target_host = c.target_host;
  expires_at = c.expires_at;
}

-- The row that `insertLease` writes.
abbrev pub lease_row : Lease → String → LeaseRecord
lease_row l capability_hash = record {
  id = l.id;
  capability_hash = capability_hash;
  user_id = l.user_id;
  run_id = l.run_id;
  workspace_id = l.workspace_id;
  target_host = l.target_host;
  ports = l.ports;
  created_at = l.created_at;
  expires_at = l.expires_at;
}

-- `records[0]`, or an error when there is none.
abbrev pub first_or {ℓ} : {R : Type ℓ} → Result R → List R → Result R
first_or missing [] = missing
first_or missing (r ∷ rs) = ok r

module _ (driver : Driver) where
  open driver use {DB, capabilities, leases}

  unfoldable pub insert_capability : Capability → DB → Result DB
  insert_capability c = capabilities.insert (capability_row c)

  unfoldable pub capability_by_token_hash : String → Time → DB → Result Capability
  capability_by_token_hash hash now db = do
    records ←
        capabilities.select_limit 1
          (λ r.
            key_cmp (λ (r : CapabilityRecord). r.hash) str_eq hash r
            && key_cmp (λ (r : CapabilityRecord). r.expires_at) greater_than now r)
          db
    r ← first_or (err forbidden) records
    ok (capability_from_record r)

  unfoldable pub capability_by_id : String → DB → Result CapabilityRecord
  capability_by_id identifier db = do
    records ←
        capabilities.select_limit 1 (key_cmp (λ (r : CapabilityRecord). r.id) str_eq identifier) db
    first_or (err not_found) records

  unfoldable pub delete_capability : CapabilityRecord → DB → Result DB
  delete_capability r = capabilities.delete r.hash

  unfoldable pub delete_expired_capabilities : Time → DB → Result DB
  delete_expired_capabilities now =
      capabilities.delete_where
        (key_cmp (λ (r : CapabilityRecord). r.expires_at) less_than_or_equal now)

  unfoldable pub insert_lease : Lease → String → DB → Result DB
  insert_lease l capability_hash = leases.insert (lease_row l capability_hash)

  unfoldable pub active_leases : Time → DB → Result (List LeaseRecord)
  active_leases now =
      leases.select_ordered (key_cmp (λ (r : LeaseRecord). r.expires_at) greater_than now)
        (λ r. r.created_at)

  unfoldable pub leases_for_capability : String → Time → DB → Result (List LeaseRecord)
  leases_for_capability hash now =
      leases.select_ordered
        (λ r.
          key_cmp (λ (r : LeaseRecord). r.capability_hash) str_eq hash r
          && key_cmp (λ (r : LeaseRecord). r.expires_at) greater_than now r)
        (λ r. r.created_at)

  unfoldable pub lease_by_id : String → DB → Result LeaseRecord
  lease_by_id identifier db = do
    records ← leases.select_limit 1 (key_cmp (λ (r : LeaseRecord). r.id) str_eq identifier) db
    first_or (err not_found) records

  unfoldable pub update_lease : LeaseRecord → DB → Result DB
  update_lease = leases.update

  unfoldable pub delete_lease : String → DB → Result DB
  delete_lease identifier db = do _ ← lease_by_id identifier db; leases.delete identifier db

  unfoldable pub expired_leases : Time → DB → Result (List LeaseRecord)
  expired_leases now =
      leases.select (key_cmp (λ (r : LeaseRecord). r.expires_at) less_than_or_equal now)

  unfoldable pub delete_expired_leases : Time → DB → Result DB
  delete_expired_leases now =
      leases.delete_where (key_cmp (λ (r : LeaseRecord). r.expires_at) less_than_or_equal now)
