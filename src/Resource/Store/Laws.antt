-- ===== src/Resource/Store/Laws.antt =====
-- What the store relies on in gosqlite: the SQL meaning of each statement, over the rows that the
-- two tables hold. A statement may fail at any time; these laws speak of those that succeed.
use mathlib.Core.List.{Mem}
use llama_stack.Base.{
  ℕ, ◌≡◌, Bool, true, not, ◌&&◌, List, ◌∷◌, map, min, String, ok, str_eq, keep, any, total, length,
  All, SameEntries, if◌then◌else◌,
}
use llama_stack.Resource.Types.{Time}
use llama_stack.Resource.Store.{CapabilityRecord, LeaseRecord, Table, Driver}

abbrev pub has_key : {R : Type 0} → (R → String) → String → R → Bool
has_key key k r = str_eq (key r) k

-- One table whose rows `rows db` are told apart by their primary key.
pub record TableLaws (DB R : Type 0) (t : Table DB R) (rows : DB → List R) (key : R → String)
    : Type 0 where
  pub select_lem :
      (p : R → Bool) (db : DB) (rs : List R)
      → t.select p db ≡ ok rs
      → SameEntries rs (keep p (rows db))
  pub select_ordered_lem :
      (p : R → Bool) (by : R → Time) (db : DB) (rs : List R)
      → t.select_ordered p by db ≡ ok rs
      → SameEntries rs (keep p (rows db))
  pub select_limit_lem :
      (n : ℕ) (p : R → Bool) (db : DB) (rs : List R)
      → t.select_limit n p db ≡ ok rs
      → (length rs ≡ min n (length (keep p (rows db))))
        × All (λ r. (p r ≡ true) × Mem r (rows db)) rs
  pub insert_lem :
      (r : R) (db db' : DB)
      → t.insert r db ≡ ok db'
      → SameEntries (rows db') (r ∷ rows db)
        × (total (λ x. if has_key key (key r) x then 1 else 0) (rows db) ≡ 0)
  pub update_lem :
      (r : R) (db db' : DB)
      → t.update r db ≡ ok db'
      → SameEntries (rows db') (map (λ x. if has_key key (key r) x then r else x) (rows db))
  pub delete_lem :
      (k : String) (db db' : DB)
      → t.delete k db ≡ ok db'
      → SameEntries (rows db') (keep (λ x. not (has_key key k x)) (rows db))
  pub delete_where_lem :
      (p : R → Bool) (db db' : DB)
      → t.delete_where p db ≡ ok db'
      → SameEntries (rows db') (keep (λ x. not (p x)) (rows db))

module _ (driver : Driver) where
  open driver use {DB, capabilities, leases}

  -- Both tables, the cascade of the foreign key, and that a statement on leases leaves the
  -- capabilities alone.
  pub record Lawful : Type 0 where
    pub capability_rows : DB → List CapabilityRecord
    pub lease_rows : DB → List LeaseRecord
    pub capability_laws : TableLaws DB CapabilityRecord capabilities capability_rows (λ r. r.hash)
    pub lease_laws : TableLaws DB LeaseRecord leases lease_rows (λ r. r.id)
    pub insert_capability_leases :
        (c : CapabilityRecord) (db db' : DB)
        → capabilities.insert c db ≡ ok db'
        → SameEntries (lease_rows db') (lease_rows db)
    pub delete_cascade :
        (k : String) (db db' : DB)
        → capabilities.delete k db ≡ ok db'
        → SameEntries (lease_rows db') (
            keep
              (λ l. not (
                any
                  (λ c.
                    has_key (λ (r : CapabilityRecord). r.hash) k c
                    && str_eq c.hash l.capability_hash)
                  (capability_rows db)))
              (lease_rows db))
    pub delete_where_cascade :
        (p : CapabilityRecord → Bool) (db db' : DB)
        → capabilities.delete_where p db ≡ ok db'
        → SameEntries (lease_rows db') (
            keep
              (λ l. not (any (λ c. p c && str_eq c.hash l.capability_hash) (capability_rows db)))
              (lease_rows db))
    pub insert_lease_capabilities :
        (l : LeaseRecord) (db db' : DB)
        → leases.insert l db ≡ ok db'
        → SameEntries (capability_rows db') (capability_rows db)
    pub update_lease_capabilities :
        (l : LeaseRecord) (db db' : DB)
        → leases.update l db ≡ ok db'
        → SameEntries (capability_rows db') (capability_rows db)
    pub delete_lease_capabilities :
        (k : String) (db db' : DB)
        → leases.delete k db ≡ ok db'
        → SameEntries (capability_rows db') (capability_rows db)
    pub delete_where_lease_capabilities :
        (p : LeaseRecord → Bool) (db db' : DB)
        → leases.delete_where p db ≡ ok db'
        → SameEntries (capability_rows db') (capability_rows db)
