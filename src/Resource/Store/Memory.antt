-- ===== src/Resource/Store/Memory.antt =====
-- A driver that meets the laws: two lists of rows. It instantiates the parameter in the examples.
use mathlib.Core.List.{Mem, mem-cons_self, mem-cons_of_mem}
use llama_stack.Base.{
  ℕ, zero, suc, ◌≡◌, refl, Bool, true, false, not, ◌&&◌, List, [], ◌∷◌, map, String, Result, ok,
  err, message, str_eq, keep, any, take, All, SameEntries, total, if◌then◌else◌, inl, inr,
  Bool-cases, arith, length-take, ok-injective, All-weaken,
}
use llama_stack.Resource.Store.{CapabilityRecord, LeaseRecord, Table, Driver}
use llama_stack.Resource.Store.Laws.{has_key, TableLaws, Lawful}

pub record Rows : Type 0 where
  pub capability_list : List CapabilityRecord
  pub lease_list : List LeaseRecord

-- What a selection returns passes its test and is among the rows.
keep_sound :
    {R : Type 0} (p : R → Bool) (xs : List R) → All (λ r. (p r ≡ true) × Mem r xs) (keep p xs)
keep_sound p [] = tt
keep_sound p (x ∷ xs) =
    let later =
      All-weaken (λ r. (p r ≡ true) × Mem r xs) (λ r. (p r ≡ true) × Mem r (x ∷ xs))
        (λ r h. (h.0, mem-cons_of_mem x h.1)) (keep p xs) (keep_sound p xs) in
    elim (Bool-cases (p x)) [ inl e ↦ rw e ((e, mem-cons_self), later) | inr e ↦ rw e later ]

take_sound : {R : Type 0} (P : R → Type 0) (n : ℕ) (xs : List R) → All P xs → All P (take n xs)
take_sound P zero xs h = tt
take_sound P (suc n) [] h = tt
take_sound P (suc n) (x ∷ xs) h = (h.0, take_sound P n xs h.1)

total_of_not-any :
    {R : Type 0} (p : R → Bool) (xs : List R)
    → any p xs ≡ false
    → total (λ x. if p x then 1 else 0) xs ≡ 0
total_of_not-any p [] h = refl
total_of_not-any p (x ∷ xs) h = ground (arith, total_of_not-any p xs)

-- A table over one list of the rows: `write` puts the list back, `cascade` follows a deletion.
module _ (DB R : Type 0) (key : R → String) (rows : DB → List R) (write : List R → DB → DB)
    (cascade : (R → Bool) → DB → DB) where
  abbrev pub insert_row : R → DB → Result DB
  insert_row r db =
      if any (has_key key (key r)) (rows db)
      then err (message "UNIQUE constraint failed")
      else ok (write (r ∷ rows db) db)

  abbrev pub delete_rows : (R → Bool) → DB → DB
  delete_rows p db = write (keep (λ x. not (p x)) (rows db)) (cascade p db)

  abbrev pub memory_table : Table DB R
  memory_table = record {
    insert = insert_row;
    select = λ p db. ok (keep p (rows db));
    select_ordered = λ p by db. ok (keep p (rows db));
    select_limit = λ n p db. ok (take n (keep p (rows db)));
    update = λ r db. ok (write (map (λ x. if has_key key (key r) x then r else x) (rows db)) db);
    delete = λ k db. ok (delete_rows (has_key key k) db);
    delete_where = λ p db. ok (delete_rows p db);
  }

  insert_row-write : (r : R) (db db' : DB) → insert_row r db ≡ ok db' → write (r ∷ rows db) db ≡ db'
  insert_row-write r db db' e = elim (Bool-cases (any (has_key key (key r)) (rows db))) [
    | inl taken ↦ absurd (ground arith)
    | inr fresh ↦ ok-injective (rw fresh at e)
  ]

  module _ (rows-write : (xs : List R) (db : DB) → rows (write xs db) ≡ xs) where
    insert_row_lem :
        (r : R) (db db' : DB)
        → insert_row r db ≡ ok db'
        → SameEntries (rows db') (r ∷ rows db)
          × (total (λ x. if has_key key (key r) x then 1 else 0) (rows db) ≡ 0)
    insert_row_lem r db db' e = elim (Bool-cases (any (has_key key (key r)) (rows db))) [
      | inl taken ↦ absurd (ground arith)
      | inr fresh ↦ (
        λ w. rw (← insert_row-write r db db' e, rows-write (r ∷ rows db) db),
        total_of_not-any _ _ fresh,
      )
    ]

    pub memory_laws : TableLaws DB R memory_table rows key
    memory_laws = record {
      select_lem = λ p db rs e w. rw (← ok-injective e);
      select_ordered_lem = λ p by db rs e w. rw (← ok-injective e);
      select_limit_lem = λ n p db rs e.
          rw (← ok-injective e)
            (length-take n (keep p (rows db)), take_sound _ n _ (keep_sound p (rows db)));
      insert_lem = insert_row_lem;
      update_lem = λ r db db' e w. rw (← ok-injective e, rows-write);
      delete_lem = λ k db db' e w. rw (← ok-injective e, rows-write);
      delete_where_lem = λ p db db' e w. rw (← ok-injective e, rows-write);
    }

abbrev write_capabilities : List CapabilityRecord → Rows → Rows
write_capabilities xs db = record db { capability_list = xs }

abbrev write_leases : List LeaseRecord → Rows → Rows
write_leases xs db = record db { lease_list = xs }

-- The foreign key of a lease deletes it with its capability.
abbrev cascade_leases : (CapabilityRecord → Bool) → Rows → Rows
cascade_leases p db =
    write_leases
      (keep (λ l. not (any (λ c. p c && str_eq c.hash l.capability_hash) db.capability_list))
        db.lease_list)
      db

abbrev no_cascade : (LeaseRecord → Bool) → Rows → Rows
no_cascade p db = db

abbrev pub memory : Driver
memory = record {
  DB = Rows;
  capabilities =
      memory_table Rows CapabilityRecord (λ r. r.hash) (λ db. db.capability_list) write_capabilities
        cascade_leases;
  leases = memory_table Rows LeaseRecord (λ r. r.id) (λ db. db.lease_list) write_leases no_cascade;
}

pub memory-Lawful : Lawful memory
memory-Lawful = record {
  capability_rows = λ db. db.capability_list;
  lease_rows = λ db. db.lease_list;
  capability_laws =
      memory_laws Rows CapabilityRecord _ _ write_capabilities cascade_leases (λ xs db. refl);
  lease_laws = memory_laws Rows LeaseRecord _ _ write_leases no_cascade (λ xs db. refl);
  insert_capability_leases = λ c db db' e w.
      rw
        (← insert_row-write Rows CapabilityRecord (λ r. r.hash) (λ d. d.capability_list)
          write_capabilities cascade_leases c db db' e);
  delete_cascade = λ k db db' e w. rw (← ok-injective e);
  delete_where_cascade = λ p db db' e w. rw (← ok-injective e);
  insert_lease_capabilities = λ l db db' e w.
      rw
        (← insert_row-write Rows LeaseRecord (λ r. r.id) (λ d. d.lease_list) write_leases no_cascade
          l db db' e);
  update_lease_capabilities = λ l db db' e w. rw (← ok-injective e);
  delete_lease_capabilities = λ k db db' e w. rw (← ok-injective e);
  delete_where_lease_capabilities = λ p db db' e w. rw (← ok-injective e);
}

pub lease_rows-memory : (db : Rows) → memory-Lawful.lease_rows db ≡ db.lease_list
unfolding memory-Lawful
lease_rows-memory db = refl
