-- ===== src/Resource/Manager/Allocation/Success.antt =====
-- What a successful `allocateOnce` went through, step by step.
use llama_stack.Base.{
  ℕ, ◌≤◌, ◌≡◌, sym, ap, ◌∙◌, Bool, List, String, ok, length, inl, inr, le_or_lt, ok-injective,
}
use llama_stack.Base.Actions.{
  ◌>>=◌, ◌>>◌, bind_ok, lift_ok, on_failure, on_failure-eq-ok, done, ◌>>=◌, ◌>>◌,
}
use llama_stack.Base.Int.{ℤ}
use llama_stack.Resource.Types.{Capability, Lease, Port, Time, Duration}
use llama_stack.Resource.Store.{
  Driver, LeaseRecord, capability_by_token_hash, active_leases, insert_lease,
}
use llama_stack.Resource.Manager.{
  query_ok, exec_ok, Manager, Random, random_id, modify, close_listeners, remove_expired_locked,
}
use llama_stack.Resource.Manager.Allocation.{
  check_limits, reserve_listeners, new_lease, install_proxies, commit_lease, allocate_once,
}
use llama_stack.Resource.Manager.Allocation.Hosts.{assign}
use llama_stack.Resource.Manager.Allocation.FirstFit.{bound, pool, reserve_listeners-outcomes}

module _ {DB : Type 0} (free : ℕ → Bool) (targets : List ℤ) (active : List LeaseRecord)
    (m : Manager DB) where
  -- A reservation that succeeds is the first fit.
  pub reserved :
      {ports : List Port} {t : Manager DB}
      → reserve_listeners free targets active m ≡ (ok ports, t)
      → (length targets ≤ length (pool free active m))
        × (assign (pool free active m) targets ≡ ports)
        × (bound (assign (pool free active m) targets) m ≡ t)
  reserved e = elim (le_or_lt (length targets) (length (pool free active m))) [
    | inl enough ↦
        let same = sym ((reserve_listeners-outcomes free targets active m).0 enough) ∙ e in
        (enough, ok-injective (ap (λ y. y.0) same), ap (λ y. y.1) same)
    | inr short ↦
        absurd (
          cc (ap (λ y. y.0) (sym ((reserve_listeners-outcomes free targets active m).1 short) ∙ e)))
  ]

module _ (driver : Driver) (free : ℕ → Bool) (now : Time) (random : Random)
    (capability : Capability) (targets : List ℤ) (ttl : Duration) (m : Manager driver.DB) where
  open driver use {DB}

  abbrev pub given : List LeaseRecord → Manager DB → List Port
  given active swept = assign (pool free active swept) targets

  -- The steps of a successful call: the rows and the states in between, and what each step gave.
  pub record Steps (lease : Lease) (m' : Manager DB) : Type 0 where
    pub owner : Capability
    pub swept : Manager DB
    pub active : List LeaseRecord
    pub id : String
    pub db : DB
    pub authorised : capability_by_token_hash driver capability.hash now m.store ≡ ok owner
    pub sweep : remove_expired_locked driver now m ≡ (ok tt, swept)
    pub listed : active_leases driver now swept.store ≡ ok active
    pub allowed : check_limits m.config capability (length targets) active ≡ ok tt
    pub enough : length targets ≤ length (pool free active swept)
    pub named : random_id "lease_" random ≡ ok id
    pub stored :
        insert_lease driver
          (new_lease capability id (given active swept) now ttl)
          capability.hash
          swept.store
        ≡ ok db
    pub result : new_lease capability id (given active swept) now ttl ≡ lease
    pub final :
        install_proxies capability.target_host
          (given active swept)
          (record (bound (given active swept) swept) { store = db })
        ≡ m'

  modify-done :
      {A : Type 0} (f : Manager DB → Manager DB) (a : A) (s : Manager DB) {b : A} {t : Manager DB}
      → (modify f >> done a) s ≡ (ok b, t)
      → (a ≡ b) × (f s ≡ t)
  unfolding ◌>>=◌
  modify-done f a s e = (ok-injective (ap (λ y. y.0) e), ap (λ y. y.1) e)

  finish :
      (owner : Capability) (swept : Manager DB) (active : List LeaseRecord)
      → capability_by_token_hash driver capability.hash now m.store ≡ ok owner
      → remove_expired_locked driver now m ≡ (ok tt, swept)
      → active_leases driver now swept.store ≡ ok active
      → check_limits m.config capability (length targets) active ≡ ok tt
      → (ports : List Port) (t : Manager DB)
      → reserve_listeners free targets active swept ≡ (ok ports, t)
      → {lease : Lease} {m' : Manager DB}
      → on_failure (close_listeners ports) (commit_lease driver now random capability ttl ports) t
        ≡ (ok lease, m')
      → Steps lease m'
  unfolding commit_lease
  finish owner swept active authorised sweep listed allowed ports t took {lease} {m'} e =
      let (enough, same, same_state) = reserved free targets active swept took in
      let e' = on_failure-eq-ok _ (commit_lease driver now random capability ttl ports) t e in
      lift_ok _ _ t e' λ id named e₁. exec_ok _ _ t e₁ λ db stored e₂.
        let (result, final) = modify-done _ _ _ e₂ in
        record {
          owner = owner;
          swept = swept;
          active = active;
          id = id;
          db = db;
          authorised = authorised;
          sweep = sweep;
          listed = listed;
          allowed = allowed;
          enough = enough;
          named = named;
          stored = rw same (rw (← same_state) at stored);
          result = rw same result;
          final = rw (← same, ← same_state) at final;
        }

  pub allocate_once-Steps :
      (lease : Lease) (m' : Manager DB)
      → allocate_once driver free now random capability targets ttl m ≡ (ok lease, m')
      → Steps lease m'
  unfolding allocate_once commit_lease
  allocate_once-Steps lease m' e = query_ok _ _ m e λ owner authorised e₀.
      bind_ok _ _ m e₀ λ _ swept sweep e₁. query_ok _ _ swept e₁ λ active listed e₂.
        lift_ok _ _ swept e₂ λ _ allowed e₃. bind_ok _ _ swept e₃ λ ports t took e₄.
          finish owner swept active authorised sweep listed allowed ports t took e₄
