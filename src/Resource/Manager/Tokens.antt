-- ===== src/Resource/Manager/Tokens.antt =====
-- The tokens of internal/resource/manager.go: `IssueCapability` and then `Authenticate`.
use text.Mathlib.TextPositions.{eq_refl}
use llama_stack.Base.{
  ℕ, ◌≡◌, refl, ap, sym, ◌∙◌, subst, Bool, true, not, ◌&&◌, List, [], ◌∷◌, String, Result, ok, err,
  Failure, arith, str_eq, eq_iff, ◌==◌, ==_iff, ok-injective, err_unique, total_mono, Result-cases,
  inl, inr, Bool-cases,
}
use llama_stack.Base.Actions.{lift_ok}
use llama_stack.Base.Weights.{indicator, le-total_of_mem, total-length-keep}
use llama_stack.Resource.Types.{after, Capability, Time, Duration}
use llama_stack.Resource.Store.{
  Driver, CapabilityRecord, capability_row, capability_from_record, greater_than, insert_capability,
  capability_by_token_hash,
}
use llama_stack.Resource.Store.Laws.{has_key, Lawful}
use llama_stack.Resource.Manager.{Manager, Random, exec_ok}
use llama_stack.Resource.Manager.Operations.{
  issue_capability, authenticate, hash_token, new_capability, token_of,
}
use llama_stack.Resource.Manager.History.Lookup.{IsToken, capability_by_token_hash-found}

-- The filter of `capabilityByTokenHash`.
abbrev pub is_token : String → Time → CapabilityRecord → Bool
is_token hash now r = str_eq r.hash hash && greater_than r.expires_at now

module _ (driver : Driver) (laws : Lawful driver) where
  open driver use {DB}
  open laws use {capability_rows}

  module _ (c : Capability) (db db' : DB) (stored : insert_capability driver c db ≡ ok db')
      (now : Time) (found : Capability) (t : IsToken driver laws c.hash now db' found) where
    -- The row that is found agrees with the new one in each test that the new one passes.
    agrees : (test : CapabilityRecord → Bool) → test (capability_row c) ≡ true → test t.row ≡ true
    unfolding insert_capability
    agrees test passes =
        let hit : CapabilityRecord → Bool = λ r. has_key (λ r. r.hash) c.hash r && not (test r) in
        elim (Bool-cases (test t.row)) [
          | inl e ↦ e
          | inr e ↦
              let hits : indicator hit t.row ≡ 1 = rw (t.hashed, e) refl in
              let misses : indicator hit (capability_row c) ≡ 0 =
                rw (passes, eq_refl c.hash) refl in
              absurd (
                omega (
                  arith,
                  (laws.capability_laws.insert_lem (capability_row c) db db' stored).1,
                  (laws.capability_laws.insert_lem (capability_row c) db db' stored).0
                      (indicator hit),
                  total_mono (indicator hit) (indicator (has_key (λ r. r.hash) c.hash))
                      (λ r. ground arith) (capability_rows db),
                  le-total_of_mem (indicator hit) (capability_rows db') t.stored,
                ))
        ]

    recovered : capability_from_record t.row ≡ c
    unfolding capability_from_record
    recovered i = record {
      id = (eq_iff t.row.id c.id).0 (agrees (λ r. str_eq r.id c.id) (eq_refl c.id)) i;
      hash = (eq_iff t.row.hash c.hash).0 t.hashed i;
      user_id =
          (eq_iff t.row.user_id c.user_id).0
            (agrees (λ r. str_eq r.user_id c.user_id) (eq_refl c.user_id)) i;
      run_id =
          (eq_iff t.row.run_id c.run_id).0
            (agrees (λ r. str_eq r.run_id c.run_id) (eq_refl c.run_id)) i;
      workspace_id =
          (eq_iff t.row.workspace_id c.workspace_id).0
            (agrees (λ r. str_eq r.workspace_id c.workspace_id) (eq_refl c.workspace_id)) i;
      target_host =
          (eq_iff t.row.target_host c.target_host).0
            (agrees (λ r. str_eq r.target_host c.target_host) (eq_refl c.target_host)) i;
      expires_at =
          (==_iff t.row.expires_at c.expires_at).0
            (agrees (λ r. r.expires_at == c.expires_at) ((==_iff c.expires_at c.expires_at).1 refl))
            i;
    }

  -- A capability that is stored and runs is found, unless the query fails.
  rejection :
      (c : Capability) (db db' : DB)
      → insert_capability driver c db ≡ ok db'
      → (now : Time) → after c.expires_at now ≡ true
      → {e : Failure} → capability_by_token_hash driver c.hash now db' ≡ err e
      → driver.capabilities.select_limit 1 (is_token c.hash now) db' ≡ err e
  unfolding capability_by_token_hash insert_capability
  rejection c db db' stored now runs {e} rejected = go _ refl
    where
      test : CapabilityRecord → Bool
      test = is_token c.hash now

      here : indicator test (capability_row c) ≡ 1
      here = rw (eq_refl c.hash, runs) refl

      go :
          (x : Result (List CapabilityRecord))
          → driver.capabilities.select_limit 1 test db' ≡ x
          → x ≡ err e
      go (err x) p = ap (λ y. err y) (err_unique _ refl (rw p at rejected))
      go (ok []) p = absurd (
          omega (
            arith,
            here,
            (laws.capability_laws.select_limit_lem 1 test db' [] p).0,
            total-length-keep test (capability_rows db'),
            (laws.capability_laws.insert_lem (capability_row c) db db' stored).0 (indicator test),
          ))
      go (ok (r ∷ rs)) p = absurd (cc (rw p at rejected))

  -- What a successful call did.
  pub record IsIssue (sha256 : String → List ℕ) (m m' : Manager DB) (token : String)
      (capability : Capability) : Type 0 where
    pub hashed : hash_token sha256 token ≡ capability.hash
    pub stored : insert_capability driver capability m.store ≡ ok m'.store

  issuing :
      (parse_ip : String → Bool) (sha256 : String → List ℕ) (secret identifier : Random)
      (now : Time) (user run workspace host : String) (ttl : Duration) (m : Manager DB)
      (token : String) (capability : Capability) (m' : Manager DB)
      → issue_capability driver parse_ip sha256 secret identifier now user run workspace host ttl m
        ≡ (ok (token, capability), m')
      → IsIssue sha256 m m' token capability
  unfolding issue_capability
  issuing parse_ip sha256 secret identifier now user run workspace host ttl m token capability m'
        e =
      lift_ok _ _ m e λ _ _ e₁. lift_ok secret _ m e₁ λ bytes _ e₂. lift_ok _ _ m e₂ λ id _ e₃.
        exec_ok (insert_capability driver _) _ m e₃ λ db stored e₄.
          let same : (
            token_of bytes,
            new_capability (hash_token sha256 (token_of bytes)) id user run workspace host now ttl,
          )
              ≡ (token, capability) =
            ok-injective (ap (λ y. y.0) e₄) in
          record {
            hashed =
                ap (λ y. hash_token sha256 y.0) (sym same)
                ∙ ap (λ (y : String × Capability). y.1.hash) same;
            stored =
                subst (λ y. insert_capability driver y m.store ≡ ok m'.store) (ap (λ y. y.1) same)
                  (stored ∙ ap (λ y. ok y.1.store) e₄);
          }

-- Whatever `Authenticate` accepts for the token of an issued capability, right after the issue and
-- at any time, is that capability in every field.
pub authenticate-issue :
    (driver : Driver) (laws : Lawful driver) (parse_ip : String → Bool) (sha256 : String → List ℕ)
    (secret identifier : Random) (now : Time) (user run workspace host : String) (ttl : Duration)
    (m : Manager driver.DB) (token : String) (capability : Capability) (m' : Manager driver.DB)
    (now' : Time) (found : Capability)
    → issue_capability driver parse_ip sha256 secret identifier now user run workspace host ttl m
      ≡ (ok (token, capability), m')
    → (authenticate driver sha256 token now' m').0 ≡ ok found
    → found ≡ capability
unfolding authenticate
authenticate-issue driver laws parse_ip sha256 secret identifier now user run workspace host ttl m
      token capability m' now' found e accepted =
    let i =
      issuing driver laws parse_ip sha256 secret identifier now user run workspace host ttl m token
        capability m' e in
    let t =
      capability_by_token_hash-found driver laws capability.hash now' m'.store found (
        subst (λ h. capability_by_token_hash driver h now' m'.store ≡ ok found) i.hashed
          accepted) in
    sym t.read ∙ recovered driver laws capability m.store m'.store i.stored now' found t

-- Before an issued capability ends, `Authenticate` accepts its token right after the issue as that
-- capability, where the database answers the query.
pub authenticate-issue_accepted :
    (driver : Driver) (laws : Lawful driver) (parse_ip : String → Bool) (sha256 : String → List ℕ)
    (secret identifier : Random) (now : Time) (user run workspace host : String) (ttl : Duration)
    (m : Manager driver.DB) (token : String) (capability : Capability) (m' : Manager driver.DB)
    (now' : Time) (rs : List CapabilityRecord)
    → issue_capability driver parse_ip sha256 secret identifier now user run workspace host ttl m
      ≡ (ok (token, capability), m')
    → after capability.expires_at now' ≡ true
    → driver.capabilities.select_limit 1 (is_token capability.hash now') m'.store ≡ ok rs
    → (authenticate driver sha256 token now' m').0 ≡ ok capability
unfolding authenticate
authenticate-issue_accepted driver laws parse_ip sha256 secret identifier now user run workspace
      host ttl m token capability m' now' rs e runs answered =
    let i =
      issuing driver laws parse_ip sha256 secret identifier now user run workspace host ttl m token
        capability m' e in
    elim (Result-cases (authenticate driver sha256 token now' m').0) [
      | inl (found, accepted) ↦
          accepted
          ∙ ap (λ c. ok c)
              (authenticate-issue driver laws parse_ip sha256 secret identifier now user run
                workspace host ttl m token capability m' now' found e accepted)
      | inr (x, rejected) ↦
          let failed = rejection driver laws capability m.store m'.store i.stored now' runs (
            subst (λ h. capability_by_token_hash driver h now' m'.store ≡ err x) i.hashed
              rejected) in
          absurd (cc (sym answered ∙ failed))
    ]
