-- ===== src/Resource/Manager/Sweep.antt =====
-- `removeExpiredLocked` of internal/resource/manager.go, and what `activeLeases` reads behind it.
use llama_stack.Base.{
  ◌≡◌, refl, ap, sym, ◌∙◌, fun_ext, Bool, not, List, ok, arith, leb, any, str_eq, SameEntries, true,
  false, if◌then◌else◌, ◌&&◌, total, total-keep-le,
}
use llama_stack.Base.Actions.{bind_ok}
use llama_stack.Base.Weights.{indicator, total-keep-not, total-keep_none}
use llama_stack.Resource.Types.{Config, Time, after}
use llama_stack.Resource.Store.{
  Driver, LeaseRecord, active_leases, delete_expired_leases, delete_expired_capabilities,
}
use llama_stack.Resource.Store.Laws.{Lawful}
use llama_stack.Resource.Manager.{
  is_empty, Manager, exec_cases, query_ok, exec_ok, close_port_proxy, remove_expired_locked,
  signal_changed_locked,
}
use llama_stack.Resource.Manager.Kept.{statement, IsKept, remove_expired_locked-kept}
use llama_stack.Resource.Manager.Exclusive.{Left, Within, Left-kept}

abbrev pub is_expired : Time → LeaseRecord → Bool
is_expired now r = leb r.expires_at now

not_expired :
    (now : Time)
    → ◌≡◌ {A = LeaseRecord → Bool} (λ r. after r.expires_at now) (λ r. not (is_expired now r))
not_expired now = fun_ext (λ r. ground arith)

signal_unless-store :
    {DB : Type 0} (b : Bool) (m : Manager DB)
    → (if b then m else signal_changed_locked m).store ≡ m.store
unfolding signal_changed_locked
signal_unless-store true m = refl
signal_unless-store false m = refl

module _ (driver : Driver) where
  open driver use {DB}

  config-kept : (c : Config) → IsKept driver (λ m. m.config ≡ c)
  unfolding close_port_proxy signal_changed_locked
  config-kept c = record {
    close_port = λ q m h. ground arith;
    delete =
        λ d m h. exec_cases (λ x. x.1.config ≡ c) (statement driver d) m (λ e _. h) (λ db _. h);
    signal = λ m h. h;
  }

  pub remove_expired_locked-config :
      (now : Time) (m : Manager DB) → (remove_expired_locked driver now m).1.config ≡ m.config
  remove_expired_locked-config now m =
      remove_expired_locked-kept driver (λ s. s.config ≡ m.config) (config-kept m.config) now m refl

  module _ (laws : Lawful driver) where
    open laws use {lease_rows}

    pub remove_expired_locked-Within :
        (now : Time) (m : Manager DB)
        → Within (lease_rows m.store) (lease_rows (remove_expired_locked driver now m).1.store)
    remove_expired_locked-Within now m =
        remove_expired_locked-kept driver (Left driver laws (lease_rows m.store))
          (Left-kept driver laws (lease_rows m.store)) now m (λ w. omega arith)

    -- A lease that has run out is gone.
    pub remove_expired_locked-expired :
        (now : Time) (m m' : Manager DB)
        → remove_expired_locked driver now m ≡ (ok tt, m')
        → total (indicator (is_expired now)) (lease_rows m'.store) ≡ 0
    unfolding remove_expired_locked delete_expired_leases delete_expired_capabilities
    remove_expired_locked-expired now m m' e = query_ok _ _ m e λ records _ e₀.
        bind_ok _ _ m e₀ λ _ s _ e₁. exec_ok _ _ s e₁ λ db₁ gone e₂.
          exec_ok _ _ (record s { store = db₁ }) e₂
            λ db₂ gone' e₃.
              let same : db₂ ≡ m'.store =
                sym (signal_unless-store (is_empty records) _) ∙ ap (λ y. y.1.store) e₃ in
              let expired = indicator (is_expired now) in
              rw (← same) (
                omega (
                  arith,
                  laws.lease_laws.delete_where_lem _ s.store db₁ gone expired,
                  total-keep_none (is_expired now) (lease_rows s.store),
                  laws.delete_where_cascade _ db₁ db₂ gone' expired,
                  total-keep-le expired
                      (λ l. not (
                        any (λ c. leb c.expires_at now && str_eq c.hash l.capability_hash)
                          (laws.capability_rows db₁)))
                      (lease_rows db₁),
                ))

    -- So what `activeLeases` reads then is the whole table.
    pub active_leases-swept :
        (now : Time) (m m' : Manager DB) (active : List LeaseRecord)
        → remove_expired_locked driver now m ≡ (ok tt, m')
        → active_leases driver now m'.store ≡ ok active
        → SameEntries active (lease_rows m'.store)
    unfolding active_leases
    active_leases-swept now m m' active swept listed w =
        laws.lease_laws.select_ordered_lem _ _ m'.store active listed w
        ∙ rw (not_expired now) (
            total-keep-not (is_expired now) w (lease_rows m'.store)
              (remove_expired_locked-expired now m m' swept))
