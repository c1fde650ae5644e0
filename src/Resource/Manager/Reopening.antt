-- ===== src/Resource/Manager/Reopening.antt =====
-- `reconcile` of internal/resource/manager.go where the last lease cannot be restored: the error of
-- its bind is left in `err`, although the lease is given up.
use llama_stack.Base.{
  ℕ, ◌≡◌, refl, ap, ◌∙◌, subst, sym, Bool, false, Option, none, some, List, [], ◌∷◌, ◌++◌, ok, err,
  Failure, ◌⊎◌, inl, inr, is_ok,
}
use llama_stack.Base.Actions.{◌>>=◌}
use llama_stack.Resource.Types.{Config, Port, Time}
use llama_stack.Resource.Store.{Driver, LeaseRecord, active_leases, delete_lease}
use llama_stack.Resource.Store.Laws.{Lawful}
use llama_stack.Resource.Manager.{
  Manager, listen, address_in_use, remove_expired_locked, close_lease_proxies, exec_cases,
}
use llama_stack.Resource.Manager.Closing.{close_ports-store}
use llama_stack.Resource.Manager.Exclusive.{leases_named}
use llama_stack.Resource.Manager.Operations.{
  restore_ports, restore_records, drop_lease, returned, reconcile, initial, open_manager,
}
use llama_stack.Resource.Manager.Releasing.{delete_lease-gone}

module _ (driver : Driver) (laws : Lawful driver) where
  open driver use {DB}

  -- The lease was given up: the state is that behind `closeLeaseProxies` and the deletion, and if
  -- the database did not fail to delete it, no stored lease has its identifier.
  pub record IsGivenUp (r : LeaseRecord) (final : Manager DB) : Type 0 where
    pub before : Manager DB
    pub dropped : final ≡ drop_lease driver r before
    pub gone :
        (is_ok (delete_lease driver r.id before.store) ≡ false)
        ⊎ (leases_named r.id (laws.lease_rows final.store) ≡ 0)

  drop_lease-gone :
      (r : LeaseRecord) (m : Manager DB)
      → (is_ok (delete_lease driver r.id m.store) ≡ false)
        ⊎ (leases_named r.id (laws.lease_rows (drop_lease driver r m).store) ≡ 0)
  unfolding drop_lease close_lease_proxies
  drop_lease-gone r m =
      exec_cases
        (λ x.
          (is_ok (delete_lease driver r.id m.store) ≡ false)
          ⊎ (leases_named r.id (laws.lease_rows x.1.store) ≡ 0))
        (delete_lease driver r.id) (close_lease_proxies r m)
        (λ e failed. inl (ap is_ok (sym (ap (delete_lease driver r.id) same) ∙ failed)))
        (λ db deleted.
          inr (delete_lease-gone driver laws r.id (close_lease_proxies r m).store db deleted))
    where
      same : (close_lease_proxies r m).store ≡ m.store
      same = close_ports-store r.ports m

  drop_lease-IsGivenUp : (r : LeaseRecord) (m : Manager DB) → IsGivenUp r (drop_lease driver r m)
  drop_lease-IsGivenUp r m = record { before = m; dropped = refl; gone = drop_lease-gone r m }

  -- How the loop over the records ends.
  abbrev Failed : LeaseRecord → Option Failure × Manager DB → Type 0
  Failed r x = (x.0 ≡ some address_in_use) × IsGivenUp r x.1

  listen-taken :
      (free : ℕ → Bool) (q : ℕ) (m : Manager DB)
      → free q ≡ false
      → listen free q m ≡ (err address_in_use, m)
  unfolding listen
  listen-taken free q m taken = rw (listen, taken) refl

  restore_ports-taken :
      (free : ℕ → Bool) (r : LeaseRecord) (p : Port) (ps : List Port) (e : Option Failure)
      (m : Manager DB)
      → free p.host_port ≡ false
      → restore_ports driver free r (p ∷ ps) e m ≡ (some address_in_use, drop_lease driver r m)
  unfolding restore_ports
  restore_ports-taken free r p ps e m taken =
      rw (restore_ports, listen-taken free p.host_port m taken)
        (ap (λ x. (some address_in_use, drop_lease driver r x.1))
          (listen-taken free p.host_port m taken))

  restore_records-Failed :
      (free : ℕ → Bool) (rs : List LeaseRecord) (r : LeaseRecord) (p : Port) (ps : List Port)
      (e : Option Failure) (m : Manager DB)
      → r.ports ≡ p ∷ ps
      → free p.host_port ≡ false
      → Failed r (restore_records driver free (rs ++ r ∷ []) e m)
  unfolding restore_records
  restore_records-Failed free [] r p ps e m here taken =
      let ended : restore_ports driver free r r.ports e m
          ≡ (some address_in_use, drop_lease driver r m) =
        subst
          (λ qs. restore_ports driver free r qs e m ≡ (some address_in_use, drop_lease driver r m))
          (sym here) (restore_ports-taken free r p ps e m taken) in
      subst (Failed r) (sym ended) (refl, drop_lease-IsGivenUp r m)
  restore_records-Failed free (r' ∷ rs) r p ps e m here taken =
      restore_records-Failed free rs r p ps _ _ here taken

  returned-Failed :
      (r : LeaseRecord) (x : Option Failure × Manager DB)
      → Failed r x
      → ((returned driver x).0 ≡ err address_in_use) × IsGivenUp r (returned driver x).1
  returned-Failed r (none, m) (h, _) = absurd (cc h)
  returned-Failed r (some e, m) (h, up) = (cc h, up)

  reconcile-Failed :
      (config : Config) (db : DB) (free : ℕ → Bool) (now now' : Time) (swept : Manager DB)
      (rs : List LeaseRecord) (r : LeaseRecord) (p : Port) (ps : List Port)
      → remove_expired_locked driver now (initial driver config db) ≡ (ok tt, swept)
      → active_leases driver now' swept.store ≡ ok (rs ++ r ∷ [])
      → r.ports ≡ p ∷ ps
      → free p.host_port ≡ false
      → ((reconcile driver free now now' (initial driver config db)).0 ≡ err address_in_use)
        × IsGivenUp r (reconcile driver free now now' (initial driver config db)).1
  unfolding reconcile ◌>>=◌
  reconcile-Failed config db free now now' swept rs r p ps sweep listed here taken =
      rw (reconcile, ◌>>=◌, sweep, listed)
        (returned-Failed r _ (restore_records-Failed free rs r p ps none swept here taken))

-- Where the first host port of the last lease that `Open` restores cannot be bound, `Open` returns
-- the error of that bind, although the lease is given up: `reconcile` has closed its proxies and
-- asked for its deletion, and unless the database failed to delete it, no stored lease has its
-- identifier. The sweep and the listing of the leases have succeeded.
pub open_manager-last_failed :
    (driver : Driver) (laws : Lawful driver) (config : Config) (db : driver.DB) (free : ℕ → Bool)
    (now now' : Time) (swept : Manager driver.DB) (rs : List LeaseRecord) (r : LeaseRecord)
    (p : Port) (ps : List Port)
    → remove_expired_locked driver now (initial driver config db) ≡ (ok tt, swept)
    → active_leases driver now' swept.store ≡ ok (rs ++ r ∷ [])
    → r.ports ≡ p ∷ ps
    → free p.host_port ≡ false
    → (open_manager driver config (ok db) free now now' ≡ err address_in_use)
      × IsGivenUp driver laws r (reconcile driver free now now' (initial driver config db)).1
unfolding open_manager
open_manager-last_failed driver laws config db free now now' swept rs r p ps sweep listed here
      taken =
    let (failed, up) =
      reconcile-Failed driver laws config db free now now' swept rs r p ps sweep listed here
        taken in
    (rw (open_manager, failed) refl, up)
