-- ===== src/Resource/Manager.antt =====
-- internal/resource/manager.go: the state of the manager and what its operations share. An
-- operation holds the mutex from its start to its end, so it is one step on this state.
-- A listener is named by the host port that it binds.
pub mod Allocation
pub mod Operations
pub mod Kept
pub mod Exclusive
pub mod Sweep
pub mod Closing
pub mod Renewing
pub mod Releasing
pub mod Revoking
pub mod Restoring
pub mod Reopening
pub mod Tokens
pub mod History
pub mod Samples
mod Tests
mod AccessTests
use Prim.Native.String.{◌++◌}
use llama_stack.Base.{
  ℕ, suc, Bool, true, false, not, ◌&&◌, Option, none, some, List, [], ◌∷◌, String, Result, ok, err,
  inl, inr, ◌≡◌, ap, Result-cases, Failure, message, ◌==◌, if◌then◌else◌,
}
use llama_stack.Base.Actions.{Action, ◌>>=◌, ◌>>◌, bind_ok, lift_cases, resume}
use llama_stack.Base.Int.{pos}
use llama_stack.Base.Text.{itoa, hex_encode, join_host_port}
use llama_stack.Resource.Types.{Config, Port, Time, after}
use llama_stack.Resource.Proxy
use llama_stack.Resource.Proxy.{Proxy, new_proxy, switch}
use llama_stack.Resource.Store.{
  Driver, LeaseRecord, expired_leases, delete_expired_leases, delete_expired_capabilities,
}

-- `listening` has the bound ports; `changed` counts the channels that `signalChangedLocked` closed.
pub record Manager (DB : Type 0) : Type 0 where
  pub config : Config
  pub store : DB
  pub proxies : ℕ → Option Proxy
  pub listening : ℕ → Bool
  pub changed : ℕ
  pub closed : Bool

abbrev pub put {ℓ} : {A : Type ℓ} → ℕ → A → (ℕ → A) → ℕ → A
put k a f j = if k == j then a else f j

-- The bytes that `rand.Read` gives, or its error.
abbrev pub Random : Type 0
Random = Result (List ℕ)

unfoldable pub random_id : String → Random → Result String
random_id prefix (ok bytes) = ok (prefix ++ hex_encode bytes)
random_id prefix (err e) = err e

unfoldable pub minimum_time : Time → Time → Time
minimum_time first second = if after first second then second else first

-- `net.JoinHostPort(host, strconv.Itoa(port.TargetPort))`.
abbrev pub proxy_target : String → Port → String
proxy_target host port = join_host_port host (itoa port.target_port)

-- The error of `net.Listen`.
abbrev pub address_in_use : Failure
address_in_use = message "listen tcp: bind: address already in use"

module _ {DB : Type 0} where
  -- `net.Listen` on a host port: it fails where the port is bound, by this process or (`free`) by
  -- another one, or is not allowed.
  unfoldable pub listen : (ℕ → Bool) → ℕ → Action (Manager DB) (Unit {0})
  listen free port m =
      if free port && not (m.listening port)
      then (ok tt, record m { listening = put port true m.listening })
      else (err address_in_use, m)

  pub close_listener : ℕ → Manager DB → Manager DB
  close_listener port m = record m { listening = put port false m.listening }

  -- The loop that closes the listeners of an unfinished reservation.
  pub close_listeners : List Port → Manager DB → Manager DB
  close_listeners [] m = m
  close_listeners (p ∷ ps) m = close_listeners ps (close_listener p.host_port m)

  -- `newProxy`, the entry in `proxies`, and `go serve()`.
  unfoldable pub install_proxy : String → Port → Manager DB → Manager DB
  install_proxy host port m = record m {
    proxies = put port.host_port (some (new_proxy (proxy_target host port))) m.proxies;
  }

  -- One turn of `closeLeaseProxies`: `portProxy.close()` closes the listener.
  pub close_port_proxy : ℕ → Manager DB → Manager DB
  close_port_proxy port m = elim (m.proxies port) [
    | none ↦ m
    | some p ↦ record m {
      listening = put port (Proxy.close p).listener_open m.listening;
      proxies = put port none m.proxies;
    }
  ]

  pub close_ports : List Port → Manager DB → Manager DB
  close_ports [] m = m
  close_ports (p ∷ ps) m = close_ports ps (close_port_proxy p.host_port m)

  pub close_lease_proxies : LeaseRecord → Manager DB → Manager DB
  close_lease_proxies record_ m = close_ports record_.ports m

  -- The loops over records that call `closeLeaseProxies`.
  unfoldable pub close_records_proxies : List LeaseRecord → Manager DB → Manager DB
  close_records_proxies [] m = m
  close_records_proxies (r ∷ rs) m = close_records_proxies rs (close_lease_proxies r m)

  pub signal_changed_locked : Manager DB → Manager DB
  signal_changed_locked m = record m { changed = suc m.changed }

  abbrev pub modify : (Manager DB → Manager DB) → Action (Manager DB) (Unit {0})
  modify f m = (ok tt, f m)

  -- A statement that reads, and one that writes.
  abbrev pub query : {A : Type 0} → (DB → Result A) → Action (Manager DB) A
  query read m = (read m.store, m)

  abbrev write_back : Manager DB → Result DB → Result (Unit {0}) × Manager DB
  write_back m (ok db) = (ok tt, record m { store = db })
  write_back m (err e) = (err e, m)

  abbrev pub exec : (DB → Result DB) → Action (Manager DB) (Unit {0})
  exec write m = write_back m (write m.store)

-- The two outcomes of a statement that writes.
pub exec_cases {ℓ} :
    {DB : Type 0} (P : Result (Unit {0}) × Manager DB → Type ℓ) (write : DB → Result DB)
    (m : Manager DB)
    → ((e : Failure) → write m.store ≡ err e → P (err e, m))
    → ((db : DB) → write m.store ≡ ok db → P (ok tt, record m { store = db }))
    → P (exec write m)
exec_cases P write m fails goes = elim (Result-cases (write m.store)) [
  | inl (db, e) ↦ rw e (goes db e)
  | inr (x, e) ↦ rw e (fails x e)
]

-- A chain that begins with a statement.
pub query_cases {ℓ} :
    {DB A B : Type 0} (P : Result B × Manager DB → Type ℓ) (read : DB → Result A)
    (f : A → Action (Manager DB) B) (m : Manager DB)
    → ((e : Failure) → read m.store ≡ err e → P (err e, m))
    → ((a : A) → read m.store ≡ ok a → P (f a m))
    → P ((query read >>= f) m)
unfolding ◌>>=◌
query_cases P read f m fails goes = lift_cases P (read m.store) f m fails goes

pub exec_then_cases {ℓ} :
    {DB B : Type 0} (P : Result B × Manager DB → Type ℓ) (write : DB → Result DB)
    (f : Unit {0} → Action (Manager DB) B) (m : Manager DB)
    → ((e : Failure) → write m.store ≡ err e → P (err e, m))
    → ((db : DB) → write m.store ≡ ok db → P (f tt (record m { store = db })))
    → P ((exec write >>= f) m)
unfolding ◌>>=◌
exec_then_cases P write f m fails goes =
    exec_cases (λ x. P (resume x f)) write m (λ e p. fails e p) (λ db p. goes db p)

-- A chain that succeeds, from its first action on.
pub query_ok {ℓ} :
    {DB A B : Type 0} {C : Type ℓ} (read : DB → Result A) (f : A → Action (Manager DB) B)
    (m : Manager DB) {b : B} {m' : Manager DB}
    → (query read >>= f) m ≡ (ok b, m')
    → ((a : A) → read m.store ≡ ok a → f a m ≡ (ok b, m') → C)
    → C
query_ok read f m e use_parts =
    bind_ok (query read) f m e
      (λ a t p q. use_parts a (ap (λ y. y.0) p) (rw (← ap (λ y. y.1) p) at q))

pub exec_ok {ℓ} :
    {DB B : Type 0} {C : Type ℓ} (write : DB → Result DB) (f : Unit {0} → Action (Manager DB) B)
    (m : Manager DB) {b : B} {m' : Manager DB}
    → (exec write >>= f) m ≡ (ok b, m')
    → ((db : DB) → write m.store ≡ ok db → f tt (record m { store = db }) ≡ (ok b, m') → C)
    → C
exec_ok {C} write f m {b} {m'} e use_parts = bind_ok (exec write) f m e λ a t p q.
    exec_cases (λ x. x ≡ (ok a, t) → C) write m (λ x _ r. absurd (cc (ap (λ y. y.0) r)))
      (λ db w r. use_parts db w (rw (← ap (λ y. y.1) r) at q)) p

abbrev is_empty : List LeaseRecord → Bool
is_empty [] = true
is_empty (r ∷ rs) = false

module _ (driver : Driver) where
  open driver use {DB}

  unfoldable pub remove_expired_locked : Time → Action (Manager DB) (Unit {0})
  remove_expired_locked now = do
    records ← query (expired_leases driver now)
    modify (close_records_proxies records)
    exec (delete_expired_leases driver now)
    exec (delete_expired_capabilities driver now)
    modify (λ m. if is_empty records then m else signal_changed_locked m)
