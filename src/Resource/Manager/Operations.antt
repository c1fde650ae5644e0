-- ===== src/Resource/Manager/Operations.antt =====
-- The other exported operations of internal/resource/manager.go. The readings of the clock are
-- arguments, in the order in which the code takes them.
use Prim.Native.String.{◌++◌}
use llama_stack.Base.{
  ℕ, Bool, true, false, not, ◌&&◌, ◌||◌, Option, none, some, List, [], ◌∷◌, String, Result, ok, err,
  Failure, not_found, message, errorf, if◌then◌else◌, str_eq,
}
use llama_stack.Base.Actions.{Action, ◌>>=◌, ◌>>◌, done, lift}
use llama_stack.Base.Int.{pos, leb_ℤ, ltb_ℤ}
use llama_stack.Base.Text.{hex_encode, is_some}
use llama_stack.Resource.Types.{Config, Capability, Lease, Port, Time, Duration, add, after}
use llama_stack.Resource.Store.{
  Driver, LeaseRecord, insert_capability, capability_by_token_hash, capability_by_id,
  delete_capability, active_leases, leases_for_capability, lease_by_id, update_lease, delete_lease,
  lease_from_record, leases_from_records,
}
use llama_stack.Resource.Manager.{
  Manager, Random, random_id, minimum_time, listen, install_proxy, close_lease_proxies,
  close_records_proxies, signal_changed_locked, modify, query, exec, remove_expired_locked,
}

-- `hashToken`, over the hash function of crypto/sha256.
unfoldable pub hash_token : (String → List ℕ) → String → String
hash_token sha256 token = hex_encode (sha256 token)

-- The checks of `IssueCapability`; `parse_ip` tells whether `net.ParseIP` reads the text.
unfoldable pub check_capability :
    (String → Bool) → Config → (user run workspace host : String) → Duration → Result (Unit {0})
check_capability parse_ip config user run workspace host ttl =
    if str_eq user "" || str_eq run "" || str_eq workspace ""
    then err (message "user, run, and workspace identifiers are required")
    else if not (parse_ip host) && not (str_eq host "localhost")
    then err (message "target host must be an IP address or localhost")
    else if leb_ℤ ttl (pos 0) || ltb_ℤ config.maximum_ttl ttl
    then err (errorf "capability TTL must be between one second and %s" (config.maximum_ttl ∷ []))
    else ok tt

-- The capability of `IssueCapability` for a token.
abbrev pub new_capability :
    (hash id user run workspace host : String) → Time → Duration → Capability
new_capability hash id user run workspace host now ttl = record {
  id = id;
  hash = hash;
  user_id = user;
  run_id = run;
  workspace_id = workspace;
  target_host = host;
  expires_at = add now ttl;
}

abbrev pub token_of : List ℕ → String
token_of bytes = "lsrc_" ++ hex_encode bytes

module _ (driver : Driver) where
  open driver use {DB}

  unfoldable pub issue_capability :
      (String → Bool)
      → (String → List ℕ)
      → (secret identifier : Random) → Time
      → (user run workspace host : String) → Duration
      → Action (Manager DB) (String × Capability)
  unfolding check_capability hash_token
  issue_capability parse_ip sha256 secret identifier now user run workspace host ttl m =
      (do
        lift (check_capability parse_ip m.config user run workspace host ttl)
        bytes ← lift secret
        id ← lift (random_id "cap_" identifier)
        let capability =
            new_capability (hash_token sha256 (token_of bytes)) id user run workspace host now ttl
        exec (insert_capability driver capability)
        done (token_of bytes, capability))
        m

  unfoldable pub authenticate : (String → List ℕ) → String → Time → Action (Manager DB) Capability
  unfolding hash_token
  authenticate sha256 token now =
      query (capability_by_token_hash driver (hash_token sha256 token) now)

  unfoldable pub list : Capability → Time → Action (Manager DB) (List Lease)
  list capability now = do
    records ← query (leases_for_capability driver capability.hash now)
    done (leases_from_records records)

  unfoldable pub list_all : Time → Action (Manager DB) (List Lease)
  list_all now = do records ← query (active_leases driver now); done (leases_from_records records)

  unfoldable pub renew :
      Capability → String → Duration → (now now' now'' : Time) → Action (Manager DB) Lease
  renew capability lease_id ttl now now' now'' m =
      (do
        lift (
            if leb_ℤ ttl (pos 0) || ltb_ℤ m.config.maximum_ttl ttl
            then err
                (errorf "lease TTL must be between one second and %s" (m.config.maximum_ttl ∷ []))
            else ok tt)
        _ ← query (capability_by_token_hash driver capability.hash now)
        r ← query (lease_by_id driver lease_id)
        lift (
            if not (str_eq r.capability_hash capability.hash) || not (after r.expires_at now')
            then err not_found
            else ok tt)
        let renewed = record r { expires_at = minimum_time (add now'' ttl) capability.expires_at }
        exec (update_lease driver renewed)
        done (lease_from_record renewed))
        m

  unfoldable pub release_where :
      (lease_id capability_hash : String) → Action (Manager DB) (Unit {0})
  release_where lease_id capability_hash = do
    r ← query (lease_by_id driver lease_id)
    lift (
        if not (str_eq capability_hash "") && not (str_eq r.capability_hash capability_hash)
        then err not_found
        else ok tt)
    exec (delete_lease driver lease_id)
    modify (close_lease_proxies r)
    modify signal_changed_locked

  unfoldable pub release : Capability → String → Action (Manager DB) (Unit {0})
  unfolding release_where
  release capability lease_id = release_where lease_id capability.hash

  unfoldable pub revoke : String → Action (Manager DB) (Unit {0})
  unfolding release_where
  revoke lease_id = release_where lease_id ""

  unfoldable pub revoke_capability : String → Action (Manager DB) (Unit {0})
  revoke_capability capability_id = do
    c ← query (capability_by_id driver capability_id)
    records ← query (leases_for_capability driver c.hash 0)
    modify (close_records_proxies records)
    exec (delete_capability driver c)
    modify signal_changed_locked

  unfoldable pub reap : Time → Action (Manager DB) (Unit {0})
  reap now = remove_expired_locked driver now

  -- `_ = manager.store.deleteLease(record.ID)`.
  unfoldable pub drop_lease : LeaseRecord → Manager DB → Manager DB
  drop_lease r m = (exec (delete_lease driver r.id) (close_lease_proxies r m)).1

  -- The loop of `reconcile` over the ports of a record, with the variable `err`.
  unfoldable pub restore_ports :
      (ℕ → Bool)
      → LeaseRecord
      → List Port
      → Option Failure
      → Manager DB
      → Option Failure × Manager DB
  restore_ports free r [] e m = (e, m)
  restore_ports free r (p ∷ ps) e m = elim (listen free p.host_port m).0 [
    | err failed ↦ (some failed, drop_lease r (listen free p.host_port m).1)
    | ok _ ↦
        restore_ports free r ps none (install_proxy r.target_host p (listen free p.host_port m).1)
  ]

  -- The loop over the records.
  unfoldable pub restore_records :
      (ℕ → Bool) → List LeaseRecord → Option Failure → Manager DB → Option Failure × Manager DB
  restore_records free [] e m = (e, m)
  restore_records free (r ∷ rs) e m =
      let (e', m') = restore_ports free r r.ports e m in restore_records free rs e' m'

  abbrev pub returned : Option Failure × Manager DB → Result (Unit {0}) × Manager DB
  returned (none, m) = (ok tt, m)
  returned (some e, m) = (err e, m)

  unfoldable pub reconcile : (ℕ → Bool) → (now now' : Time) → Action (Manager DB) (Unit {0})
  unfolding restore_records restore_ports drop_lease
  reconcile free now now' = do
    remove_expired_locked driver now
    records ← query (active_leases driver now')
    λ m. returned (restore_records free records none m)

  -- The manager of `Open` before `reconcile`.
  abbrev pub initial : Config → DB → Manager DB
  initial config db = record {
    config = config;
    store = db;
    proxies = λ port. none;
    listening = λ port. false;
    changed = 0;
    closed = false;
  }

  -- `Open`, with the answer of `openStore`.
  unfoldable pub open_manager :
      Config → Result DB → (ℕ → Bool) → (now now' : Time) → Result (Manager DB)
  open_manager config (err e) free now now' = err e
  open_manager config (ok db) free now now' =
      let (r, m) = reconcile free now now' (initial config db) in
      elim r [ ok _ ↦ ok m | err e ↦ err e ]

  -- `Close`: every proxy is closed and leaves the map, once.
  unfoldable pub close_manager : Manager DB → Manager DB
  close_manager m = if m.closed then m else record m {
    closed = true;
    listening = λ port. m.listening port && not (is_some (m.proxies port));
    proxies = λ port. none;
  }
