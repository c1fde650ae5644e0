-- ===== src/Daemon/Scheduled.antt =====
-- What a daemon of cmd/llama-stackd/main.go that has started relies on.
use llama_stack.Base.{
  ◌-◌, ◌≡◌, sym, ap, ◌∙◌, subst, true, none, some, List, [], ◌∷◌, String, Result, ok, err, All,
  if◌then◌else◌, Bool-cases, Result-cases, inl, inr, parts_of_ok, ok-injective,
}
use llama_stack.Base.Int.{pos}
use llama_stack.Config as Settings
use llama_stack.Resource.Types.{Lease, Time, Duration}
use llama_stack.Resource.Store.{Driver}
use llama_stack.Resource.Manager.{Manager}
use llama_stack.Resource.Manager.Operations.{open_manager, list_all}
use llama_stack.Daemon.{
  Service, Startup, start, start_leases, restore, schedule_restored, schedule_expiry,
  resource_config, explained,
}

-- The scheduler has taken the end of the lease.
abbrev pub IsScheduled : (Duration → Result (Unit {0})) → Time → Lease → Type 0
IsScheduled new_task now lease = new_task (pos (lease.expires_at - now)) ≡ ok tt

schedule_restored-all :
    (new_task : Duration → Result (Unit {0})) (clock : Lease → Time) (leases : List Lease)
    → schedule_restored new_task clock leases ≡ ok tt
    → All (λ l. IsScheduled new_task (clock l) l) leases
unfolding schedule_restored schedule_expiry
schedule_restored-all new_task clock [] e = tt
schedule_restored-all new_task clock (lease ∷ leases) e =
    elim (Result-cases (new_task (pos (lease.expires_at - clock lease)))) [
      | inr (x, refused) ↦ absurd (cc (rw (refused, schedule_restored, schedule_expiry) at e))
      | inl (u, taken) ↦ (
        taken,
        schedule_restored-all new_task clock leases
            (rw (taken, schedule_restored, schedule_expiry) at e),
      )
    ]

-- What stands behind a daemon that serves leases.
pub record IsServing (driver : Driver) (cfg : Settings.Config) (startup : Startup driver.DB)
    (service : Service driver.DB) : Type 0 where
  pub enabled : cfg.ports.enabled ≡ true
  pub opened : Manager driver.DB
  pub restored :
      open_manager driver
        (resource_config cfg)
        startup.database
        startup.free
        startup.swept_at
        startup.listed_at
      ≡ ok opened
  pub leases : List Lease
  pub listed : (list_all driver startup.now opened).0 ≡ ok leases
  pub scheduled : All (λ l. IsScheduled startup.new_task (startup.until_at l) l) leases
  pub manager : service.manager ≡ (list_all driver startup.now opened).1

explained-ok :
    {A : Type 0} (note : String) (r : Result A) {a : A} → explained note r ≡ ok a → r ≡ ok a
explained-ok note (err e) h = absurd (cc h)
explained-ok note (ok a) h = h

same_some : {A : Type 0} (a b : A) → ok (some a) ≡ ok (some b) → a ≡ b
same_some a b e = cc

-- A restored manager has all its leases scheduled.
restore-IsScheduled :
    (driver : Driver) (cfg : Settings.Config) (startup : Startup driver.DB) (token : String)
    (m : Manager driver.DB) (service : Service driver.DB)
    → restore driver cfg startup token m ≡ ok service
    → (leases : List Lease) × ((list_all driver startup.now m).0 ≡ ok leases)
      × All (λ l. IsScheduled startup.new_task (startup.until_at l) l) leases
      × (service.manager ≡ (list_all driver startup.now m).1)
unfolding restore
restore-IsScheduled driver cfg startup token m service e =
    let (leases, listed, h₁) =
      parts_of_ok
        (explained "list leases for expiration scheduling" (list_all driver startup.now m).0) _ e in
    let (u, scheduled, h₂) =
      parts_of_ok (schedule_restored startup.new_task startup.until_at leases) (λ _. _) h₁ in
    (
      leases,
      explained-ok _ _ listed,
      schedule_restored-all startup.new_task startup.until_at leases scheduled,
      ap (λ s. s.manager) (sym (ok-injective h₂)),
    )

-- A daemon that serves leases does so over the manager that `Open` restored, and the scheduler
-- has taken the end of every lease that this manager lists. Where any of this fails the daemon
-- does not start.
pub start-IsServing :
    (driver : Driver) (cfg : Settings.Config) (startup : Startup driver.DB)
    (service : Service driver.DB)
    → start driver cfg startup ≡ ok (some service)
    → IsServing driver cfg startup service
unfolding start restore
start-IsServing driver cfg startup service e = elim (Bool-cases cfg.ports.enabled) [
  | inr off ↦ absurd (cc (rw (off, start) at e))
  | inl on ↦
      let (token, read, h₁) =
        parts_of_ok (explained "read resource administrator token" startup.token) _ (through on) in
      let (opened, restored, h₂) =
        parts_of_ok
          (open_manager driver (resource_config cfg) startup.database startup.free startup.swept_at
            startup.listed_at)
          _ h₁ in
      let (u, jobs, h₃) = parts_of_ok (explained "open job scheduler" startup.jobs) (λ _. _) h₂ in
      let (v, consumer, h₄) =
        parts_of_ok (explained "register resource expiration consumer" startup.consumer) (λ _. _)
          h₃ in
      let (made, restores, h₅) = parts_of_ok (restore driver cfg startup token opened) _ h₄ in
      let (leases, listed, scheduled, same) =
        restore-IsScheduled driver cfg startup token opened made restores in
      record {
        enabled = on;
        opened = opened;
        restored = restored;
        leases = leases;
        listed = listed;
        scheduled = scheduled;
        manager = ap (λ s. s.manager) (sym (same_some made service h₅)) ∙ same;
      }
]
  where
    through : cfg.ports.enabled ≡ true → start_leases driver cfg startup ≡ ok (some service)
    through on =
        subst (λ b. (if b then start_leases driver cfg startup else ok none) ≡ ok (some service)) on
          e
