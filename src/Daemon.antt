-- ===== src/Daemon.antt =====
-- cmd/llama-stackd/main.go: the daemon around the manager of leases. The job scheduler is gasket's:
-- whether it opens, takes the consumer and takes a task with a delay are arguments.
pub mod Scheduled
mod Tests
use llama_stack.Base.{
  ℕ, ◌-◌, Bool, true, false, Option, none, some, List, [], ◌∷◌, String, Result, ok, err, Failure,
  message, wrapped, if◌then◌else◌, ◌>>=◌, ◌>>◌,
}
use llama_stack.Base.Actions as Actions
use llama_stack.Base.Int.{ℤ, pos, pos_part}
use llama_stack.Base.Text.{trim_space}
use llama_stack.Config as Settings
use llama_stack.Resource.Types.{Config, Lease, Time, Duration}
use llama_stack.Resource.Store.{Driver}
use llama_stack.Resource.Manager.{Manager}
use llama_stack.Resource.Manager.Operations.{open_manager, list_all}
use llama_stack.ResourceApi.{seconds}

-- The manager's configuration; the bounds of the pool and the quotas of an accepted configuration
-- are not negative.
abbrev pub resource_config : Settings.Config → Config
resource_config cfg = record {
  port_start = pos_part cfg.ports.start;
  port_end = pos_part cfg.ports.end;
  default_ttl = seconds cfg.ports.default_ttl;
  maximum_ttl = seconds cfg.ports.maximum_ttl;
  maximum_run = pos_part cfg.ports.maximum_per_run;
  maximum_user = pos_part cfg.ports.maximum_per_user;
}

-- `scheduleExpiry`: a lease that has ended is reaped at once.
unfoldable pub schedule_expiry : (Duration → Result (Unit {0})) → Time → Time → Result (Unit {0})
schedule_expiry new_task now expires_at = new_task (pos (expires_at - now))

-- The loop over the restored leases, with the reading of the clock in each turn.
unfoldable pub schedule_restored :
    (Duration → Result (Unit {0})) → (Lease → Time) → List Lease → Result (Unit {0})
unfolding schedule_expiry
schedule_restored new_task clock [] = ok tt
schedule_restored new_task clock (lease ∷ leases) =
    elim (schedule_expiry new_task (clock lease) lease.expires_at) [
      | err e ↦ err (wrapped "schedule restored lease expiration" e)
      | ok _ ↦ schedule_restored new_task clock leases
    ]

abbrev explained : {A : Type 0} → String → Result A → Result A
explained note (err e) = err (wrapped note e)
explained note (ok a) = ok a

-- What the daemon serves leases with: the manager, the administrator's token, the longest wait.
pub record Service (DB : Type 0) : Type 0 where
  pub manager : Manager DB
  pub admin_token : String
  pub max_wait : Duration

-- What the files, the database and the scheduler answer while the daemon starts, with the
-- readings of the clock.
pub record Startup (DB : Type 0) : Type 0 where
  pub token : Result String
  pub database : Result DB
  pub free : ℕ → Bool
  pub jobs : Result (Unit {0})
  pub consumer : Result (Unit {0})
  pub new_task : Duration → Result (Unit {0})
  pub swept_at : Time
  pub listed_at : Time
  pub now : Time
  pub until_at : Lease → Time

module _ (driver : Driver) where
  open driver use {DB}

  -- The listing and the scheduling of the restored leases, behind the opening of the manager.
  unfoldable pub restore : Settings.Config → Startup DB → String → Manager DB → Result (Service DB)
  unfolding list_all schedule_restored trim_space Actions.◌>>=◌
  restore cfg startup token m =
      let (listed, m') = list_all driver startup.now m in
      do
        leases ← explained "list leases for expiration scheduling" listed
        schedule_restored startup.new_task startup.until_at leases
        ok (record {
          manager = m';
          admin_token = trim_space token;
          max_wait = seconds cfg.ports.maximum_wait;
        })

  abbrev pub start_leases : Settings.Config → Startup DB → Result (Option (Service DB))
  start_leases cfg startup = do
    token ← explained "read resource administrator token" startup.token
    manager ←
        open_manager driver (resource_config cfg) startup.database startup.free startup.swept_at
          startup.listed_at
    explained "open job scheduler" startup.jobs
    explained "register resource expiration consumer" startup.consumer
    service ← restore cfg startup token manager
    ok (some service)

  -- The start of `run`, up to the server; `none` stands for a daemon without leases. A daemon that
  -- does not start has closed its manager by `defer`, so the error is all that is left.
  unfoldable pub start : Settings.Config → Startup DB → Result (Option (Service DB))
  unfolding restore open_manager
  start cfg startup = if cfg.ports.enabled then start_leases cfg startup else ok none

-- How the daemon stops: by a signal, by its server, or by the job scheduler, which may itself have
-- seen the signal; `shutdown` is what `server.Shutdown` answers.
pub data Stop : Type 0 where
  signaled : Stop
  server_closed : Stop
  server_failed : Failure → Stop
  jobs_ended : (signal_seen : Bool) → Result (Unit {0}) → Stop

-- The `select` of `run`.
unfoldable pub stop : Result (Unit {0}) → Stop → Result (Unit {0})
stop shutdown signaled = shutdown
stop shutdown server_closed = ok tt
stop shutdown (server_failed e) = err e
stop shutdown (jobs_ended true result) = shutdown
stop shutdown (jobs_ended false (err e)) = err e
stop shutdown (jobs_ended false (ok _)) = err (message "job scheduler stopped unexpectedly")
