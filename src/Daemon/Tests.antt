-- ===== src/Daemon/Tests.antt =====
-- The theorem on the start of the daemon, applied to a database with a lease in it.
use llama_stack.Base.{◌≡◌, refl, true, Option, none, some, Result, ok, err}
use llama_stack.Base.Actions as Actions
use llama_stack.Base.Int.{pos}
use llama_stack.Config.Samples.{raw}
use llama_stack.Resource.Store.{
  active_leases, expired_leases, delete_expired_leases, delete_expired_capabilities,
  leases_from_records,
}
use llama_stack.Resource.Store.Memory.{Rows, memory}
use llama_stack.Resource.Manager.{
  remove_expired_locked, close_records_proxies, listen, install_proxy,
}
use llama_stack.Resource.Manager.Operations.{open_manager, list_all, reconcile}
use llama_stack.Resource.Manager.Samples.{rows, before}
use llama_stack.Daemon.{Service, Startup, start, restore, schedule_restored, schedule_expiry}
use llama_stack.Daemon.Scheduled.{IsServing, start-IsServing}

abbrev startup : Startup Rows
startup = record {
  token = ok "lsadmin_00\n";
  database = ok rows;
  free = λ port. true;
  jobs = ok tt;
  consumer = ok tt;
  new_task = λ delay. ok tt;
  swept_at = 10;
  listed_at = 20;
  now = 30;
  until_at = λ lease. 31;
}

abbrev idle : Service Rows
idle = record { manager = before; admin_token = ""; max_wait = pos 0 }

abbrev served : Result (Option (Service Rows)) → Service Rows
served (err e) = idle
served (ok none) = idle
served (ok (some service)) = service

started : start memory raw startup ≡ ok (some (served (start memory raw startup)))
unfolding start restore open_manager reconcile list_all schedule_restored schedule_expiry
    remove_expired_locked Actions.◌>>=◌ active_leases expired_leases delete_expired_leases
    delete_expired_capabilities close_records_proxies listen leases_from_records install_proxy
started = refl

start-IsServing_example : IsServing memory raw startup (served (start memory raw startup))
start-IsServing_example = start-IsServing memory raw startup _ started
