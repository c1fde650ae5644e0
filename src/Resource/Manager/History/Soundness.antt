-- ===== src/Resource/Manager/History/Soundness.antt =====
-- The stored leases of internal/resource/manager.go through restarts and any operations.
use llama_stack.Base.{ℕ, ◌≤◌, ◌≡◌, sym, subst, Bool, List, String, Result, ok, arith, total}
use llama_stack.Base.Actions.{lift_cases}
use llama_stack.Resource.Types.{Config, Time, Duration}
use llama_stack.Resource.Store.{Driver, LeaseRecord, insert_capability}
use llama_stack.Resource.Store.Laws.{Lawful}
use llama_stack.Resource.Manager.{
  Manager, Random, exec_then_cases, signal_changed_locked, listen, install_proxy,
}
use llama_stack.Resource.Manager.Exclusive.{IsSound, IsSound-Within, Left-kept}
use llama_stack.Resource.Manager.Kept.{IsKept}
use llama_stack.Resource.Manager.Operations.{issue_capability, close_manager, open_manager}
use llama_stack.Resource.Manager.History.{Call, run}
use llama_stack.Resource.Manager.Restoring.{Restorable, open_manager-kept}
use llama_stack.Resource.Manager.History.Renewal.{renew-IsSound}
use llama_stack.Resource.Manager.History.Grants.{Steps-IsSound}
use llama_stack.Resource.Manager.History.Invariant.{IsInvariant, run-keeps}

module _ (driver : Driver) (laws : Lawful driver) where
  open driver use {DB}
  open laws use {lease_rows}

  abbrev pub Sound : Manager DB → Type 0
  Sound m = IsSound (lease_rows m.store)

  Sound-kept : IsKept driver Sound
  unfolding signal_changed_locked
  Sound-kept = record {
    close_port = λ q m v. IsSound-Within _ _ ((left m).close_port q m (λ w. omega arith)) v;
    delete = λ d m v. IsSound-Within _ _ ((left m).delete d m (λ w. omega arith)) v;
    signal = λ m v. v;
  }
    where
      left :
          (m : Manager DB)
          → IsKept driver (λ m'.
            (w : LeaseRecord → ℕ) → total w (lease_rows m'.store) ≤ total w (lease_rows m.store))
      left m = Left-kept driver laws (lease_rows m.store)

  close_manager-store : (m : Manager DB) → (close_manager driver m).store ≡ m.store
  unfolding close_manager
  close_manager-store m = ground arith

  module _ (parse_ip : String → Bool) (sha256 : String → List ℕ) where
    issue_capability-Sound :
        (secret identifier : Random) (now : Time) (user run workspace host : String)
        (ttl : Duration) (m : Manager DB)
        → Sound m
        → Sound
            (issue_capability driver parse_ip sha256 secret identifier now user run workspace host
              ttl m).1
    unfolding issue_capability insert_capability
    issue_capability-Sound secret identifier now user run workspace host ttl m v =
        lift_cases P _ _ m (λ _ _. v)
          λ _ _.
            lift_cases P secret _ m (λ _ _. v)
              λ _ _.
                lift_cases P _ _ m (λ _ _. v)
                  λ _ _.
                    exec_then_cases P (insert_capability driver _) _ m (λ _ _. v)
                      λ db stored.
                        IsSound-Within (lease_rows m.store) (lease_rows db)
                          (λ w. omega (arith, laws.insert_capability_leases _ m.store db stored w))
                          v
      where
        P : {A : Type 0} → Result A × Manager DB → Type 0
        P x = Sound x.1

    pub Sound-IsInvariant : IsInvariant driver parse_ip sha256 Sound
    Sound-IsInvariant = record {
      kept = Sound-kept;
      issued = issue_capability-Sound;
      granted = Steps-IsSound driver laws;
      renewed = renew-IsSound driver laws;
      ended = λ m v. subst (λ db. IsSound (lease_rows db)) (sym (close_manager-store m)) v;
    }

  Sound-Restorable : Restorable Sound
  unfolding listen install_proxy
  Sound-Restorable free host p m e v = ground arith

-- Where no two stored leases hold one host port, no lease holds one twice, and no two leases have
-- one identifier, this is still so after the manager was opened on the database and put through
-- any sequence of operations, successful or not.
pub run-IsSound :
    (driver : Driver) (laws : Lawful driver) (parse_ip : String → Bool) (sha256 : String → List ℕ)
    (config : Config) (db : driver.DB) (free : ℕ → Bool) (now now' : Time) (m : Manager driver.DB)
    (cs : List Call)
    → IsSound (laws.lease_rows db)
    → open_manager driver config (ok db) free now now' ≡ ok m
    → IsSound (laws.lease_rows (run driver parse_ip sha256 m cs).store)
run-IsSound driver laws parse_ip sha256 config db free now now' m cs v opened =
    run-keeps driver parse_ip sha256 (Sound driver laws)
      (Sound-IsInvariant driver laws parse_ip sha256) cs m
      (open_manager-kept driver (Sound driver laws) (Sound-kept driver laws)
        (Sound-Restorable driver laws) config db free now now' m opened v)
