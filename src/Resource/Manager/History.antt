-- ===== src/Resource/Manager/History.antt =====
-- The manager under any sequence of its operations: the mutex makes each of them one step.
pub mod Lookup
pub mod Renewal
pub mod Grants
pub mod Invariant
pub mod Soundness
pub mod NoLeak
pub mod Unbinding
pub mod Requests
use llama_stack.Base.{ℕ, Bool, List, [], ◌∷◌, String}
use llama_stack.Base.Int.{ℤ}
use llama_stack.Resource.Types.{Capability, Time, Duration}
use llama_stack.Resource.Store.{Driver}
use llama_stack.Resource.Manager.{Manager, Random}
use llama_stack.Resource.Manager.Allocation.{allocate_once}
use llama_stack.Resource.Manager.Operations.{
  issue_capability, renew, release, revoke, revoke_capability, reap, close_manager,
}

pub data Call : Type 0 where
  issues :
      (secret identifier : Random) (now : Time) (user run workspace host : String) (ttl : Duration)
      → Call
  allocates :
      (free : ℕ → Bool) (now : Time) (random : Random) (capability : Capability) (targets : List ℤ)
      (ttl : Duration)
      → Call
  renews :
      (capability : Capability) (lease_id : String) (ttl : Duration) (now now' now'' : Time) → Call
  releases : (capability : Capability) (lease_id : String) → Call
  revokes revokes_capability : (id : String) → Call
  reaps : (now : Time) → Call
  closes : Call

module _ (driver : Driver) (parse_ip : String → Bool) (sha256 : String → List ℕ) where
  open driver use {DB}

  pub step : Manager DB → Call → Manager DB
  step m (issues secret identifier now user run workspace host ttl) =
      (issue_capability driver parse_ip sha256 secret identifier now user run workspace host ttl
        m).1
  step m (allocates free now random capability targets ttl) =
      (allocate_once driver free now random capability targets ttl m).1
  step m (renews capability lease_id ttl now now' now'') =
      (renew driver capability lease_id ttl now now' now'' m).1
  step m (releases capability lease_id) = (release driver capability lease_id m).1
  step m (revokes lease_id) = (revoke driver lease_id m).1
  step m (revokes_capability capability_id) = (revoke_capability driver capability_id m).1
  step m (reaps now) = (reap driver now m).1
  step m closes = close_manager driver m

  pub run : Manager DB → List Call → Manager DB
  run m [] = m
  run m (c ∷ cs) = run (step m c) cs
