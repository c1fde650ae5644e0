-- ===== src/Resource/Manager/Allocation/Reference.antt =====
-- `reserveListeners` of internal/resource/manager.go against a reference in one pass.
use llama_stack.Base.{
  ℕ, ◌≡◌, Bool, List, Result, ok, err, exhausted, inl, inr, arith, leb, length, if◌then◌else◌,
  Bool-cases,
}
use llama_stack.Base.Int.{ℤ}
use llama_stack.Resource.Types.{Port}
use llama_stack.Resource.Store.{LeaseRecord}
use llama_stack.Resource.Manager.{Manager}
use llama_stack.Resource.Manager.Allocation.{reserve_listeners}
use llama_stack.Resource.Manager.Allocation.Hosts.{assign}
use llama_stack.Resource.Manager.Allocation.FirstFit.{pool, bound, reserve_listeners-outcomes}

-- The reference: one pass over the host ports that are to be had.
abbrev pub first_fit :
    {DB : Type 0}
    → (ℕ → Bool)
    → List ℤ
    → List LeaseRecord
    → Manager DB
    → Result (List Port) × Manager DB
first_fit free target_ports active m =
    if leb (length target_ports) (length (pool free active m))
    then (
      ok (assign (pool free active m) target_ports),
      bound (assign (pool free active m) target_ports) m,
    )
    else (err exhausted, m)

-- A reservation takes the first host ports of the pool that no active lease uses and that can be
-- bound, one for each target port in order, and binds exactly these; if there are fewer of them
-- than target ports it fails as exhausted and leaves the manager as it was.
pub reserve_listeners-first_fit :
    {DB : Type 0} (free : ℕ → Bool) (target_ports : List ℤ) (active : List LeaseRecord)
    (m : Manager DB)
    → reserve_listeners free target_ports active m ≡ first_fit free target_ports active m
reserve_listeners-first_fit free target_ports active m =
    elim (Bool-cases (leb (length target_ports) (length (pool free active m)))) [
      | inl enough ↦
          rw enough ((reserve_listeners-outcomes free target_ports active m).0 (ground arith))
      | inr short ↦
          rw short ((reserve_listeners-outcomes free target_ports active m).1 (ground arith))
    ]
