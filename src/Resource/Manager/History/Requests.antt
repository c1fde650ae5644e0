-- ===== src/Resource/Manager/History/Requests.antt =====
-- The whole of `Allocate` of internal/resource/manager.go, which lets other calls in while it
-- waits.
use llama_stack.Base.{
  ℕ, ◌||◌, not, Bool, true, List, [], ◌∷◌, String, Result, inl, inr, Result-cases, Bool-cases, All,
}
use llama_stack.Base.Int.{ℤ, pos, ltb_ℤ}
use llama_stack.Resource.Types.{Capability, Lease, Time, Duration, add, after}
use llama_stack.Resource.Store.{Driver}
use llama_stack.Resource.Store.Laws.{Lawful}
use llama_stack.Resource.Manager.{Manager}
use llama_stack.Resource.Manager.Exclusive.{IsSound}
use llama_stack.Resource.Manager.Allocation.{
  Turn, is_exhausted, allocate_loop, allocate_once, allocate, effective_ttl, check_request,
}
use llama_stack.Resource.Manager.Allocation.Waiting.{Wake-cases}
use llama_stack.Resource.Manager.History.Invariant.{IsInvariant, allocate_once-keeps}
use llama_stack.Resource.Manager.History.Soundness.{Sound, Sound-IsInvariant}

-- What the others do while the call does not hold the mutex keeps a property.
abbrev pub Respects : {DB : Type 0} → (Manager DB → Type 0) → Turn DB → Type 0
Respects I t = (m : Manager _) → I m → I (t.meanwhile m)

module _ (driver : Driver) (parse_ip : String → Bool) (sha256 : String → List ℕ)
    (I : Manager driver.DB → Type 0) (invariant : IsInvariant driver parse_ip sha256 I) where
  open driver use {DB}

  allocate_loop-keeps :
      (deadline : Time) (waits : Bool) (capability : Capability) (ports : List ℤ) (ttl : Duration)
      (ts : List (Turn DB)) (m : Manager DB)
      → All (Respects I) ts
      → I m
      → I (allocate_loop driver deadline waits capability ports ttl ts m).1
  unfolding allocate_loop
  allocate_loop-keeps deadline waits capability ports ttl [] m rs h = h
  allocate_loop-keeps deadline waits capability ports ttl (t ∷ ts) m rs h =
      elim (Bool-cases (not (is_exhausted (attempt t m).0) || not waits)) [
        | inl ends ↦ rw (ends, allocate_loop) (kept t m (rs.0 m h))
        | inr full ↦ elim (Bool-cases (after t.checked deadline)) [
          | inl past ↦ rw (full, past, allocate_loop) (kept t m (rs.0 m h))
          | inr early ↦ elim (Wake-cases t.wake) [
            | inl changed ↦
                rw (full, early, changed, allocate_loop)
                  (allocate_loop-keeps deadline waits capability ports ttl ts (attempt t m).1 rs.1
                    (kept t m (rs.0 m h)))
            | inr (inl fired) ↦ rw (full, early, fired, allocate_loop) (kept t m (rs.0 m h))
            | inr (inr (x, gone)) ↦ rw (full, early, gone, allocate_loop) (kept t m (rs.0 m h))
          ]
        ]
      ]
    where
      attempt : Turn DB → Manager DB → Result Lease × Manager DB
      attempt t m = allocate_once driver t.free t.now t.random capability ports ttl (t.meanwhile m)

      kept : (t : Turn DB) (m : Manager DB) → I (t.meanwhile m) → I (attempt t m).1
      kept t m =
          allocate_once-keeps driver parse_ip sha256 I invariant t.free t.now t.random capability
            ports ttl (t.meanwhile m)

  pub allocate-keeps :
      (start : Time) (capability : Capability) (ports : List ℤ) (ttl wait : Duration)
      (ts : List (Turn DB)) (m : Manager DB)
      → All (Respects I) ts
      → I m
      → I (allocate driver start capability ports ttl wait ts m).1
  unfolding allocate
  allocate-keeps start capability ports ttl wait ts m rs h =
      elim (Result-cases (check_request m.config ports (effective_ttl m.config ttl))) [
        | inl (u, goes) ↦
            rw (goes, allocate)
              (allocate_loop-keeps (add start wait) (ltb_ℤ (pos 0) wait) capability ports
                (effective_ttl m.config ttl) ts m rs h)
        | inr (x, fails) ↦ rw (fails, allocate) h
      ]

-- `Allocate`, however long it waits and whatever it returns, leaves no host port held twice and no
-- identifier used twice, if this was so before and if what the other calls do between its turns
-- keeps it so.
pub allocate-IsSound :
    (driver : Driver) (laws : Lawful driver) (start : Time) (capability : Capability)
    (ports : List ℤ) (ttl wait : Duration) (ts : List (Turn driver.DB)) (m : Manager driver.DB)
    → All (Respects (Sound driver laws)) ts
    → IsSound (laws.lease_rows m.store)
    → IsSound (laws.lease_rows (allocate driver start capability ports ttl wait ts m).1.store)
allocate-IsSound driver laws =
    allocate-keeps driver (λ s. true) (λ s. []) (Sound driver laws)
      (Sound-IsInvariant driver laws (λ s. true) (λ s. []))
