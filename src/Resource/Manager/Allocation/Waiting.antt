-- ===== src/Resource/Manager/Allocation/Waiting.antt =====
-- How long `Allocate` of internal/resource/manager.go waits.
use llama_stack.Base.{
  ◌≡◌, ◌⊎◌, Result-cases, refl, Bool, false, not, ◌||◌, none, List, [], ◌∷◌, Result, Failure, All,
  Bool-cases, inl, inr,
}
use llama_stack.Base.Int.{ℤ, pos, ltb_ℤ}
use llama_stack.Resource.Types.{Capability, Time, Duration, add, after, Lease}
use llama_stack.Resource.Store.{Driver}
use llama_stack.Resource.Manager.{Manager}
use llama_stack.Resource.Manager.Allocation.{
  Turn, Wake, ctx_done, timer_fired, changed_closed, is_exhausted, allocate_loop, allocate_once,
  allocate, effective_ttl, check_request,
}

-- A turn that ends with a change in the pool, before the deadline.
abbrev pub Waits : {DB : Type 0} → Time → Turn DB → Type 0
Waits deadline t = (after t.checked deadline ≡ false) × (t.wake ≡ changed_closed)

pub Wake-cases :
    (w : Wake) → (w ≡ changed_closed) ⊎ (w ≡ timer_fired) ⊎ ((e : Failure) × (w ≡ ctx_done e))
Wake-cases (ctx_done e) = inr (inr (e, refl))
Wake-cases timer_fired = inr (inl refl)
Wake-cases changed_closed = inl refl

module _ (driver : Driver) (deadline : Time) (waits : Bool) (capability : Capability)
    (ports : List ℤ) (ttl : Duration) where
  open driver use {DB}

  waiting :
      (ts : List (Turn DB)) (m : Manager DB)
      → (allocate_loop driver deadline waits capability ports ttl ts m).0 ≡ none
      → All (Waits deadline) ts
  unfolding allocate_loop
  waiting [] m e = tt
  waiting (t ∷ ts) m e = elim (Bool-cases (not (is_exhausted (attempt t m).0) || not waits)) [
    | inl ends ↦ absurd (cc (rw (ends, allocate_loop) at e))
    | inr full ↦ elim (Bool-cases (after t.checked deadline)) [
      | inl past ↦ absurd (cc (rw (full, past, allocate_loop) at e))
      | inr early ↦ elim (Wake-cases t.wake) [
        | inl changed ↦ (
          (early, changed),
          waiting ts (attempt t m).1 (rw (full, early, changed, allocate_loop) at e),
        )
        | inr (inl fired) ↦ absurd (cc (rw (full, early, fired, allocate_loop) at e))
        | inr (inr (x, gone)) ↦ absurd (cc (rw (full, early, gone, allocate_loop) at e))
      ]
    ]
  ]
    where
      attempt : Turn DB → Manager DB → Result Lease × Manager DB
      attempt t m = allocate_once driver t.free t.now t.random capability ports ttl (t.meanwhile m)

-- A call of `Allocate` waits no longer than its turns give it reason to: if it has not returned,
-- then each of its turns read the clock before the deadline and was ended by a change of the
-- pool. So it returns at the first turn behind the deadline, and when its context ends.
pub allocate-Waits :
    (driver : Driver) (start : Time) (capability : Capability) (ports : List ℤ)
    (ttl wait : Duration) (ts : List (Turn driver.DB)) (m : Manager driver.DB)
    → (allocate driver start capability ports ttl wait ts m).0 ≡ none
    → All (Waits (add start wait)) ts
unfolding allocate
allocate-Waits driver start capability ports ttl wait ts m e =
    elim (Result-cases (check_request m.config ports (effective_ttl m.config ttl))) [
      | inl (u, goes) ↦
          waiting driver (add start wait) (ltb_ℤ (pos 0) wait) capability ports
            (effective_ttl m.config ttl) ts m (rw (goes, allocate) at e)
      | inr (x, fails) ↦ absurd (cc (rw (fails, allocate) at e))
    ]
