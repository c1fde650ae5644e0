-- ===== src/Resource/Manager/Allocation/Undone.antt =====
-- What a failed `allocateOnce` leaves behind.
use llama_stack.Base.{
  ℕ, ◌≡◌, refl, sym, ap, ◌∙◌, Bool, List, Result, ok, err, Failure, length, inl, inr, ◌⊎◌, le_or_lt,
}
use llama_stack.Base.Actions.{bind_cases, lift_cases, clean_up}
use llama_stack.Base.Int.{ℤ}
use llama_stack.Resource.Types.{Capability, Lease, Port, Time, Duration}
use llama_stack.Resource.Store.{Driver, LeaseRecord, insert_lease}
use llama_stack.Resource.Manager.{
  Manager, Random, query_cases, exec_then_cases, modify, close_listeners, remove_expired_locked,
}
use llama_stack.Resource.Manager.Allocation.{reserve_listeners, commit_lease, allocate_once}
use llama_stack.Resource.Manager.Allocation.Success.{reserved}
use llama_stack.Resource.Manager.Allocation.FirstFit.{
  pool, pool-unbound, close_listeners-bound, reserve_listeners-outcomes,
}

module _ {DB : Type 0} (free : ℕ → Bool) (targets : List ℤ) (active : List LeaseRecord)
    (m : Manager DB) where
  reserve_failed :
      {e : Failure} {t : Manager DB} → reserve_listeners free targets active m ≡ (err e, t) → t ≡ m
  reserve_failed p = elim (le_or_lt (length targets) (length (pool free active m))) [
    | inl enough ↦
        absurd (
          cc
            (ap (λ y. y.0) (sym ((reserve_listeners-outcomes free targets active m).0 enough) ∙ p)))
    | inr short ↦ ap (λ y. y.1) (sym p ∙ (reserve_listeners-outcomes free targets active m).1 short)
  ]

  -- Closing the listeners of a reservation undoes it.
  undone :
      {ports : List Port} {t : Manager DB}
      → reserve_listeners free targets active m ≡ (ok ports, t)
      → close_listeners ports t ≡ m
  undone took =
      let (enough, same, same_state) = reserved free targets active m took in
      (λ i. close_listeners (sym same i) (sym same_state i))
      ∙ close_listeners-bound _ m (pool-unbound free targets active m)

-- The state of a result that is a failure.
abbrev Failing : {S A : Type 0} → (S → Type 0) → Result A × S → Type 0
Failing I x = (e : Failure) → x.0 ≡ err e → I x.1

Failing-clean_up :
    {S A : Type 0} (I : S → Type 0) (cleanup : S → S) (x : Result A × S)
    → Failing (λ s. I (cleanup s)) x
    → Failing I (clean_up cleanup x)
Failing-clean_up I cleanup (ok a, s) h e p = absurd (cc p)
Failing-clean_up I cleanup (err e', s) h e p = h e p

module _ (driver : Driver) (free : ℕ → Bool) (now : Time) (random : Random)
    (capability : Capability) (targets : List ℤ) (ttl : Duration) where
  open driver use {DB}

  -- Behind the reservation nothing has happened before the failure.
  commit_failed :
      (ports : List Port) (m : Manager DB)
      → Failing (λ s. s ≡ m) (commit_lease driver now random capability ttl ports m)
  unfolding commit_lease
  commit_failed ports m =
      lift_cases P _ _ m (λ _ _ _ _. refl)
        λ id _.
          exec_then_cases P (insert_lease driver _ _) _ m (λ _ _ _ _. refl)
            λ db _.
              bind_cases P (modify _) _ (record m { store = db })
                (λ _ _ q. absurd (cc (ap (λ y. y.0) q))) λ _ _ _ _ p. absurd (cc p)
    where
      P : Result Lease × Manager DB → Type 0
      P = Failing (λ s. s ≡ m)

-- A failed `allocateOnce` leaves the manager as it was, or as sweeping the expired records leaves
-- it: no listener, proxy or lease of the attempt is left.
pub allocate_once-failed :
    (driver : Driver) (free : ℕ → Bool) (now : Time) (random : Random) (capability : Capability)
    (targets : List ℤ) (ttl : Duration) (m : Manager driver.DB) (e : Failure)
    → (allocate_once driver free now random capability targets ttl m).0 ≡ err e
    → ((allocate_once driver free now random capability targets ttl m).1 ≡ m)
      ⊎ ((allocate_once driver free now random capability targets ttl m).1
          ≡ (remove_expired_locked driver now m).1)
unfolding allocate_once
allocate_once-failed driver free now random capability targets ttl m =
    query_cases P _ _ m (λ _ _ _ _. inl refl)
      λ _ _.
        bind_cases P (remove_expired_locked driver now) _ m
          (λ _ s p _ _. inr (ap (λ y. y.1) (sym p)))
          λ _ s p.
            let swept : s ≡ (remove_expired_locked driver now m).1 = ap (λ y. y.1) (sym p) in
            query_cases P _ _ s (λ _ _ _ _. inr swept)
              λ active _.
                lift_cases P _ _ s (λ _ _ _ _. inr swept)
                  λ _ _.
                    bind_cases P (reserve_listeners free targets active) _ s
                      (λ _ t q _ _. inr (reserve_failed free targets active s q ∙ swept))
                      λ ports t q. Failing-clean_up Ends (close_listeners ports) _ λ x r. inr (
                        ap (close_listeners ports)
                          (commit_failed driver free now random capability targets ttl ports t x r)
                        ∙ undone free targets active s q
                        ∙ swept)
  where
    Ends : Manager driver.DB → Type 0
    Ends s = (s ≡ m) ⊎ (s ≡ (remove_expired_locked driver now m).1)

    P : Result Lease × Manager driver.DB → Type 0
    P = Failing Ends
