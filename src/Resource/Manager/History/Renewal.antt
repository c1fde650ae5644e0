-- ===== src/Resource/Manager/History/Renewal.antt =====
-- The stored leases of internal/resource/manager.go behind `Renew`.
use text.Mathlib.TextPositions.{eq_refl}
use llama_stack.Base.{ℕ, ◌≡◌, refl, String, Result, ok, arith, total}
use llama_stack.Base.Actions.{lift_cases}
use llama_stack.Base.Weights.{indicator, total-replace}
use llama_stack.Resource.Types.{Capability, Time, Duration}
use llama_stack.Resource.Store.{Driver, LeaseRecord, lease_by_id, update_lease}
use llama_stack.Resource.Store.Laws.{has_key, Lawful}
use llama_stack.Resource.Manager.{Manager, query_cases, exec_then_cases}
use llama_stack.Resource.Manager.Exclusive.{IsSound, times}
use llama_stack.Resource.Manager.Operations.{renew}
use llama_stack.Resource.Manager.History.Lookup.{lease_by_id-found}

module _ (driver : Driver) (laws : Lawful driver) where
  open driver use {DB}
  open laws use {lease_rows}

  -- A weight that does not read `expires_at` has the same sum after the update.
  pub total-update_lease :
      (k : String) (r : LeaseRecord) (t : Time) (db db' : DB)
      → IsSound (lease_rows db)
      → lease_by_id driver k db ≡ ok r
      → update_lease driver (record r { expires_at = t }) db ≡ ok db'
      → (w : LeaseRecord → ℕ) → w (record r { expires_at = t }) ≡ w r
      → total w (lease_rows db') ≡ total w (lease_rows db)
  unfolding update_lease
  total-update_lease k r t db db' sound found stored w same = omega (
    arith,
    laws.lease_laws.update_lem _ db db' stored w,
    total-replace (has_key (λ x. x.id) r.id) w (record r { expires_at = t }) {old = r}
        (lease_rows db) (sound.keyed r.id) (eq_refl r.id)
        (lease_by_id-found driver laws k db r found).1,
  )

  pub renew-IsSound :
      (capability : Capability) (lease_id : String) (ttl : Duration) (now now' now'' : Time)
      (m : Manager DB)
      → IsSound (lease_rows m.store)
      → IsSound (lease_rows (renew driver capability lease_id ttl now now' now'' m).1.store)
  unfolding renew
  renew-IsSound capability lease_id ttl now now' now'' m v =
      lift_cases P _ _ m (λ _ _. v)
        λ _ _.
          query_cases P _ _ m (λ _ _. v)
            λ _ _.
              query_cases P (lease_by_id driver lease_id) _ m (λ _ _. v)
                λ r found.
                  lift_cases P _ _ m (λ _ _. v)
                    λ _ _.
                      exec_then_cases P (update_lease driver _) _ m (λ _ _. v)
                        λ db stored. record {
                          exclusive = λ q. omega (
                            arith,
                            total-update_lease lease_id r _ m.store db v found stored
                                (λ x. times q x.ports) refl,
                            v.exclusive q,
                          );
                          keyed = λ k. omega (
                            arith,
                            total-update_lease lease_id r _ m.store db v found stored
                                (indicator (has_key (λ x. x.id) k)) refl,
                            v.keyed k,
                          );
                        }
    where
      P : {A : Type 0} → Result A × Manager DB → Type 0
      P x = IsSound (lease_rows x.1.store)
