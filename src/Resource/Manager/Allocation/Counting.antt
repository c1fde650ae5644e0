-- ===== src/Resource/Manager/Allocation/Counting.antt =====
-- Counting the ports that an allocation gives out, and those that leases hold.

use llama_stack.Base.{
  ℕ, zero, suc, ◌+◌, ◌≤◌, ◌<◌, ◌≡◌, refl, ap, Bool, true, false, List, [], ◌∷◌, map, String, inl,
  inr, Bool-cases, ok, arith, length, total, All, ◌==◌,
}
use llama_stack.Base.Int.{ℤ}
use llama_stack.Base.Weights.{total-any}
use llama_stack.Resource.Types.{Config, Capability, Port}
use llama_stack.Resource.Store.{LeaseRecord}
use llama_stack.Resource.Manager.{Manager, install_proxy}
use llama_stack.Resource.Manager.Exclusive.{times, holders}
use llama_stack.Resource.Manager.Allocation.{
  is_used, check_limits, ports_of_run, ports_of_user, install_proxies,
}
use llama_stack.Resource.Manager.Allocation.Hosts.{available, assign, assign-nil, has_host}

pub install_proxies-store :
    {DB : Type 0} (host : String) (ps : List Port) (m : Manager DB)
    → (install_proxies host ps m).store ≡ m.store
unfolding install_proxies install_proxy
install_proxies-store host [] m = refl
install_proxies-store host (p ∷ ps) m = install_proxies-store host ps _

pub times_of_not-has_host : (q : ℕ) (ps : List Port) → has_host q ps ≡ false → times q ps ≡ 0
times_of_not-has_host q ps = total-any (λ p. p.host_port == q) _ ps (λ p e. rw e)

pub holders_of_not-is_used :
    (active : List LeaseRecord) (q : ℕ) → is_used active q ≡ false → holders q active ≡ 0
unfolding is_used
holders_of_not-is_used active q =
    total-any (λ r. has_host q r.ports) _ active (λ r. times_of_not-has_host q r.ports)

-- What is given out has each host port once, from the pool on.
pub times-available_below :
    (b : ℕ → Bool) (n h : ℕ) (ts : List ℤ) (q : ℕ)
    → q < h
    → times q (assign (available b n h) ts) ≡ 0
times-available_below b zero h ts q l = refl
times-available_below b (suc n) h [] q l = rw (assign-nil (available b (suc n) h))
times-available_below b (suc n) h (t ∷ ts) q l =
    ground
      (arith, times-available_below b n (suc h) ts q, times-available_below b n (suc h) (t ∷ ts) q)

pub times-available-le :
    (b : ℕ → Bool) (n h : ℕ) (ts : List ℤ) (q : ℕ) → times q (assign (available b n h) ts) ≤ 1
times-available-le b zero h ts q = omega arith
times-available-le b (suc n) h [] q = rw (assign-nil (available b (suc n) h)) (omega arith)
times-available-le b (suc n) h (t ∷ ts) q = ground (
  arith,
  times-available_below b n (suc h) ts q,
  times-available-le b n (suc h) ts q,
  times-available-le b n (suc h) (t ∷ ts) q,
)

pub times_of_has_host : (q : ℕ) (ps : List Port) → has_host q ps ≡ true → 1 ≤ times q ps
times_of_has_host q [] e = absurd (cc e)
times_of_has_host q (p ∷ ps) e = ground (arith, times_of_has_host q ps)

pub targets-assign :
    (hs : List ℕ) (ts : List ℤ)
    → length ts ≤ length hs
    → map (λ p. p.target_port) (assign hs ts) ≡ ts
targets-assign [] [] l = refl
targets-assign [] (t ∷ ts) l = absurd (omega arith)
targets-assign (h ∷ hs) [] l = refl
targets-assign (h ∷ hs) (t ∷ ts) l = ap (◌∷◌ t) (targets-assign hs ts (omega arith))

pub length-assign :
    (hs : List ℕ) (ts : List ℤ) → length ts ≤ length hs → length (assign hs ts) ≡ length ts
length-assign [] [] l = refl
length-assign [] (t ∷ ts) l = absurd (omega arith)
length-assign (h ∷ hs) [] l = refl
length-assign (h ∷ hs) (t ∷ ts) l = ap suc (length-assign hs ts (omega arith))

abbrev pub InRange : ℕ → ℕ → List Port → Type 0
InRange lo hi = All (λ p. (lo ≤ p.host_port) × (p.host_port < hi))

pub InRange-weaken :
    (lo lo' hi : ℕ) (ps : List Port) → lo ≤ lo' → InRange lo' hi ps → InRange lo hi ps
InRange-weaken lo lo' hi [] l h = tt
InRange-weaken lo lo' hi (p ∷ ps) l h =
    ((omega arith, omega arith), InRange-weaken lo lo' hi ps l h.1)

pub assign-InRange :
    (b : ℕ → Bool) (n h hi : ℕ) (ts : List ℤ)
    → h + n ≤ hi
    → InRange h hi (assign (available b n h) ts)
assign-InRange b zero h hi ts l = tt
assign-InRange b (suc n) h hi [] l = rw (assign-nil (available b (suc n) h)) tt
assign-InRange b (suc n) h hi (t ∷ ts) l = elim (Bool-cases (b h)) [
  | inl e ↦ rw e (
    (omega arith, omega arith),
    InRange-weaken h (suc h) hi _ (omega arith) (assign-InRange b n (suc h) hi ts (omega arith)),
  )
  | inr e ↦ rw e (
      InRange-weaken h (suc h) hi _ (omega arith)
        (assign-InRange b n (suc h) hi (t ∷ ts) (omega arith)))
]

pub check_limits-ok :
    (config : Config) (capability : Capability) (requested : ℕ) (active : List LeaseRecord)
    → check_limits config capability requested active ≡ ok tt
    → (total (ports_of_run capability.user_id capability.run_id) active + requested
        ≤ config.maximum_run)
      × (total (ports_of_user capability.user_id) active + requested ≤ config.maximum_user)
unfolding check_limits
check_limits-ok config capability requested active e = ground arith
