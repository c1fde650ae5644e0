-- ===== src/Resource/Manager/Allocation/Hosts.antt =====
-- The host ports of a pool: which can be bound, how they are given out, and what is bound then.
use llama_stack.Base.{
  ℕ, zero, suc, ◌≤◌, ◌<◌, ◌≡◌, refl, ap, Bool, true, false, not, ◌&&◌, ◌||◌, List, [], ◌∷◌, arith,
  ◌==◌, if◌then◌else◌, any, length, drop, All,
}
use llama_stack.Base.Int.{ℤ}
use llama_stack.Resource.Types.{Port}
use llama_stack.Resource.Store.{LeaseRecord}
use llama_stack.Resource.Manager.{put}
use llama_stack.Resource.Manager.Allocation.{is_used}

-- The host ports from `host_port` on that pass a test, among `left` many.
abbrev pub available : (ℕ → Bool) → (left host_port : ℕ) → List ℕ
available b zero host_port = []
available b (suc left) host_port =
    if b host_port
    then host_port ∷ available b left (suc host_port)
    else available b left (suc host_port)

-- Host ports for target ports, in order, as long as both last.
abbrev pub assign : List ℕ → List ℤ → List Port
assign (h ∷ hs) (t ∷ ts) = record { host_port = h; target_port = t } ∷ assign hs ts
assign [] ts = []
assign (h ∷ hs) [] = []

pub assign-nil : (hs : List ℕ) → assign hs [] ≡ []
assign-nil [] = refl
assign-nil (h ∷ hs) = refl

pub drop-nil : {A : Type 0} (n : ℕ) → drop {A = A} n [] ≡ []
drop-nil zero = refl
drop-nil (suc n) = refl

abbrev pub has_host : ℕ → List Port → Bool
has_host q = any (λ p. p.host_port == q)

-- What holds of every host port of a list.
pub All-has_host :
    (P : ℕ → Type 0) (ps : List Port)
    → ((q : ℕ) → has_host q ps ≡ true → P q)
    → All (λ p. P p.host_port) ps
All-has_host P [] h = tt
All-has_host P (p ∷ ps) h =
    (h p.host_port (ground arith), All-has_host P ps (λ q e. h q (ground arith)))

-- The bound ports once those of a list are bound too.
abbrev pub bind_all : List Port → (ℕ → Bool) → ℕ → Bool
bind_all [] f = f
bind_all (p ∷ ps) f = bind_all ps (put p.host_port true f)

pub bind_all_lem : (ps : List Port) (f : ℕ → Bool) (q : ℕ) → bind_all ps f q ≡ has_host q ps || f q
bind_all_lem [] f q = refl
bind_all_lem (p ∷ ps) f q = ground (arith, bind_all_lem ps (put p.host_port true f) q)

-- What is assigned passes the test.
pub has_host-available :
    (b : ℕ → Bool) (n h : ℕ) (ts : List ℤ) (q : ℕ)
    → has_host q (assign (available b n h) ts) ≡ true
    → b q ≡ true
has_host-available b zero h ts q e = cc
has_host-available b (suc n) h [] q e =
    absurd (cc (ap (has_host q) (assign-nil (available b (suc n) h))))
has_host-available b (suc n) h (t ∷ ts) q e =
    ground (arith, has_host-available b n (suc h) ts q, has_host-available b n (suc h) (t ∷ ts) q)

abbrev pub unbind_all : List Port → (ℕ → Bool) → ℕ → Bool
unbind_all [] f = f
unbind_all (p ∷ ps) f = unbind_all ps (put p.host_port false f)

pub unbind_all_lem :
    (ps : List Port) (f : ℕ → Bool) (q : ℕ) → unbind_all ps f q ≡ not (has_host q ps) && f q
unbind_all_lem [] f q = refl
unbind_all_lem (p ∷ ps) f q = ground (arith, unbind_all_lem ps (put p.host_port false f) q)

pub drop_all : {A : Type 0} (n : ℕ) (xs : List A) → length xs ≤ n → drop n xs ≡ []
drop_all zero [] h = refl
drop_all zero (x ∷ xs) h = absurd (omega arith)
drop_all (suc n) [] h = refl
drop_all (suc n) (x ∷ xs) h = drop_all n xs (omega arith)

pub drop_some :
    {A : Type 0} (n : ℕ) (xs : List A)
    → n < length xs
    → (x : A) × (rest : List A) × (drop n xs ≡ x ∷ rest)
drop_some zero [] h = absurd (omega arith)
drop_some zero (x ∷ xs) h = (x, xs, refl)
drop_some (suc n) [] h = absurd (omega arith)
drop_some (suc n) (x ∷ xs) h = drop_some n xs (omega arith)

pub put_ne {ℓ} : {A : Type ℓ} (k : ℕ) (a : A) (f : ℕ → A) (j : ℕ) → k < j → put k a f j ≡ f j
put_ne k a f j h = ground arith

-- No lease of the list uses the port, and `net.Listen` can bind it.
abbrev pub can_bind : (ℕ → Bool) → List LeaseRecord → (ℕ → Bool) → ℕ → Bool
can_bind free active listening q = not (is_used active q) && (free q && not (listening q))
