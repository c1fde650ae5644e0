-- ===== src/Resource/Proxy/Connections.antt =====
-- The goroutines of internal/resource/proxy.go: `serve`, the `forward` of each client, and
-- `close`, in any interleaving of their locked sections.
use llama_stack.Base.{
  ℕ, ◌≡◌, refl, Bool, true, false, not, ◌&&◌, ◌||◌, Option, none, some, String, arith, ◌==◌,
  Bool-cases, inl, inr,
}
use llama_stack.Resource.Proxy
use llama_stack.Resource.Proxy.{Proxy, switch, new_proxy, register, finish}

abbrev pub waits_as : Option ℕ → ℕ → Bool
waits_as none c = false
waits_as (some d) c = d == c

-- What the goroutines do to a proxy and to the client that `Accept` has returned but that `serve`
-- has not looked at yet. The listener accepts while it is open; `forward` of a registered client
-- may end at any time.
pub data Step : Proxy → Option ℕ → Proxy → Option ℕ → Type 0 where
  accepts :
      (client : ℕ) (p : Proxy)
      → p.listener_open ≡ true
      → Step p none (record p { sockets = switch client true p.sockets }) (some client)
  registers : (client : ℕ) (p : Proxy) → Step p (some client) (register client p).0 none
  finishes :
      (client : ℕ) (p : Proxy) (pending : Option ℕ)
      → p.connections client ≡ true
      → Step p pending (finish client p) pending
  closes : (p : Proxy) (pending : Option ℕ) → Step p pending (Proxy.close p) pending

pub data Reached (target : String) : Proxy → Option ℕ → Type 0 where
  starts : Reached target (new_proxy target) none
  goes :
      {p : Proxy} {pending : Option ℕ} {p' : Proxy} {pending' : Option ℕ}
      → Reached target p pending
      → Step p pending p' pending'
      → Reached target p' pending'

-- Every open socket is the pending client's or, while the proxy is not closed, a registered one's;
-- a closed proxy does not listen.
record Tracked (p : Proxy) (pending : Option ℕ) : Type 0 where
  socket :
      (c : ℕ)
      → not (p.sockets c) || (waits_as pending c || (not p.closed && p.connections c)) ≡ true
  quiet : not (p.closed && p.listener_open) ≡ true

step-Tracked :
    (p : Proxy) (pending : Option ℕ) (p' : Proxy) (pending' : Option ℕ)
    → Step p pending p' pending'
    → Tracked p pending
    → Tracked p' pending'
unfolding register finish Proxy.close
step-Tracked _ _ _ _ (accepts client p l) h = record {
  socket = λ c. ground (arith, h.socket c);
  quiet = h.quiet;
}
step-Tracked _ _ _ _ (registers client p) h = elim (Bool-cases p.closed) [
  | inl e ↦
      rw (e, register)
        (record { socket = λ c. ground (arith, h.socket c); quiet = ground (arith, h.quiet) })
  | inr e ↦
      rw (e, register)
        (record { socket = λ c. ground (arith, h.socket c); quiet = ground (arith, h.quiet) })
]
step-Tracked _ _ _ _ (finishes client p none r) h = record {
  socket = λ c. ground (arith, h.socket c);
  quiet = h.quiet;
}
step-Tracked _ _ _ _ (finishes client p (some d) r) h = record {
  socket = λ c. ground (arith, h.socket c);
  quiet = h.quiet;
}
step-Tracked _ _ _ _ (closes p none) h = record {
  socket = λ c. ground (arith, h.socket c);
  quiet = refl;
}
step-Tracked _ _ _ _ (closes p (some d)) h = record {
  socket = λ c. ground (arith, h.socket c);
  quiet = refl;
}

Reached-Tracked :
    (target : String) (p : Proxy) (pending : Option ℕ)
    → Reached target p pending
    → Tracked p pending
unfolding new_proxy
Reached-Tracked target _ _ starts = record { socket = λ c. refl; quiet = refl }
Reached-Tracked target _ _ (goes {p} {pending} {p'} {pending'} r s) =
    step-Tracked p pending p' pending' s (Reached-Tracked target p pending r)

-- However the goroutines of a proxy interleave, once it is closed it does not listen, and no
-- client's socket is open but the one that `Accept` had returned and `serve` is about to close.
pub Reached-closed :
    (target : String) (p : Proxy) (pending : Option ℕ) (c : ℕ)
    → Reached target p pending
    → p.closed ≡ true
    → waits_as pending c ≡ false
    → (p.listener_open ≡ false) × (p.sockets c ≡ false)
Reached-closed target p pending c r closed other =
    let t = Reached-Tracked target p pending r in
    (ground (arith, t.quiet), ground (arith, t.socket c))
