-- ===== src/Resource/Proxy.antt =====
-- internal/resource/proxy.go: one forwarded port. A connection is named by a number, and
-- `sockets` says which client sockets are open. What is copied is not modelled.
pub mod Connections
mod Tests
use llama_stack.Base.{ℕ, Bool, true, false, not, ◌&&◌, String, ◌==◌, if◌then◌else◌}

pub record Proxy : Type 0 where
  pub target : String
  pub listener_open : Bool
  pub closed : Bool
  pub connections : ℕ → Bool
  pub sockets : ℕ → Bool

abbrev pub switch : ℕ → Bool → (ℕ → Bool) → ℕ → Bool
switch c b f d = if c == d then b else f d

unfoldable pub new_proxy : String → Proxy
new_proxy target = record {
  target = target;
  listener_open = true;
  closed = false;
  connections = λ c. false;
  sockets = λ c. false;
}

-- The locked part of a turn of `serve`, for a client that `Accept` returned; `false` ends the loop.
pub register : ℕ → Proxy → Proxy × Bool
register client p =
    if p.closed
    then (record p { sockets = switch client false p.sockets }, false)
    else (record p { connections = switch client true p.connections }, true)

-- The deferred part of `forward`.
pub finish : ℕ → Proxy → Proxy
finish client p = record p {
  sockets = switch client false p.sockets;
  connections = switch client false p.connections;
}

unfoldable pub close : Proxy → Proxy
close p = record p {
  closed = true;
  listener_open = false;
  sockets = λ c. p.sockets c && not (p.connections c);
}
