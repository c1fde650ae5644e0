-- ===== src/Resource/Proxy/Tests.antt =====
-- The theorem on closed proxies, applied to one run of the goroutines.
use llama_stack.Base.{◌≡◌, refl, true, false, none}
use llama_stack.Resource.Proxy
use llama_stack.Resource.Proxy.{Proxy, new_proxy, register, switch}
use llama_stack.Resource.Proxy.Connections.{
  Reached, starts, goes, accepts, registers, closes, Reached-closed,
}

abbrev fresh : Proxy
fresh = new_proxy "10.0.0.2:80"

abbrev accepted : Proxy
accepted = record fresh { sockets = switch 7 true fresh.sockets }

abbrev served : Proxy
served = (register 7 accepted).0

abbrev shut : Proxy
shut = Proxy.close served

listens : fresh.listener_open ≡ true
unfolding new_proxy
listens = refl

shut_run : Reached "10.0.0.2:80" shut none
shut_run =
    goes (goes (goes starts (accepts 7 fresh listens)) (registers 7 accepted)) (closes served none)

is_shut : shut.closed ≡ true
unfolding Proxy.close
is_shut = refl

Reached-closed_example : (shut.listener_open ≡ false) × (shut.sockets 7 ≡ false)
Reached-closed_example = Reached-closed "10.0.0.2:80" shut none 7 shut_run is_shut refl
