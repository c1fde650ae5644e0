-- ===== src/Mcp/ResourceTools.antt =====
-- The tools of cmd/llama-stack-resource-mcp/main.go.
use llama_stack.Base.{Bool, true, List, String, Result, ok, err, message, if◌then◌else◌, str_eq}
use llama_stack.Base.Actions.{Action, ◌>>=◌, done}
use llama_stack.Base.Int.{ℤ}
use llama_stack.Resource.Types.{Lease}
use llama_stack.ResourceApi.Client as Api
use llama_stack.ResourceApi.Client.{Client, Request, Reply}

pub record AllocateInput : Type 0 where
  pub target_ports : List ℤ
  pub ttl_seconds : ℤ
  pub wait_seconds : ℤ

pub record RenewInput : Type 0 where
  pub lease_id : String
  pub ttl_seconds : ℤ

-- The settings of `run`: the capability's token is required.
unfoldable pub client_of :
    {S : Type 0} → (Request → Action S Reply) → (url token : String) → Result (Client S)
client_of send url token =
    if str_eq token ""
    then err (message "LLAMA_STACK_CAPABILITY_TOKEN is required")
    else ok (record {
      base_url = if str_eq url "" then "http://127.0.0.1:8090" else url;
      admin_token = "";
      capability_token = token;
      send = send;
    })

module _ {S : Type 0} (client : Client S) where
  unfoldable pub port_allocate : AllocateInput → Action S Lease
  unfolding Api.allocate
  port_allocate input = Api.allocate client (record {
    target_ports = input.target_ports;
    ttl_seconds = input.ttl_seconds;
    wait_seconds = input.wait_seconds;
  })

  unfoldable pub port_list : Action S (List Lease)
  unfolding Api.list
  port_list = Api.list client

  unfoldable pub port_renew : RenewInput → Action S Lease
  unfolding Api.renew
  port_renew input = Api.renew client input.lease_id input.ttl_seconds

  unfoldable pub port_release : String → Action S Bool
  unfolding Api.release ◌>>=◌
  port_release lease_id = do _ ← Api.release client lease_id; done true
