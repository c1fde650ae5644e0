-- ===== src/Command/Resources.antt =====
-- The subcommand `resource` of cmd/llama-stack/main.go, over the client of the daemon.
use Prim.Native.String.{◌++◌}
use llama_stack.Base.{ℕ, none, some, List, String, message, if◌then◌else◌}
use llama_stack.Base.Actions.{◌>>=◌, ◌>>◌, done, fail, lift}
use llama_stack.Base.Int.{ℤ, pos}
use llama_stack.Base.Text.{trim_space, itoa}
use llama_stack.Config.{Config}
use llama_stack.Resource.Types.{Capability, Lease}
use llama_stack.ResourceApi.Client as Api
use llama_stack.ResourceApi.Client.{Client, Request, Reply}
use llama_stack.System.{System, Io, read_file}
use llama_stack.Command.Options.{
  World, CapabilityOptions, CapabilityIssueOptions, PortOptions, ResourceOptions, admitted,
}

-- What the subcommand prints.
pub data Printed : Type 0 where
  nothing_printed : Printed
  capability_printed : String → Capability → Printed
  leases_printed : List Lease → Printed

abbrev pub effective_ttl : Config → ℤ → ℤ
effective_ttl cfg (pos ℕ.zero) = cfg.ports.maximum_ttl
effective_ttl cfg n = n

module _ (send : Request → Io Reply) where
  -- `administratorClient`.
  unfoldable pub administrator_client : Config → Io (Client System)
  unfolding read_file itoa trim_space ◌>>=◌
  administrator_client cfg = do
    token ← read_file cfg.ports.admin_token_file
    done (record {
      base_url = "http://" ++ cfg.orchestrator.host ++ ":" ++ itoa cfg.orchestrator.port;
      admin_token = trim_space token;
      capability_token = "";
      send = send;
    })

  abbrev pub issue : Config → CapabilityIssueOptions → Io Printed
  issue cfg options = do
    client ← administrator_client cfg
    (token, capability) ← Api.issue_capability client (record {
      user_id = options.user;
      run_id = options.run;
      workspace_id = options.workspace;
      target_host = options.target_host;
      ttl_seconds = effective_ttl cfg options.ttl;
    })
    done (capability_printed token capability)

  abbrev pub revoke : Config → String → Io Printed
  revoke cfg id = do
    client ← administrator_client cfg
    Api.revoke_capability client id
    done nothing_printed

  -- `runCapability`.
  unfoldable pub run_capability : Config → CapabilityOptions → Io Printed
  unfolding administrator_client Api.issue_capability Api.revoke_capability ◌>>=◌
  run_capability cfg options = elim options.revoke [
    | some id ↦ revoke cfg id
    | none ↦ elim options.issue [
      | none ↦ fail (message "resource capability requires issue or revoke")
      | some o ↦ issue cfg o
    ]
  ]

  abbrev list_ports : Client System → Io Printed
  list_ports client = do leases ← Api.list_all client; done (leases_printed leases)

  abbrev revoke_port : Client System → String → Io Printed
  revoke_port client id = do Api.revoke client id; done nothing_printed

  abbrev pub port_command : Client System → PortOptions → Io Printed
  port_command client options = if options.list then list_ports client else elim options.revoke [
    | some id ↦ revoke_port client id
    | none ↦ fail (message "resource ports requires list or revoke")
  ]

  -- `runResourcePorts`.
  unfoldable pub run_resource_ports : Config → PortOptions → Io Printed
  unfolding administrator_client Api.list_all Api.revoke ◌>>=◌
  run_resource_ports cfg options = do client ← administrator_client cfg; port_command client options

  abbrev pub resource_command : Config → ResourceOptions → Io Printed
  resource_command cfg options = elim options.capability [
    | some o ↦ run_capability cfg o
    | none ↦ elim options.ports [
      | some o ↦ run_resource_ports cfg o
      | none ↦ fail (message "resource requires capability or ports")
    ]
  ]

  -- `runResource`.
  unfoldable pub run_resource : World → ResourceOptions → Io Printed
  unfolding run_capability run_resource_ports ◌>>=◌
  run_resource world options = do
    cfg ← lift (world.load world.config_path)
    lift (admitted world cfg)
    resource_command cfg options
