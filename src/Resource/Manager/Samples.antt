-- ===== src/Resource/Manager/Samples.antt =====
-- A small database and a manager on it, for the runs in the tests.
use llama_stack.Base.{ℕ, Bool, true, not, String, List, [], ◌∷◌, ok, ◌==◌}
use llama_stack.Base.Int.{pos}
use llama_stack.Resource.Types.{Config, Capability}
use llama_stack.Resource.Store.{CapabilityRecord, LeaseRecord}
use llama_stack.Resource.Store.Memory.{Rows, memory}
use llama_stack.Resource.Manager.{Manager, Random}
use llama_stack.Resource.Manager.Operations.{initial}

abbrev pub config : Config
config = record {
  port_start = 20000;
  port_end = 20003;
  default_ttl = pos 3600000000000;
  maximum_ttl = pos 7200000000000;
  maximum_run = 2;
  maximum_user = 3;
}

abbrev pub ada_row : CapabilityRecord
ada_row = record {
  hash = "h1";
  id = "cap_1";
  user_id = "ada";
  run_id = "run";
  workspace_id = "work";
  target_host = "10.0.0.2";
  expires_at = 9000000000000;
}

abbrev pub ada : Capability
ada = record {
  id = "cap_1";
  hash = "h1";
  user_id = "ada";
  run_id = "run";
  workspace_id = "work";
  target_host = "10.0.0.2";
  expires_at = 9000000000000;
}

-- A lease of another run on the first host port of the pool.
abbrev pub old_lease : LeaseRecord
old_lease = record {
  id = "lease_0";
  capability_hash = "h2";
  user_id = "bob";
  run_id = "run";
  workspace_id = "work";
  target_host = "10.0.0.3";
  ports = record { host_port = 20000; target_port = pos 80 } ∷ [];
  created_at = 5;
  expires_at = 8000000000000;
}

abbrev pub rows : Rows
rows = record { capability_list = ada_row ∷ []; lease_list = old_lease ∷ [] }

abbrev pub before : Manager Rows
before = initial memory config rows

abbrev pub free : ℕ → Bool
free q = not (q == 20001)

abbrev pub bytes : Random
bytes = ok (1 ∷ 171 ∷ [])

abbrev pub parses : String → Bool
parses s = true

abbrev pub digest : String → List ℕ
digest s = 7 ∷ []

-- A lease of the capability.
abbrev pub own_lease : LeaseRecord
own_lease = record {
  id = "lease_1";
  capability_hash = "h1";
  user_id = "ada";
  run_id = "run";
  workspace_id = "work";
  target_host = "10.0.0.2";
  ports = record { host_port = 20003; target_port = pos 22 } ∷ [];
  created_at = 7;
  expires_at = 5000000000000;
}

abbrev pub owned : Manager Rows
owned =
    initial memory config
      (record { capability_list = ada_row ∷ []; lease_list = old_lease ∷ own_lease ∷ [] })

abbrev pub last_only : Manager Rows
last_only =
    initial memory config (record { capability_list = ada_row ∷ []; lease_list = own_lease ∷ [] })
