-- ===== src/Config/Samples.antt =====
-- A configuration like the packaged one of config/config.example.toml, for the runs in the tests.
use llama_stack.Base.{true, false, []}
use llama_stack.Base.Int.{ℤ, pos}
use llama_stack.Config.{Config, Service}

abbrev pub service : ℤ → Service
service port = record { enabled = true; image = "image"; host = "127.0.0.1"; port = port }

abbrev pub raw : Config
raw = record {
  stack = record { user = "llama"; group = "llama"; admin_group = "llama-stack-admins" };
  paths = record {
    state = "/var/lib/llama-stack";
    cache = "/var/cache/llama-stack";
    models = "/srv/models";
    users = "/srv/users";
    artifacts = "/srv/artifacts";
  };
  gpu = record {
    enabled = false;
    repository_url = "";
    driver_packages = [];
    toolkit_packages = [];
    cuda_architectures = [];
  };
  llama = record {
    repository = "";
    revision = "";
    source_directory = "";
    binary = "/usr/bin/llama-server";
    host = "127.0.0.1";
    port = pos 8090;
    context_size = pos 32768;
    models_max = pos 1;
    gpu_layers = "all";
    split_mode = "layer";
    tensor_split = "";
    idle_timeout = pos 900;
    api_key_file = "/etc/llama-stack/key";
    jinja = true;
    tools = "exec";
    mcp_servers_file = "/etc/llama-stack/mcp.json";
    models_preset_file = "";
    model_profiles_file = "";
  };
  open_webui = record {
    service = service (pos 3000);
    secret_file = "/etc/llama-stack/secret";
    builtin_tools = true;
    auto_select_tools = false;
    function_calling = "";
    context_compaction = true;
    context_compaction_threshold = pos 20000;
    context_compaction_token_cap = pos 24000;
    context_compaction_retention = pos 50;
  };
  agent_tools = record {
    enabled = true;
    host = "127.0.0.1";
    port = pos 8095;
    api_key_file = "/etc/llama-stack/tools";
    max_output = pos 65536;
    require_identity = true;
  };
  searxng = record { service = service (pos 8888); secret_file = "/etc/llama-stack/searxng" };
  downloads = record { service = service (pos 8089); directory_listing = false };
  toolbox = record {
    enabled = true;
    runtime = "podman";
    image = "toolbox";
    memory = "4g";
    pids = pos 512;
    execution_timeout = pos 600;
    idle_timeout = pos 900;
  };
  ports = record {
    enabled = true;
    listen_host = "0.0.0.0";
    start = pos 20000;
    end = pos 20999;
    database = "/var/lib/llama-stack/ports.db";
    admin_token_file = "/etc/llama-stack/admin";
    default_ttl = pos 3600;
    maximum_ttl = pos 86400;
    maximum_per_run = pos 8;
    maximum_per_user = pos 16;
    maximum_wait = pos 30;
  };
  jobs = record {
    database = "/var/lib/llama-stack/jobs.db";
    poll_interval = pos 500;
    recovery_timeout = pos 60;
    database_lock_retries = pos 5;
    database_lock_delay = pos 20;
  };
  orchestrator = record { host = "127.0.0.1"; port = pos 8091 };
}
