-- ===== src/Config.antt =====
-- internal/config/config.go: the configuration file of the stack. The processor share of the
-- toolbox, a floating point number that the checks do not read, is left out.
pub mod Validation
pub mod Accepted
pub mod Loading
pub mod Samples
mod Tests
use llama_stack.Base.{Bool, List, String}
use llama_stack.Base.Int.{ℤ}

pub record Stack : Type 0 where
  pub user : String
  pub group : String
  pub admin_group : String

pub record Paths : Type 0 where
  pub state : String
  pub cache : String
  pub models : String
  pub users : String
  pub artifacts : String

pub record Gpu : Type 0 where
  pub enabled : Bool
  pub repository_url : String
  pub driver_packages : List String
  pub toolkit_packages : List String
  pub cuda_architectures : List String

pub record Llama : Type 0 where
  pub repository : String
  pub revision : String
  pub source_directory : String
  pub binary : String
  pub host : String
  pub port : ℤ
  pub context_size : ℤ
  pub models_max : ℤ
  pub gpu_layers : String
  pub split_mode : String
  pub tensor_split : String
  pub idle_timeout : ℤ
  pub api_key_file : String
  pub jinja : Bool
  pub tools : String
  pub mcp_servers_file : String
  pub models_preset_file : String
  pub model_profiles_file : String

pub record Service : Type 0 where
  pub enabled : Bool
  pub image : String
  pub host : String
  pub port : ℤ

pub record OpenWebUi : Type 0 where
  pub service : Service
  pub secret_file : String
  pub builtin_tools : Bool
  pub auto_select_tools : Bool
  pub function_calling : String
  pub context_compaction : Bool
  pub context_compaction_threshold : ℤ
  pub context_compaction_token_cap : ℤ
  pub context_compaction_retention : ℤ

pub record AgentTools : Type 0 where
  pub enabled : Bool
  pub host : String
  pub port : ℤ
  pub api_key_file : String
  pub max_output : ℤ
  pub require_identity : Bool

pub record SearXng : Type 0 where
  pub service : Service
  pub secret_file : String

pub record Downloads : Type 0 where
  pub service : Service
  pub directory_listing : Bool

pub record Toolbox : Type 0 where
  pub enabled : Bool
  pub runtime : String
  pub image : String
  pub memory : String
  pub pids : ℤ
  pub execution_timeout : ℤ
  pub idle_timeout : ℤ

pub record Ports : Type 0 where
  pub enabled : Bool
  pub listen_host : String
  pub start : ℤ
  pub end : ℤ
  pub database : String
  pub admin_token_file : String
  pub default_ttl : ℤ
  pub maximum_ttl : ℤ
  pub maximum_per_run : ℤ
  pub maximum_per_user : ℤ
  pub maximum_wait : ℤ

pub record Jobs : Type 0 where
  pub database : String
  pub poll_interval : ℤ
  pub recovery_timeout : ℤ
  pub database_lock_retries : ℤ
  pub database_lock_delay : ℤ

pub record Orchestrator : Type 0 where
  pub host : String
  pub port : ℤ

pub record Config : Type 0 where
  pub stack : Stack
  pub paths : Paths
  pub gpu : Gpu
  pub llama : Llama
  pub open_webui : OpenWebUi
  pub agent_tools : AgentTools
  pub searxng : SearXng
  pub downloads : Downloads
  pub toolbox : Toolbox
  pub ports : Ports
  pub jobs : Jobs
  pub orchestrator : Orchestrator
