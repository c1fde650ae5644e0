-- ===== src/Command/Options.antt =====
-- The options of cmd/llama-stack/main.go as its parser fills them in, and what the command finds
-- around it.
use llama_stack.Base.{ℕ, Bool, Option, List, String, Result, if◌then◌else◌, str_eq}
use llama_stack.Base.Int.{ℤ}
use llama_stack.Config.{Config}
use llama_stack.Privilege.{Directory, require_admin}
use llama_stack.System.{Files}

pub record DoctorOptions : Type 0 where
  pub config : String

pub record InstallOptions : Type 0 where
  pub config : String
  pub no_start : Bool

pub record RenderOptions : Type 0 where
  pub config : String
  pub root : String

pub record ModelAddOptions : Type 0 where
  pub source : String

pub record ModelOptions : Type 0 where
  pub add : Option ModelAddOptions
  pub list : Bool

pub record CapabilityIssueOptions : Type 0 where
  pub user : String
  pub run : String
  pub workspace : String
  pub target_host : String
  pub ttl : ℤ

pub record CapabilityOptions : Type 0 where
  pub issue : Option CapabilityIssueOptions
  pub revoke : Option String

pub record PortOptions : Type 0 where
  pub list : Bool
  pub revoke : Option String

pub record ResourceOptions : Type 0 where
  pub capability : Option CapabilityOptions
  pub ports : Option PortOptions

-- A subcommand without options of its own is there or not.
pub record CommandOptions : Type 0 where
  pub doctor : Option DoctorOptions
  pub install : Option InstallOptions
  pub render : Option RenderOptions
  pub model : Option ModelOptions
  pub resource : Option ResourceOptions
  pub version : Bool
  pub run_llama_server : Bool

-- `user.User`, as far as it is read.
pub record Account : Type 0 where
  pub uid : String
  pub gid : String

-- Who runs the command, the accounts of the host, `config.Load`, `config.Path`, the bytes that
-- `rand.Read` gives for the secret of a path, and the name that `os.CreateTemp` finds.
pub record World : Type 0 where
  pub euid : ℕ
  pub sudo_user : String
  pub directory : Directory Account
  pub load : String → Result Config
  pub config_path : String
  pub entropy : String → Result (List ℕ)
  pub pick : Files → String → String → String

-- `privilege.RequireAdmin`.
abbrev pub admitted : World → Config → Result (Unit {0})
admitted world cfg = require_admin world.directory world.euid world.sudo_user cfg.stack.admin_group

-- `resolveConfigPath`.
abbrev pub resolve_config_path : World → String → String
resolve_config_path world path = if str_eq path "" then world.config_path else path
