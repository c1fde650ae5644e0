-- ===== src/Doctor.antt =====
-- internal/doctor/doctor.go: the report on the host. What the host answers is an argument.
pub mod Required
mod Tests
pub mod Sample
pub mod Checks
pub mod Ready
use Prim.Native.Nat.{bit_and}
use Prim.Native.Char.{code}
use Prim.Native.String as S
use Prim.Native.String.{◌++◌, len}
use llama_stack.Base.{
  ℕ, Bool, true, false, not, ◌&&◌, ◌||◌, Option, none, some, List, [], ◌∷◌, map, String, Result, ok,
  err, Failure, message, if◌then◌else◌, ◌>>=◌, str_eq, ◌==◌, ltb,
}
use mathlib.Core.List as L
use llama_stack.Base.Text.{trim_space, has_prefix}
use llama_stack.Base.Split.{
  split, cut, before, trim_char, trim_left_char, trim_right_char, contains_text,
}
use llama_stack.Base.FilePath.{join, clean}
use llama_stack.Config.{Config}

pub data Status : Type 0 where
  passed warned failed : Status

pub record Check : Type 0 where
  pub name : String
  pub status : Status
  pub text : String

-- `os.FileInfo`, as far as it is read: the kind and the permission bits.
pub record Info : Type 0 where
  pub is_dir : Bool
  pub perm : ℕ

-- How a process ended: its output, its error, and whether its time was over.
pub record Process : Type 0 where
  pub output : String
  pub failure : Option Failure
  pub late : Bool

-- The answers of the operating system; `error` is the text of an error, `is_permission` is
-- `errors.Is(err, os.ErrPermission)`, and `octal` prints permission bits by `%04o`.
pub record Host : Type 0 where
  pub read_file : String → Result String
  pub stat : String → Result Info
  pub execute : String → List String → Process
  pub error : Failure → String
  pub is_permission : Failure → Bool
  pub octal : ℕ → String

abbrev pub is_failed : Status → Bool
is_failed failed = true
is_failed _ = false

-- `Healthy`, with its `break`.
unfoldable pub healthy : List Check → Bool
healthy [] = true
healthy (check ∷ checks) =
    let rest = healthy checks in if is_failed check.status then false else rest

-- The map `fields`: the last line of a key counts, and an absent key reads as "".
unfoldable pub field_loop : String → String → List String → String
field_loop key value [] = value
field_loop key value (line ∷ lines) =
    field_loop key
      (elim (cut b'=' line) [
        | none ↦ value
        | some (k, v) ↦ (if str_eq k key then trim_char b'"' v else value)
      ])
      lines

abbrev pub field : String → String → String
field key contents = field_loop key "" (split b'\n' contents)

-- A return at the end of a line.
unfoldable pub drop_return : String → String
drop_return S.[] = ""
drop_return (S.◌∷◌ c S.[]) = if code c == b'\r' then "" else S.◌∷◌ c S.[]
drop_return (S.◌∷◌ c (S.◌∷◌ d s)) = S.◌∷◌ c (drop_return (S.◌∷◌ d s))

-- `firstLine`: the scanner gives up on a line of 64 KiB, and drops the return at its end.
unfoldable pub first_line : String → String
unfolding cut drop_return
first_line value =
    let line = before b'\n' value in if ltb (len line) 65536 then drop_return line else ""

unfoldable pub line_loop : String → List String → String
unfolding contains_text trim_space
line_loop fragment [] = ""
line_loop fragment (line ∷ lines) =
    let rest = line_loop fragment lines in
    if contains_text line fragment then trim_space line else rest

-- `firstLineContaining`.
abbrev pub first_line_containing : String → String → String
first_line_containing value fragment = line_loop fragment (split b'\n' value)

abbrev pub search_server : String
search_server = "/usr/local/libexec/llama-stack/llama-stack-search-mcp"

abbrev pub tool_server : String
tool_server = "/usr/local/libexec/llama-stack/llama-stack-agent-tools"

module _ (host : Host) where
  open host use {read_file, stat, execute, error, is_permission, octal}

  -- `run`.
  unfoldable pub run_process : String → List String → Result String
  unfolding trim_space
  run_process command args =
      let process = execute command args in
      elim process.failure [
        | some e ↦ err (
            message (
              if process.late
              then command ++ " timed out"
              else command ++ ": " ++ error e ++ ": " ++ trim_space process.output))
        | none ↦ ok (trim_space process.output)
      ]

  -- What `checkOperatingSystem` makes of the release's identifier and version.
  abbrev check_release : String → String → Check
  check_release id version =
      if not (str_eq id "fedora")
      then record {
        name = "Operating system";
        status = failed;
        text = "unsupported distribution " ++ id ++ "; Fedora 44 is required";
      }
      else if not (str_eq version "44")
      then record {
        name = "Operating system";
        status = warned;
        text = "Fedora " ++ version ++ " detected; this release targets Fedora 44";
      }
      else record { name = "Operating system"; status = passed; text = "Fedora 44" }

  unfoldable pub check_operating_system : Check
  unfolding field_loop split cut trim_left_char trim_right_char
  check_operating_system = elim (read_file "/etc/os-release") [
    | err e ↦ record { name = "Operating system"; status = failed; text = error e }
    | ok contents ↦ check_release (field "ID" contents) (field "VERSION_ID" contents)
  ]

  unfoldable pub check_command : String → String → List String → Check
  unfolding run_process first_line
  check_command name command args = elim (run_process command args) [
    | err e ↦ record { name = name; status = failed; text = error e }
    | ok output ↦ record { name = name; status = passed; text = first_line output }
  ]

  abbrev denied : String → String → Failure → Check
  denied name path e =
      if is_permission e
      then record {
        name = name;
        status = warned;
        text = path ++ " is protected; rerun doctor with sudo for a full check";
      }
      else record { name = name; status = failed; text = path ++ ": " ++ error e }

  unfoldable pub check_file : String → String → ℕ → Check
  check_file name path required = elim (stat path) [
    | err e ↦ denied name path e
    | ok info ↦
        (if info.is_dir
          then record { name = name; status = failed; text = path ++ " is a directory" }
          else if bit_and info.perm required == 0
          then record {
            name = name;
            status = failed;
            text = path ++ " lacks required mode " ++ octal required;
          }
          else record { name = name; status = passed; text = path })
  ]

  -- The body of the loop of `checkManagedDirectories`.
  unfoldable pub check_directory : String → Check
  check_directory path = elim (stat path) [
    | err e ↦ record { name = "Directory " ++ path; status = failed; text = error e }
    | ok info ↦
        (if not info.is_dir
          then record { name = "Directory " ++ path; status = failed; text = "not a directory" }
          else record { name = "Directory " ++ path; status = passed; text = "present" })
  ]

  abbrev pub directories : Config → List String
  directories cfg =
      L.◌++◌
        (cfg.paths.state ∷ cfg.paths.cache ∷ cfg.paths.models ∷ cfg.paths.users
          ∷ cfg.paths.artifacts ∷ [])
        (if cfg.open_webui.service.enabled
          then join (cfg.paths.state ∷ "open-webui" ∷ []) ∷ []
          else [])

  abbrev pub check_managed_directories : Config → List Check
  check_managed_directories cfg = map check_directory (directories cfg)

  unfoldable pub check_llama_devices : String → Check
  unfolding run_process contains_text line_loop split
  check_llama_devices binary = elim (stat binary) [
    | err e ↦ record {
      name = "llama.cpp CUDA devices";
      status = failed;
      text = "llama-server is not installed";
    }
    | ok _ ↦ elim (run_process binary ("--list-devices" ∷ [])) [
      | err e ↦ record { name = "llama.cpp CUDA devices"; status = failed; text = error e }
      | ok output ↦
          (if not (contains_text output "CUDA")
            then record {
              name = "llama.cpp CUDA devices";
              status = failed;
              text = "no CUDA devices reported";
            }
            else record {
              name = "llama.cpp CUDA devices";
              status = passed;
              text = first_line_containing output "CUDA";
            })
    ]
  ]

  unfoldable pub check_service : String → Check
  unfolding run_process
  check_service unit = elim (run_process "systemctl" ("is-active" ∷ "--quiet" ∷ unit ∷ [])) [
    | err e ↦ record { name = unit; status = failed; text = "inactive or unavailable" }
    | ok _ ↦ record { name = unit; status = passed; text = "active" }
  ]

  -- The checks of `Run` that a part of the configuration switches on.
  abbrev search_checks : Config → List Check
  search_checks cfg =
      if cfg.searxng.service.enabled
      then check_file "Search MCP server" search_server 0x49
        ∷ check_file "MCP server configuration" cfg.llama.mcp_servers_file 0x100
        ∷ []
      else []

  abbrev tool_checks : Config → List Check
  tool_checks cfg =
      if cfg.agent_tools.enabled
      then check_file "Agent tools server" tool_server 0x49
        ∷ check_file "Agent tools API key" cfg.agent_tools.api_key_file 0x100
        ∷ []
      else []

  abbrev service_if : Bool → String → List Check
  service_if enabled unit = if enabled then check_service unit ∷ [] else []

  abbrev service_checks : Config → List Check
  service_checks cfg =
      check_service "llama-server.service"
      ∷ check_service "llama-stackd.service"
      ∷ L.◌++◌ (service_if cfg.agent_tools.enabled "llama-agent-tools.service") (
          L.◌++◌ (service_if cfg.open_webui.service.enabled "llama-open-webui.service") (
            L.◌++◌ (service_if cfg.searxng.service.enabled "llama-searxng.service")
              (service_if cfg.downloads.service.enabled "llama-downloads.service")))

  -- `Run`; the octal modes 0111 and 0400 are 0x49 and 0x100.
  unfoldable pub run : Config → List Check
  unfolding check_operating_system check_command check_file check_directory check_llama_devices
      check_service join
  run cfg =
      check_operating_system
      ∷ check_command "Podman" "podman" ("--version" ∷ [])
      ∷ check_command "NVIDIA driver" "nvidia-smi"
          ("--query-gpu=name,driver_version,memory.total" ∷ "--format=csv,noheader" ∷ [])
      ∷ check_command "CUDA compiler" "nvcc" ("--version" ∷ [])
      ∷ check_file "llama-server" cfg.llama.binary 0x49
      ∷ check_file "llama API key" cfg.llama.api_key_file 0x100
      ∷ check_file "Open WebUI secret" cfg.open_webui.secret_file 0x100
      ∷ check_file "SearXNG secret" cfg.searxng.secret_file 0x100
      ∷ check_file "Resource administrator token" cfg.ports.admin_token_file 0x100
      ∷ L.◌++◌ (search_checks cfg) (
          L.◌++◌ (tool_checks cfg) (
            L.◌++◌ (check_managed_directories cfg)
              (check_llama_devices cfg.llama.binary ∷ service_checks cfg)))

-- `ConfigFileCheck`, over what `config.Load` answers for the path.
unfoldable pub config_file_check : (Failure → String) → (String → Result Config) → String → Check
unfolding clean
config_file_check error load path = elim (load (clean path)) [
  | err e ↦ record { name = "Configuration"; status = failed; text = error e }
  | ok cfg ↦ record { name = "Configuration"; status = passed; text = clean path }
]
