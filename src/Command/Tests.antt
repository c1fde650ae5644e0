-- ===== src/Command/Tests.antt =====
-- The theorems on the administrative command, applied to small hosts.
use llama_stack.Base.{
  ◌≡◌, refl, false, none, some, [], ◌∷◌, String, ok, err, message, str_eq, if◌then◌else◌, is_ok,
}
use llama_stack.Base.Actions.{fail}
use llama_stack.Base.Int.{pos}
use llama_stack.Base.FilePath.{base}
use llama_stack.Config.{Config}
use llama_stack.Config.Samples.{raw}
use llama_stack.Doctor.Sample.{host}
use llama_stack.Privilege.{Directory, require_admin}
use llama_stack.Render.Writing.{outputs}
use llama_stack.System.{Node, System, Fault}
use llama_stack.System.View.{Content, content_of}
use llama_stack.System.Kept.{Has}
use llama_stack.Command.Options.{World, Account, CommandOptions, InstallOptions, admitted}
use llama_stack.Command.State.{ensure_secret}
use llama_stack.Command.Secrets.{ensure_secret-broken}
use llama_stack.Command.Models.{add_local_model, absolute}
use llama_stack.Command.Import.{Outcome, add_local_model-Outcome}
use llama_stack.Command.Run.{Tools, parsed, run, run_install}
use llama_stack.Command.Admission.{run-Still}
use llama_stack.Command.Kept.{run_install-Has}

abbrev directory : Directory Account
directory = record {
  lookup = λ name. ok (record { uid = "950"; gid = "951" });
  lookup_group = λ name. ok "970";
  group_ids = λ account. ok ("951" ∷ []);
}

abbrev root_world : World
root_world = record {
  euid = 0;
  sudo_user = "";
  directory = directory;
  load = λ path. ok raw;
  config_path = "/etc/llama-stack/config.toml";
  entropy = λ path. ok (1 ∷ 2 ∷ []);
  pick = λ files d t. "/srv/models/.model-1.gguf";
}

-- Ada, who is not in the administrative group.
abbrev ada_world : World
ada_world = record root_world { sudo_user = "ada" }

abbrev tools : Tools
tools = record {
  observe = λ s. host;
  printer = record { marshal = λ j. ok "{}"; marshal_indent = λ j. ok "{}" };
  quote = λ s. s;
  send = λ request. fail (message "no network");
  cwd = "/home/ada";
  read_dir = λ path. ok [];
  run_llama_server = fail (message "no server");
}

abbrev plain_file : String → Node
plain_file text = record { directory = false; mode = 0x1a0; uid = pos 0; gid = pos 0; text = text }

-- A model in a home directory, the secrets, and nothing else.
abbrev before : System
before = record {
  nodes = λ path.
      if str_eq path "/home/ada/m.gguf"
      then some (plain_file "weights")
      else if str_eq path raw.ports.admin_token_file
      then some (plain_file "lsadmin_00\n")
      else none;
  answers = [];
  processes = [];
}

add_local_model-Outcome_example :
    Outcome root_world raw before.nodes
      (absolute "/home/ada" "m.gguf")
      (add_local_model root_world raw "/home/ada" "m.gguf" before)
unfolding absolute base
add_local_model-Outcome_example =
    add_local_model-Outcome root_world raw "/home/ada" "m.gguf" before refl refl

-- Ada asks for everything.
abbrev install_options : InstallOptions
install_options = record { config = ""; no_start = false }

abbrev options : CommandOptions
options = record {
  doctor = none;
  install = some install_options;
  render = none;
  model = none;
  resource = none;
  version = false;
  run_llama_server = false;
}

unprivileged : (cfg : Config) → is_ok (admitted ada_world cfg) ≡ false
unfolding require_admin
unprivileged cfg = refl

run-Still_example : (run ada_world tools (parsed options) before).1 ≡ before
run-Still_example = run-Still ada_world tools unprivileged (parsed options) before refl

abbrev token : Content
token = record { mode = 0x1a0; text = "lsadmin_00\n" }

run_install-Has_example :
    Has raw.ports.admin_token_file token (run_install root_world tools install_options before).1
unfolding outputs
run_install-Has_example =
    run_install-Has raw.ports.admin_token_file token root_world tools raw install_options
      (λ files d t. refl)
      (
        refl,
        (
          refl,
          (
            refl,
            (
              refl,
              (refl, (refl, (refl, (refl, (refl, (refl, (refl, (refl, (refl, (refl, tt)))))))))),
            ),
          ),
        ),
      )
      before refl refl

abbrev full : Fault
full = record { reason = "no space left on device"; part = "" }

ensure_secret-broken_example :
    let s : System = record {
      nodes = λ path. none;
      answers = none ∷ none ∷ some full ∷ none ∷ [];
      processes = [];
    } in
    let first = ensure_secret root_world "/etc/key" "sk-" (pos 950) (pos 951) s in
    let second = ensure_secret root_world "/etc/key" "sk-" (pos 950) (pos 951) first.1 in
    (first.0 ≡ err (message "no space left on device"))
    × (second.0 ≡ ok tt)
    × (content_of (second.1.nodes "/etc/key") ≡ some (record { mode = 0x1a0; text = "" }))
ensure_secret-broken_example =
    ensure_secret-broken root_world "/etc/key" "sk-" (pos 950) (pos 951) (λ path. none) (1 ∷ 2 ∷ [])
      full [] [] refl refl
