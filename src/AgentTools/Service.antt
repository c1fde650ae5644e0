-- ===== src/AgentTools/Service.antt =====
-- The handlers of cmd/llama-stack-agent-tools/main.go. What podman, the file system, SearXNG and
-- the decoder of requests answer are arguments, as is the UTF-8 form of a text.
use llama_stack.Base.{
  ℕ, zero, Bool, true, false, not, ◌&&◌, ◌||◌, Option, none, some, List, [], ◌∷◌, ◌++◌, String,
  Result, ok, err, Failure, message, if◌then◌else◌, str_eq, length, take, ltb,
}
use llama_stack.Base.Int.{ℤ, pos, negsuc, ltb_ℤ, pos_part}
use llama_stack.Base.Text.{trim_space, trim_prefix}
use llama_stack.Config.{Config}
use llama_stack.AgentTools.Output.{LimitedBuffer, write_all, fresh}
use llama_stack.AgentTools.Workspace.{identify_workspace}

pub record ExecResponse : Type 0 where
  pub output : List ℕ
  pub exit_code : ℤ
  pub timed_out : Bool
  pub workspace : String

-- What a handler writes behind the status: `writeJSON` of an error, of a result or of the
-- results of a search.
pub data Body (R : Type 0) : Type 0 where
  failed : Failure → Body R
  executed : ExecResponse → Body R
  found : Option (List R) → Body R

abbrev pub Response : Type 0 → Type 0
Response R = ℕ × Body R

-- The handler that `authorize` builds, on the header `Authorization`.
unfoldable pub authorize : {R : Type 0} → (api_key header : String) → Response R → Response R
authorize api_key header next =
    if not (str_eq (trim_prefix header "Bearer ") api_key)
    then (401, failed (message "unauthorized"))
    else next

-- `ensureToolboxContainer`, over the answers of `podman inspect` and `podman run`.
unfoldable pub ensure_toolbox_container : Result String → Result (Unit {0}) → Result (Unit {0})
ensure_toolbox_container (ok state) run = if str_eq (trim_space state) "true" then ok tt else run
ensure_toolbox_container (err e) (ok _) = err e
ensure_toolbox_container (err e) (err x) = err x

-- How the command ended.
pub data Exit : Type 0 where
  finished : Exit
  exited : ℤ → Exit
  broken : Failure → Exit

-- What the world answers to one call of `runToolbox`.
pub record World : Type 0 where
  pub made : Result (Unit {0})
  pub inspected : Result String
  pub started : Result (Unit {0})
  pub chunks : List (List ℕ)
  pub exit : Exit
  pub late : Bool

module _ (utf8 : String → List ℕ) (text : Failure → List ℕ) where
  abbrev refused : String → List ℕ → ExecResponse
  refused key output = record {
    output = output;
    exit_code = negsuc 0;
    timed_out = false;
    workspace = key;
  }

  abbrev exit_code_of : Exit → ℤ
  exit_code_of finished = pos 0
  exit_code_of (exited n) = n
  exit_code_of (broken e) = negsuc 0

  abbrev is_nil : List ℕ → Bool
  is_nil [] = true
  is_nil (b ∷ bs) = false

  -- What `runToolbox` makes of the buffer and of how the command ended.
  abbrev report : String → LimitedBuffer → Exit → Bool → ExecResponse
  report key b exit late =
      let shown = if b.truncated then b.buffer ++ utf8 "\n[output truncated]\n" else b.buffer in
      record {
        output = elim exit [ broken e ↦ (if is_nil shown then text e else shown) | _ ↦ shown ];
        exit_code = exit_code_of exit;
        timed_out = late;
        workspace = key;
      }

  -- `runToolbox`, on the request's headers.
  unfoldable pub run_toolbox : Config → (String → String) → World → ExecResponse
  unfolding ensure_toolbox_container
  run_toolbox cfg get world =
      let identity = identify_workspace get in
      if cfg.agent_tools.require_identity && not identity.found
      then refused identity.key (
          utf8
            "tool workspace identity was not forwarded; disable agent_tools.require_identity or configure Open WebUI to forward X-Session-Id or X-User-Id")
      else elim world.made [
        | err e ↦ refused identity.key (text e)
        | ok _ ↦ elim (ensure_toolbox_container world.inspected world.started) [
          | err e ↦ refused identity.key (text e)
          | ok _ ↦
              report identity.key
                (write_all world.chunks (fresh (pos_part cfg.agent_tools.max_output))) world.exit
                world.late
        ]
      ]

  -- `execute`, on the decoded command.
  unfoldable pub execute :
      {R : Type 0} → Config → (String → String) → Result String → World → Response R
  unfolding run_toolbox
  execute cfg get (err e) world = (400, failed e)
  execute cfg get (ok command) world =
      if str_eq (trim_space command) ""
      then (400, failed (message "command must not be empty"))
      else (200, executed (run_toolbox cfg get world))

abbrev pub effective_results : ℤ → ℤ
effective_results (pos zero) = pos 5
effective_results n = n

-- `payload["results"]`, cut to the number asked for, where it is a list.
abbrev pub cut_results {ℓ} : {R : Type ℓ} → ℕ → Option (List R) → Option (List R)
cut_results n none = none
cut_results n (some rs) = some (if ltb n (length rs) then take n rs else rs)

-- `search`, on the decoded query and number of results, and on what SearXNG answers.
unfoldable pub search : {R : Type 0} → Result (String × ℤ) → Result (Option (List R)) → Response R
search (err e) answer = (400, failed e)
search (ok (query, max_results)) answer =
    if str_eq (trim_space query) ""
    then (400, failed (message "query must not be empty"))
    else if ltb_ℤ (effective_results max_results) (pos 1)
        || ltb_ℤ (pos 10) (effective_results max_results)
    then (400, failed (message "max_results must be between 1 and 10"))
    else elim answer [
      | err e ↦ (502, failed e)
      | ok results ↦ (200, found (cut_results (pos_part (effective_results max_results)) results))
    ]
