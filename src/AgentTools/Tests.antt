-- ===== src/AgentTools/Tests.antt =====
-- The theorems on the tool service, applied to small requests.

use llama_stack.Base.{
  ℕ, ◌≡◌, ◌≢◌, ◌⊎◌, ap, ◌≤◌, ◌↔◌, refl, Bool, false, not, List, [], ◌∷◌, ◌&&◌, some, String, ok,
  err, message, Failure, str_eq, length, take, if◌then◌else◌,
}
use llama_stack.Base.Int.{pos, negsuc, pos_part}
use llama_stack.Base.Text.{trim_space, trim_left, trim_right, is_space, strip_prefix, trim_prefix}
use llama_stack.AgentTools.Output.{Holds, concat, fresh, write_all, write_all-take, write}
use llama_stack.AgentTools.Workspace.{
  IsKey, IsFirst, IsFallback, sanitize_workspace_key, sanitize_workspace_key-IsKey, replace_unsafe,
  identify_workspace, find_identity, identify_workspace-IsKey, identity_headers,
}
use llama_stack.AgentTools.Service.{
  Response, failed, found, authorize, World, Exit, finished, search, run_toolbox,
  ensure_toolbox_container, effective_results,
}
use llama_stack.AgentTools.Access.{run_toolbox-first, run_toolbox-admitted, search-bounded}
use llama_stack.AgentTools.Authorization.{Carries, authorize-Carries}
use llama_stack.Config.Samples.{raw}

write_all-take_example :
    Holds 3
      (concat ((1 ∷ 2 ∷ []) ∷ (3 ∷ 4 ∷ []) ∷ []))
      (write_all ((1 ∷ 2 ∷ []) ∷ (3 ∷ 4 ∷ []) ∷ []) (fresh 3))
write_all-take_example = write_all-take 3 ((1 ∷ 2 ∷ []) ∷ (3 ∷ 4 ∷ []) ∷ [])

sanitize_workspace_key-IsKey_example :
    IsKey (sanitize_workspace_key "../etc")
    × (IsKey "../etc" ↔ (sanitize_workspace_key "../etc" ≡ "../etc"))
sanitize_workspace_key-IsKey_example = sanitize_workspace_key-IsKey "../etc"

-- The slash goes, and the parent directory is not a key.
climbing : (sanitize_workspace_key "../etc" ≡ ".._etc") × (sanitize_workspace_key ".." ≡ "default")
unfolding sanitize_workspace_key replace_unsafe
climbing = (refl, refl)

abbrev headers : String → String
headers name = if str_eq name "X-User-Id" then " ada/1 " else ""

identify_workspace-IsKey_example :
    IsKey (identify_workspace headers).key
    × (IsFirst headers identity_headers (identify_workspace headers)
        ⊎ IsFallback headers identity_headers (identify_workspace headers))
identify_workspace-IsKey_example = identify_workspace-IsKey headers

abbrev reply : Response ℕ
reply = (200, found (some (7 ∷ [])))

authorize-Carries_example :
    (Carries "secret" "secret" × (authorize "secret" "secret" reply ≡ reply))
    ⊎ ((¬ Carries "secret" "secret")
        × (authorize "secret" "secret" reply ≡ (401, failed (message "unauthorized"))))
authorize-Carries_example = authorize-Carries "secret" "secret" reply

-- Nobody has to show anything where the key is empty.
keyless : authorize "" "" reply ≡ reply
unfolding authorize trim_prefix strip_prefix
keyless = refl

abbrev results : List ℕ
results = 1 ∷ 2 ∷ 3 ∷ []

abbrev first_two : List ℕ
first_two = 1 ∷ 2 ∷ []

shown : search (ok ("go", pos 2)) (ok (some results)) ≡ (200, found (some first_two))
unfolding search trim_space trim_left trim_right is_space
shown = refl

search-bounded_example :
    (str_eq (trim_space "go") "" ≡ false)
    × (length first_two ≤ pos_part (effective_results (pos 2)))
    × (length first_two ≤ 10)
    × (first_two ≡ take (pos_part (effective_results (pos 2))) results)
search-bounded_example = search-bounded "go" (pos 2) results first_two shown

abbrev utf8 : String → List ℕ
utf8 s = []

abbrev text : Failure → List ℕ
text e = 33 ∷ []

-- A container that podman does not know yet, and starts.
abbrev new_container : World
new_container = record {
  made = ok tt;
  inspected = err (message "exit status 125");
  started = ok tt;
  chunks = (104 ∷ 105 ∷ []) ∷ [];
  exit = finished;
  late = false;
}

run_toolbox-first_example :
    ((run_toolbox utf8 text raw headers new_container).exit_code ≡ negsuc 0)
    × ((run_toolbox utf8 text raw headers new_container).timed_out ≡ false)
    × ((chunks : List (List ℕ)) (exit : Exit) (late : Bool)
        → run_toolbox utf8 text raw headers
            (record new_container { chunks = chunks; exit = exit; late = late })
          ≡ run_toolbox utf8 text raw headers new_container)
run_toolbox-first_example =
    run_toolbox-first utf8 text raw headers new_container (message "exit status 125") refl

-- The container was started, and still the call fails with the error of `inspect`.
answered : (run_toolbox utf8 text raw headers new_container).output ≡ 33 ∷ []
unfolding run_toolbox identify_workspace find_identity ensure_toolbox_container trim_space trim_left
    trim_right is_space
answered = refl

-- The same container, ready, with two outputs of one command.
abbrev ready : World
ready = record new_container { inspected = ok "true" }

differs :
    run_toolbox utf8 text raw headers ready
    ≢ run_toolbox utf8 text raw headers
        (record ready { chunks = []; exit = finished; late = false })
unfolding run_toolbox identify_workspace find_identity ensure_toolbox_container write_all write
    trim_space trim_left trim_right is_space
differs e = absurd (cc (ap (λ r. r.output) e))

run_toolbox-admitted_example :
    ((raw.agent_tools.require_identity && not (identify_workspace headers).found) ≡ false)
    × (ready.made ≡ ok tt)
    × (ensure_toolbox_container ready.inspected ready.started ≡ ok tt)
run_toolbox-admitted_example =
    run_toolbox-admitted utf8 text raw headers ready [] finished false differs
