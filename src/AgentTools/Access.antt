-- ===== src/AgentTools/Access.antt =====
-- Who reaches the tools of cmd/llama-stack-agent-tools/main.go, and what they get.
use Prim.Native.String.{◌++◌}
use text.Mathlib.TextPositions.{eq_refl}
use llama_stack.Base.{
  ℕ, ◌≤◌, ◌≡◌, ◌≢◌, refl, ap, sym, subst, ◌∙◌, Bool, true, false, not, ◌&&◌, ◌||◌, none, some, List,
  String, Result, ok, Result-cases, err, Failure, message, if◌then◌else◌, str_eq, length, take,
  length-take, take_all, ltb, arith, Bool-cases, inl, inr,
}
use llama_stack.Base.Int.{ℤ, pos, negsuc, ltb_ℤ, pos_part}
use llama_stack.Base.Text.{trim_space, trim_prefix, strip_prefix}
use llama_stack.Base.Prefix.{trim_prefix-append}
use llama_stack.Config.{Config}
use llama_stack.AgentTools.Workspace.{identify_workspace}
use llama_stack.AgentTools.Service.{
  Response, failed, found, authorize, World, run_toolbox, ensure_toolbox_container, search, Exit,
  effective_results,
}

-- A request with the header `Bearer ` and a token reaches the handler if the token is the key, and
-- is answered 401 whatever the handler would do if it is not.
pub authorize-bearer :
    {R : Type 0} (api_key token : String) (next : Response R)
    → authorize api_key ("Bearer " ++ token) next
      ≡ (if str_eq token api_key then next else (401, failed (message "unauthorized")))
unfolding authorize
authorize-bearer api_key token next =
    rw (authorize, trim_prefix-append "Bearer " token) (flip (str_eq token api_key))
  where
    flip :
        (b : Bool)
        → (if not b then (401, failed (message "unauthorized")) else next)
          ≡ (if b then next else (401, failed (message "unauthorized")))
    flip true = refl
    flip false = refl

-- The prefix is not asked for: a header that is the bare key reaches the handler too, where the
-- key does not begin with `Bearer ` itself.
pub authorize-bare :
    {R : Type 0} (api_key : String) (next : Response R)
    → strip_prefix "Bearer " api_key ≡ none
    → authorize api_key api_key next ≡ next
unfolding authorize trim_prefix
authorize-bare api_key next bare = rw (authorize, trim_prefix, bare, eq_refl api_key) refl

not_ready :
    (e : Failure) (started : Result (Unit {0}))
    → (f : Failure) × (ensure_toolbox_container (err e) started ≡ err f)
unfolding ensure_toolbox_container
not_ready e (ok _) = (e, refl)
not_ready e (err x) = (x, refl)

-- Where `podman inspect` does not know the container of the workspace, no tool call answers what
-- its command does, even if `podman run` then starts the container: the answer has the exit code
-- -1, is not timed out, and is the same whatever the command puts out and however it ends.
pub run_toolbox-first :
    (utf8 : String → List ℕ) (text : Failure → List ℕ) (cfg : Config) (get : String → String)
    (world : World) (e : Failure)
    → world.inspected ≡ err e
    → ((run_toolbox utf8 text cfg get world).exit_code ≡ negsuc 0)
      × ((run_toolbox utf8 text cfg get world).timed_out ≡ false)
      × ((chunks : List (List ℕ)) (exit : Exit) (late : Bool)
          → run_toolbox utf8 text cfg get
              (record world { chunks = chunks; exit = exit; late = late })
            ≡ run_toolbox utf8 text cfg get world)
unfolding run_toolbox
run_toolbox-first utf8 text cfg get world e unknown =
    elim (Bool-cases (cfg.agent_tools.require_identity && not (identify_workspace get).found)) [
      | inl nobody ↦ (
        rw (nobody, run_toolbox) refl,
        rw (nobody, run_toolbox) refl,
        λ c x l. rw (nobody, run_toolbox) refl,
      )
      | inr known ↦ elim (Result-cases world.made) [
        | inr (f, unmade) ↦ (
          rw (known, unmade, run_toolbox) refl,
          rw (known, unmade, run_toolbox) refl,
          λ c x l. rw (known, unmade, run_toolbox) refl,
        )
        | inl (u, made) ↦
            let (f, refused) = not_ready e world.started in
            let down : ensure_toolbox_container world.inspected world.started ≡ err f =
              subst (λ x. ensure_toolbox_container x world.started ≡ err f) (sym unknown) refused in
            (
              rw (known, made, down, run_toolbox) refl,
              rw (known, made, down, run_toolbox) refl,
              λ c x l. rw (known, made, down, run_toolbox) refl,
            )
      ]
    ]

-- What the command does, its output, its end and its time, reaches the answer of a tool call only if
-- the command was admitted: an identity was found or is not required, the workspace was made, and
-- its container is ready.
pub run_toolbox-admitted :
    (utf8 : String → List ℕ) (text : Failure → List ℕ) (cfg : Config) (get : String → String)
    (world : World) (chunks : List (List ℕ)) (exit : Exit) (late : Bool)
    → run_toolbox utf8 text cfg get world
      ≢ run_toolbox utf8 text cfg get (record world { chunks = chunks; exit = exit; late = late })
    → ((cfg.agent_tools.require_identity && not (identify_workspace get).found) ≡ false)
      × (world.made ≡ ok tt)
      × (ensure_toolbox_container world.inspected world.started ≡ ok tt)
unfolding run_toolbox
run_toolbox-admitted utf8 text cfg get world chunks exit late differs =
    elim (Bool-cases (cfg.agent_tools.require_identity && not (identify_workspace get).found)) [
      | inl unknown ↦ absurd (differs (rw (unknown, run_toolbox) refl))
      | inr known ↦ elim (Result-cases world.made) [
        | inr (e, unmade) ↦ absurd (differs (rw (known, unmade, run_toolbox) refl))
        | inl (u, made) ↦
            elim (Result-cases (ensure_toolbox_container world.inspected world.started)) [
              | inr (e, down) ↦ absurd (differs (rw (known, made, down, run_toolbox) refl))
              | inl (v, ready) ↦ (known, made, ready)
            ]
      ]
    ]

cut : {R : Type 0} (n : ℕ) (rs : List R) → (if ltb n (length rs) then take n rs else rs) ≡ take n rs
cut n rs = elim (Bool-cases (ltb n (length rs))) [
  | inl e ↦ rw e refl
  | inr e ↦ rw e (sym (take_all n rs (ground arith)))
]

-- A search that is answered 200 with results has a query that is not blank, and gives at most as
-- many results as asked for, five where none were asked for and never more than ten, from the
-- front of what SearXNG found.
pub search-bounded :
    {R : Type 0} (query : String) (max_results : ℤ) (results shown : List R)
    → search (ok (query, max_results)) (ok (some results)) ≡ (200, found (some shown))
    → (str_eq (trim_space query) "" ≡ false)
      × (length shown ≤ pos_part (effective_results max_results))
      × (length shown ≤ 10)
      × (shown ≡ take (pos_part (effective_results max_results)) results)
unfolding search
search-bounded query max_results results shown h =
    elim (Bool-cases (str_eq (trim_space query) "")) [
      | inl blank ↦ absurd (cc (ap (λ y. y.0) (rw (blank, search) at h)))
      | inr filled ↦ elim (Bool-cases (ltb_ℤ n (pos 1) || ltb_ℤ (pos 10) n)) [
        | inl out ↦ absurd (cc (ap (λ y. y.0) (rw (filled, out, search) at h)))
        | inr within ↦
            let same : (if ltb k (length results) then take k results else results) ≡ shown =
              cc (ap (λ y. y.1) (rw (filled, within, search) at h)) in
            let prefix : shown ≡ take k results = sym same ∙ cut k results in
            let short : length shown ≤ k = rw prefix (omega (arith, length-take k results)) in
            (filled, short, omega (arith, at_most_ten n within), prefix)
      ]
    ]
  where
    n : ℤ
    n = effective_results max_results

    k : ℕ
    k = pos_part n

    at_most_ten : (z : ℤ) → (ltb_ℤ z (pos 1) || ltb_ℤ (pos 10) z) ≡ false → pos_part z ≤ 10
    at_most_ten z h = ground arith
