-- ===== src/Config/Accepted.antt =====
-- What a configuration that passes `Validate` is.
use llama_stack.Base.{
  Bool, true, false, not, ◌&&◌, ◌||◌, List, [], ◌∷◌, String, Result, ok, err, Failure, fail_if,
  ◌>>◌, str_eq, eq_iff, ◌≡◌, ◌⊎◌, refl, if◌then◌else◌, any, All, arith, SameEntries, sym, ◌∙◌,
  total, inl, inr, Bool-cases,
}
use llama_stack.Base.Int.{ℤ, pos, ltb_ℤ, leb_ℤ, ◌≤ℤ◌, ◌<ℤ◌}
use llama_stack.Base.Weights.{indicator}
use llama_stack.Config.{Config}
use llama_stack.Config.Validation.{
  validate, check_names, check_paths, check_ports, check_agent_tools, check_toolbox, is_abs,
  is_blank, outside, default_admin_group, service_names, managed_paths, port_map, file_paths, hosts,
}

-- A chain passes if its first check does not fail and the rest passes.
chain :
    (b : Bool) (e : Failure) (k : Result (Unit {0}))
    → (fail_if b e >> k) ≡ ok tt
    → (b ≡ false) × (k ≡ ok tt)
chain true e k h = absurd (cc h)
chain false e k h = (refl, h)

last : (b : Bool) (e : Failure) → fail_if b e ≡ ok tt → b ≡ false
last true e h = absurd (cc h)
last false e h = refl

then_ok : (r k : Result (Unit {0})) → (r >> k) ≡ ok tt → (r ≡ ok tt) × (k ≡ ok tt)
then_ok (ok tt) k h = (refl, h)
then_ok (err e) k h = absurd (cc h)

names-ok :
    (ps : List (String × String)) → check_names ps ≡ ok tt → All (λ p. is_blank p.1 ≡ false) ps
unfolding check_names
names-ok [] h = tt
names-ok (p ∷ ps) h = let (a, b) = chain _ _ _ h in (a, names-ok ps b)

negated : (b : Bool) → not b ≡ false → b ≡ true
negated true h = refl
negated false h = absurd (cc h)

paths-ok : (ps : List String) → check_paths ps ≡ ok tt → All (λ p. is_abs p ≡ true) ps
unfolding check_paths
paths-ok [] h = tt
paths-ok (p ∷ ps) h = let (a, b) = chain _ _ _ h in (negated _ a, paths-ok ps b)

ports-ok :
    (ps : List (String × ℤ))
    → check_ports ps ≡ ok tt
    → total (indicator (λ p. outside (pos 1) (pos 65535) p.1)) ps ≡ 0
unfolding check_ports
ports-ok [] h = refl
ports-ok (p ∷ ps) h =
    let (a, b) = chain (outside (pos 1) (pos 65535) p.1) _ _ h in
    rw a (omega (arith, ports-ok ps b))

abbrev pub InRange : ℤ → ℤ → ℤ → Type 0
InRange lo hi n = (lo ≤ℤ n) × (n ≤ℤ hi)

outside-false : (lo hi n : ℤ) → outside lo hi n ≡ false → InRange lo hi n
outside-false lo hi n h = ground arith

inside :
    (ps : List (String × ℤ))
    → total (indicator (λ p. outside (pos 1) (pos 65535) p.1)) ps ≡ 0
    → All (λ p. InRange (pos 1) (pos 65535) p.1) ps
inside [] h = tt
inside (p ∷ ps) h = elim (Bool-cases (outside (pos 1) (pos 65535) p.1)) [
  | inl e ↦ absurd (ground arith)
  | inr e ↦ (outside-false (pos 1) (pos 65535) p.1 e, inside ps (ground arith))
]

All-pass :
    {A : Type 0} (p : A → Bool) (xs : List A)
    → any (λ x. not (p x)) xs ≡ false
    → All (λ x. p x ≡ true) xs
All-pass p [] h = tt
All-pass p (x ∷ xs) h = (ground arith, All-pass p xs (ground arith))

either : (a b : Bool) → (a || b) ≡ false → (a ≡ false) × (b ≡ false)
either true b h = absurd (cc h)
either false b h = (refl, h)

at_least : (a b : ℤ) → ltb_ℤ a b ≡ false → b ≤ℤ a
at_least a b h = ground arith

above : (a b : ℤ) → leb_ℤ a b ≡ false → b <ℤ a
above a b h = ground arith

pool_lem :
    (lo hi : ℤ)
    → (ltb_ℤ lo (pos 1024) || ltb_ℤ hi lo || ltb_ℤ (pos 65535) hi) ≡ false
    → (pos 1024 ≤ℤ lo) × (lo ≤ℤ hi) × (hi ≤ℤ pos 65535)
pool_lem lo hi h = ground arith

times_lem :
    (ttl longest run user wait : ℤ)
    → (ltb_ℤ ttl (pos 1)
        || ltb_ℤ longest ttl
        || ltb_ℤ run (pos 1)
        || ltb_ℤ user run
        || ltb_ℤ wait (pos 0))
      ≡ false
    → (InRange (pos 1) longest ttl × (pos 0 ≤ℤ wait)) × InRange (pos 1) user run
times_lem ttl longest run user wait h = ground arith

jobs_lem :
    (a b c d : ℤ)
    → (ltb_ℤ a (pos 1) || ltb_ℤ b (pos 1) || ltb_ℤ c (pos 1) || ltb_ℤ d (pos 1)) ≡ false
    → (pos 1 ≤ℤ a) × (pos 1 ≤ℤ b) × (pos 1 ≤ℤ c) × (pos 1 ≤ℤ d)
jobs_lem a b c d h = ground arith

tools-ok :
    (parse_ip : String → Bool) (cfg : Config)
    → check_agent_tools parse_ip cfg ≡ ok tt
    → (parse_ip cfg.agent_tools.host ≡ true)
      × InRange (pos 1) (pos 65535) cfg.agent_tools.port
      × (pos 1024 ≤ℤ cfg.agent_tools.max_output)
unfolding check_agent_tools
tools-ok parse_ip cfg h =
    let (host, h) = chain _ _ _ h in
    let (port, h) = chain _ _ _ h in
    (
      negated _ host,
      outside-false (pos 1) (pos 65535) cfg.agent_tools.port port,
      at_least cfg.agent_tools.max_output (pos 1024) (last _ _ h),
    )

box-ok :
    (parse_ip : String → Bool) (cfg : Config)
    → check_toolbox parse_ip cfg ≡ ok tt
    → (str_eq cfg.toolbox.runtime "podman" ≡ true)
      × (is_blank cfg.toolbox.image ≡ false)
      × (is_blank cfg.llama.tools ≡ false)
unfolding check_toolbox
box-ok parse_ip cfg h =
    let (runtime, h) = chain _ _ _ h in
    let (image, tools) = either _ _ (last _ _ h) in (negated _ runtime, image, tools)

when : (b : Bool) (r : Result (Unit {0})) → (if b then r else ok tt) ≡ ok tt → b ≡ true → r ≡ ok tt
when true r h e = h
when false r h e = absurd (cc e)

unless : {P : Type 0} (b : Bool) → (b ≡ true → P) → (b ≡ false) ⊎ P
unless true h = inr (h refl)
unless false h = inl refl

implied : (a b : Bool) → (a && not b) ≡ false → a ≡ true → b ≡ true
implied a b h e = ground arith

one_of : (a x y : String) → (not (str_eq a x) && not (str_eq a y)) ≡ false → (a ≡ x) ⊎ (a ≡ y)
one_of a x y h = elim (Bool-cases (str_eq a x)) [
  | inl e ↦ inl ((eq_iff a x).0 e)
  | inr e ↦ inr ((eq_iff a y).0 (ground arith))
]

-- The conditions that the stack relies on, in the words of the configuration file.
pub record IsValid (parse_ip : String → Bool) (cfg : Config) : Type 0 where
  pub named : All (λ p. is_blank p.1 ≡ false) (service_names cfg)
  pub administered : str_eq cfg.stack.admin_group default_admin_group ≡ true
  pub managed : All (λ path. is_abs path ≡ true) (managed_paths cfg)
  pub filed : All (λ path. is_abs path ≡ true) (file_paths cfg)
  pub hosted : All (λ host. parse_ip host ≡ true) (hosts cfg)
  pub ported : All (λ p. InRange (pos 1) (pos 65535) p.1) (port_map cfg)
  pub tools :
      (cfg.agent_tools.enabled ≡ false)
      ⊎ ((is_abs cfg.agent_tools.api_key_file ≡ true)
          × (parse_ip cfg.agent_tools.host ≡ true)
          × InRange (pos 1) (pos 65535) cfg.agent_tools.port
          × (pos 1024 ≤ℤ cfg.agent_tools.max_output))
  pub boxed :
      (cfg.toolbox.enabled ≡ false)
      ⊎ ((str_eq cfg.toolbox.runtime "podman" ≡ true)
          × (is_blank cfg.toolbox.image ≡ false)
          × (is_blank cfg.llama.tools ≡ false))
  pub compacted :
      (cfg.open_webui.context_compaction_threshold <ℤ cfg.llama.context_size)
      × (cfg.open_webui.context_compaction_threshold ≤ℤ cfg.open_webui.context_compaction_token_cap)
  pub called :
      (cfg.open_webui.function_calling ≡ "native") ⊎ (cfg.open_webui.function_calling ≡ "legacy")
  pub pooled :
      (pos 1024 ≤ℤ cfg.ports.start)
      × (cfg.ports.start ≤ℤ cfg.ports.end)
      × (cfg.ports.end ≤ℤ pos 65535)
  pub timed :
      InRange (pos 1) cfg.ports.maximum_ttl cfg.ports.default_ttl
      × (pos 0 ≤ℤ cfg.ports.maximum_wait)
  pub limited : InRange (pos 1) cfg.ports.maximum_per_user cfg.ports.maximum_per_run
  pub polled :
      (pos 1 ≤ℤ cfg.jobs.poll_interval)
      × (pos 1 ≤ℤ cfg.jobs.recovery_timeout)
      × (pos 1 ≤ℤ cfg.jobs.database_lock_retries)
      × (pos 1 ≤ℤ cfg.jobs.database_lock_delay)

module _ (parse_ip : String → Bool) (visit : List (String × ℤ) → List (String × ℤ))
    (cfg : Config) where
  accepted :
      SameEntries (visit (port_map cfg)) (port_map cfg)
      → validate parse_ip visit cfg ≡ ok tt
      → IsValid parse_ip cfg
  unfolding validate
  accepted same h =
      let (names, h) = then_ok _ _ h in
      let (group, h) = chain _ _ _ h in
      let (paths, h) = then_ok _ _ h in
      let (files, h) = chain _ _ _ h in
      let (ips, h) = chain _ _ _ h in
      let (ports, h) = then_ok _ _ h in
      let (tools, h) = then_ok _ _ h in
      let (window, h) = chain _ _ _ h in
      let (calling, h) = chain _ _ _ h in
      let (cap, h) = chain _ _ _ h in
      let (box, h) = then_ok _ _ h in
      let (pool, h) = chain _ _ _ h in
      let (times, h) = chain _ _ _ h in
      let jobs = last _ _ h in
      record {
        named = names-ok (service_names cfg) names;
        administered = negated _ group;
        managed = paths-ok (managed_paths cfg) paths;
        filed = All-pass is_abs (file_paths cfg) (either _ _ files).0;
        hosted = All-pass parse_ip (hosts cfg) ips;
        ported = inside (port_map cfg) (sym (same _) ∙ ports-ok (visit (port_map cfg)) ports);
        tools = unless cfg.agent_tools.enabled λ e.
            let (host, port, output) = tools-ok parse_ip cfg (when _ _ tools e) in
            (implied _ _ (either _ _ files).1 e, host, port, output);
        boxed = unless cfg.toolbox.enabled λ e. box-ok parse_ip cfg (when _ _ box e);
        compacted = (
          above cfg.llama.context_size cfg.open_webui.context_compaction_threshold window,
          at_least cfg.open_webui.context_compaction_token_cap
              cfg.open_webui.context_compaction_threshold cap,
        );
        called = one_of cfg.open_webui.function_calling "native" "legacy" calling;
        pooled = pool_lem cfg.ports.start cfg.ports.end pool;
        timed =
            (times_lem cfg.ports.default_ttl cfg.ports.maximum_ttl cfg.ports.maximum_per_run
              cfg.ports.maximum_per_user cfg.ports.maximum_wait times).0;
        limited =
            (times_lem cfg.ports.default_ttl cfg.ports.maximum_ttl cfg.ports.maximum_per_run
              cfg.ports.maximum_per_user cfg.ports.maximum_wait times).1;
        polled =
            jobs_lem cfg.jobs.poll_interval cfg.jobs.recovery_timeout cfg.jobs.database_lock_retries
              cfg.jobs.database_lock_delay jobs;
      }

-- A configuration that `Validate` accepts has names and the administrative group, absolute paths,
-- hosts that are addresses, ports in range, agent tools and a toolbox that are complete where they
-- are enabled, compaction in the bounds of the context, a known mode of function calling, an
-- unprivileged ordered pool, and quotas, lifetimes and timings in order. The order in which the
-- map of ports is visited may be any.
pub validate-IsValid :
    (parse_ip : String → Bool) (visit : List (String × ℤ) → List (String × ℤ)) (cfg : Config)
    → SameEntries (visit (port_map cfg)) (port_map cfg)
    → validate parse_ip visit cfg ≡ ok tt
    → IsValid parse_ip cfg
validate-IsValid = accepted
