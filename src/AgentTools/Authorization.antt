-- ===== src/AgentTools/Authorization.antt =====
-- Which headers `authorize` of cmd/llama-stack-agent-tools/main.go lets through.
use Prim.Native.String.{◌++◌}
use llama_stack.Base.{
  ◌≡◌, refl, ap, sym, ◌∙◌, false, String, message, str_eq, eq_iff, Bool-cases, Option-cases, inl,
  inr, ◌⊎◌,
}
use llama_stack.Base.Text.{trim_prefix, strip_prefix, has_prefix, is_some, or_else}
use llama_stack.Base.Prefix.{strip_prefix-eq, trim_prefix-append}
use llama_stack.AgentTools.Service.{Response, failed, authorize}

-- The key behind the prefix, or the bare key where it does not begin with the prefix itself.
abbrev pub Carries : String → String → Type 0
Carries api_key header =
    (header ≡ "Bearer " ++ api_key) ⊎ ((header ≡ api_key) × (has_prefix header "Bearer " ≡ false))

carried :
    (api_key header : String) → trim_prefix header "Bearer " ≡ api_key → Carries api_key header
unfolding trim_prefix has_prefix
carried api_key header e = elim (Option-cases (strip_prefix "Bearer " header)) [
  | inl bare ↦ inr (sym (ap (λ o. or_else o header) bare) ∙ e, ap is_some bare)
  | inr (rest, found) ↦ inl (
      strip_prefix-eq "Bearer " header rest found
      ∙ ap (λ r. "Bearer " ++ r) (sym (ap (λ o. or_else o header) found) ∙ e))
]

Carries-key :
    (api_key header : String) → Carries api_key header → trim_prefix header "Bearer " ≡ api_key
unfolding trim_prefix has_prefix
Carries-key api_key header (inl bearer) =
    ap (λ h. trim_prefix h "Bearer ") bearer ∙ trim_prefix-append "Bearer " api_key
Carries-key api_key header (inr (same, bare)) =
    elim (Option-cases (strip_prefix "Bearer " header)) [
      | inl none_found ↦ ap (λ o. or_else o header) none_found ∙ same
      | inr (rest, found) ↦ absurd (cc (sym bare ∙ ap is_some found))
    ]

-- A request reaches the tools exactly if its header is `Bearer ` with the key, or the bare key that
-- does not begin with `Bearer `; any other is answered 401. With an empty key a request without
-- the header reaches them, too.
pub authorize-Carries :
    {R : Type 0} (api_key header : String) (next : Response R)
    → (Carries api_key header × (authorize api_key header next ≡ next))
      ⊎ ((¬ Carries api_key header)
          × (authorize api_key header next ≡ (401, failed (message "unauthorized"))))
unfolding authorize
authorize-Carries api_key header next =
    elim (Bool-cases (str_eq (trim_prefix header "Bearer ") api_key)) [
      | inl same ↦ inl (carried api_key header ((eq_iff _ _).0 same), rw (same, authorize) refl)
      | inr other ↦ inr (
        λ h. absurd (cc (sym other ∙ (eq_iff _ _).1 (Carries-key api_key header h))),
        rw (other, authorize) refl,
      )
    ]
