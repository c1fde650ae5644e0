-- ===== src/Privilege/Tests.antt =====
-- The theorem on `RequireAdmin`, applied to a sudo user.
use llama_stack.Base.{ℕ, ◌≡◌, ◌⊎◌, refl, true, ◌||◌, [], ◌∷◌, String, ok, str_eq}
use llama_stack.Privilege.{
  Directory, IsMember, require_admin, require_group_membership, require_admin-IsMember,
}

abbrev directory : Directory String
directory = record {
  lookup = λ name. ok name;
  lookup_group = λ name. ok "950";
  group_ids = λ account. ok ("1000" ∷ "950" ∷ []);
}

abbrev root : ℕ
root = 0

permitted : require_admin directory root "ada" "llama-stack-admins" ≡ ok tt
unfolding require_admin require_group_membership
permitted = refl

require_admin-IsMember_example :
    (root ≡ 0)
    × ((str_eq "ada" "" || str_eq "ada" "root" ≡ true)
        ⊎ IsMember directory "ada" "llama-stack-admins")
require_admin-IsMember_example =
    require_admin-IsMember directory root "ada" "llama-stack-admins" permitted
