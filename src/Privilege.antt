-- ===== src/Privilege.antt =====
-- internal/privilege/privilege.go: who may run the commands that change the system. The lookups of
-- os/user are an argument.
mod Tests
use llama_stack.Base.{
  ℕ, ◌≡◌, refl, sym, ap, ◌∙◌, Bool, true, false, not, ◌&&◌, ◌||◌, List, [], ◌∷◌, String, Result, ok,
  err, Failure, errorf, message, ◌==◌, str_eq, any, if◌then◌else◌, ◌>>=◌, ◌>>◌, fail_if, inl, inr,
  ◌⊎◌, Bool-cases, Result-cases, arith, parts_of_ok, ==_iff,
}

-- `user.Lookup`, `user.LookupGroup` with the identifier of the group, and `GroupIds`.
pub record Directory (Account : Type 0) : Type 0 where
  pub lookup : String → Result Account
  pub lookup_group : String → Result String
  pub group_ids : Account → Result (List String)

abbrev pub contains : List String → String → Bool
contains groups group = any (λ g. str_eq g group) groups

module _ {Account : Type 0} (directory : Directory Account) where
  open directory use {lookup, lookup_group, group_ids}

  -- `requireGroupMembership`.
  unfoldable pub require_group_membership : String → String → Result (Unit {0})
  require_group_membership username group_name = do
    account ← lookup username
    group ← lookup_group group_name
    groups ← group_ids account
    fail_if (not (contains groups group)) (message "sudo user is not a member of the group")

  -- `RequireAdmin`, for the effective user and `SUDO_USER`.
  unfoldable pub require_admin : ℕ → String → String → Result (Unit {0})
  unfolding require_group_membership
  require_admin euid sudo_user group_name =
      if not (euid == 0)
      then err (message "this command changes system state; rerun it with sudo")
      else if str_eq sudo_user "" || str_eq sudo_user "root"
      then ok tt
      else require_group_membership sudo_user group_name

-- A user of the directory who is in a group.
pub record IsMember {Account : Type 0} (directory : Directory Account)
    (username group_name : String) : Type 0 where
  pub account : Account
  pub group : String
  pub groups : List String
  pub known : directory.lookup username ≡ ok account
  pub named : directory.lookup_group group_name ≡ ok group
  pub listed : directory.group_ids account ≡ ok groups
  pub member : contains groups group ≡ true

fail_if-ok : (b : Bool) (e : Failure) → fail_if b e ≡ ok tt → b ≡ false
fail_if-ok true e h = absurd (cc h)
fail_if-ok false e h = refl

membership :
    {Account : Type 0} (directory : Directory Account) (username group_name : String)
    → require_group_membership directory username group_name ≡ ok tt
    → IsMember directory username group_name
unfolding require_group_membership
membership directory username group_name h =
    let (account, known, h₁) = parts_of_ok (directory.lookup username) _ h in
    let (group, named, h₂) = parts_of_ok (directory.lookup_group group_name) _ h₁ in
    let (groups, listed, h₃) = parts_of_ok (directory.group_ids account) _ h₂ in
    let b : not (contains groups group) ≡ false = fail_if-ok _ _ h₃ in
    record {
      account = account;
      group = group;
      groups = groups;
      known = known;
      named = named;
      listed = listed;
      member = ground arith;
    }

-- `RequireAdmin` permits a command only to the effective user root, who acts directly, as its own
-- sudo user, or for a sudo user whom the directory lists in the administrative group.
pub require_admin-IsMember :
    {Account : Type 0} (directory : Directory Account) (euid : ℕ) (sudo_user group_name : String)
    → require_admin directory euid sudo_user group_name ≡ ok tt
    → (euid ≡ 0)
      × ((str_eq sudo_user "" || str_eq sudo_user "root" ≡ true)
          ⊎ IsMember directory sudo_user group_name)
unfolding require_admin
require_admin-IsMember directory euid sudo_user group_name h = elim (Bool-cases (euid == 0)) [
  | inr other ↦ absurd (cc (rw (other, require_admin) at h))
  | inl root ↦ (
    (==_iff euid 0).0 root,
    elim (Bool-cases (str_eq sudo_user "" || str_eq sudo_user "root")) [
      | inl direct ↦ inl direct
      | inr through ↦
          inr (membership directory sudo_user group_name (rw (root, through, require_admin) at h))
    ],
  )
]
