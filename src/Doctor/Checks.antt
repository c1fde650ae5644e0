-- ===== src/Doctor/Checks.antt =====
-- Each check of internal/doctor/doctor.go, and what it says of the host where it does not fail.
use Prim.Native.Nat.{bit_and}
use llama_stack.Base.{
  ℕ, ◌≡◌, ◌↔◌, inl, inr, refl, true, false, List, [], ◌∷◌, String, Bool-cases, Result-cases,
  Option-cases, All, str_eq, eq_iff, ◌==◌,
}
use llama_stack.Base.Text.{trim_space}
use llama_stack.Base.Split.{contains_text}
use llama_stack.Doctor.{
  Check, Host, is_failed, healthy, field, run_process, check_operating_system, check_command,
  check_file, check_directory, check_llama_devices, check_service, check_release,
}
use llama_stack.Doctor.Required.{Runs, IsFedora, IsUsable, IsDirectory, HasDevices, IsActive}

abbrev pub Fine : Check → Type 0
Fine check = is_failed check.status ≡ false

pub healthy_iff : (checks : List Check) → (healthy checks ≡ true) ↔ All Fine checks
unfolding healthy
healthy_iff [] = (λ h. tt, λ h. refl)
healthy_iff (check ∷ checks) = (
  λ h. elim (Bool-cases (is_failed check.status)) [
    | inl bad ↦ absurd (cc (rw (bad, healthy) at h))
    | inr good ↦ (good, (healthy_iff checks).0 (rw (good, healthy) at h))
  ],
  λ h. rw (h.0, healthy) ((healthy_iff checks).1 h.1),
)

module _ (host : Host) where
  pub Fine-check_release :
      (id version : String) → Fine (check_release host id version) ↔ (id ≡ "fedora")
  Fine-check_release id version = elim (Bool-cases (str_eq id "fedora")) [
    | inr other ↦ (λ h. absurd (cc (rw other at h)), λ h. absurd (cc ((eq_iff _ _).1 h)))
    | inl same ↦ elim (Bool-cases (str_eq version "44")) [
      | inl here ↦ (λ h. (eq_iff _ _).0 same, λ h. rw (same, here) refl)
      | inr old ↦ (λ h. (eq_iff _ _).0 same, λ h. rw (same, old) refl)
    ]
  ]

  pub Fine-check_operating_system : Fine (check_operating_system host) ↔ (IsFedora host)
  unfolding check_operating_system
  Fine-check_operating_system = elim (Result-cases (host.read_file "/etc/os-release")) [
    | inr (e, broken) ↦ rw (broken, check_operating_system) (λ h. cc, λ h. absurd h)
    | inl (contents, found) ↦
        rw (found, check_operating_system)
          (Fine-check_release (field "ID" contents) (field "VERSION_ID" contents))
  ]

  pub Fine-check_command :
      (name command : String) (args : List String)
      → Fine (check_command host name command args) ↔ Runs host command args
  unfolding check_command run_process
  Fine-check_command name command args = elim (Option-cases (host.execute command args).failure) [
    | inl fine ↦ rw (fine, check_command, run_process) (λ h. refl, λ h. refl)
    | inr (e, broken) ↦ rw (broken, check_command, run_process) (λ h. cc, λ h. cc)
  ]

  pub Fine-check_service : (unit : String) → Fine (check_service host unit) ↔ IsActive host unit
  unfolding check_service run_process
  Fine-check_service unit =
      elim (Option-cases (host.execute "systemctl" ("is-active" ∷ "--quiet" ∷ unit ∷ [])).failure) [
        | inl fine ↦ rw (fine, check_service, run_process) (λ h. refl, λ h. refl)
        | inr (e, broken) ↦ rw (broken, check_service, run_process) (λ h. cc, λ h. cc)
      ]

  pub Fine-check_file :
      (name path : String) (required : ℕ)
      → Fine (check_file host name path required) ↔ IsUsable host path required
  unfolding check_file
  Fine-check_file name path required = elim (Result-cases (host.stat path)) [
    | inr (e, broken) ↦ elim (Bool-cases (host.is_permission e)) [
      | inl hidden ↦ rw (broken, check_file) (rw hidden (λ h. refl, λ h. refl))
      | inr gone ↦ rw (broken, check_file) (rw gone (λ h. cc, λ h. cc))
    ]
    | inl (info, found) ↦
        rw (found, check_file)
          (elim (Bool-cases info.is_dir) [
            | inl folder ↦ (λ h. absurd (cc (rw folder at h)), λ h. absurd (cc (h.0)))
            | inr plain ↦ elim (Bool-cases (bit_and info.perm required == 0)) [
              | inl lacks ↦ (λ h. absurd (cc (rw (plain, lacks) at h)), λ h. absurd (cc (h.1)))
              | inr has ↦ (λ h. (plain, has), λ h. rw (plain, has) refl)
            ]
          ])
  ]

  pub Fine-check_directory :
      (path : String) → Fine (check_directory host path) ↔ IsDirectory host path
  unfolding check_directory
  Fine-check_directory path = elim (Result-cases (host.stat path)) [
    | inr (e, broken) ↦ rw (broken, check_directory) (λ h. cc, λ h. absurd h)
    | inl (info, found) ↦
        rw (found, check_directory)
          (elim (Bool-cases info.is_dir) [
            | inl folder ↦ (λ h. folder, λ h. rw folder refl)
            | inr plain ↦ (λ h. absurd (cc (rw plain at h)), λ h. absurd (cc h))
          ])
  ]

  pub Fine-check_llama_devices :
      (binary : String) → Fine (check_llama_devices host binary) ↔ HasDevices host binary
  unfolding check_llama_devices run_process
  Fine-check_llama_devices binary = elim (Result-cases (host.stat binary)) [
    | inr (e, broken) ↦ rw (broken, check_llama_devices) (λ h. cc, λ h. absurd (cc (h.0)))
    | inl (info, found) ↦
        elim (Option-cases (host.execute binary ("--list-devices" ∷ [])).failure) [
          | inr (e, broken) ↦
              rw (found, broken, check_llama_devices, run_process) (λ h. cc, λ h. absurd (cc (h.1)))
          | inl fine ↦
              rw (found, fine, check_llama_devices, run_process)
                (elim (Bool-cases (
                  contains_text (trim_space (host.execute binary ("--list-devices" ∷ [])).output)
                    "CUDA")) [
                      | inl seen ↦ (λ h. (refl, refl, seen), λ h. rw seen refl)
                      | inr blind ↦ (λ h. absurd (cc (rw blind at h)), λ h. absurd (cc (h.2)))
                    ])
        ]
  ]
