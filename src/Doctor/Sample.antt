-- ===== src/Doctor/Sample.antt =====
-- A host where everything that the sample configuration asks for is in place.
use llama_stack.Base.{Bool, false, none, String, ok, str_eq, any, [], ◌∷◌}
use llama_stack.Doctor.{Host}

-- The directories of the sample configuration.
abbrev pub is_folder : String → Bool
is_folder path = any (str_eq path) (
    "/var/lib/llama-stack" ∷ "/var/cache/llama-stack" ∷ "/srv/models" ∷ "/srv/users"
    ∷ "/srv/artifacts" ∷ "/var/lib/llama-stack/open-webui" ∷ [])

abbrev pub host : Host
host = record {
  read_file = λ path. ok "NAME=\"Fedora Linux\"\nID=fedora\nVERSION_ID=44\n";
  stat = λ path. ok (record { is_dir = is_folder path; perm = 0x1ed });
  execute = λ command args. record { output = "CUDA0: GPU\n"; failure = none; late = false };
  error = λ e. "failed";
  is_permission = λ e. false;
  octal = λ n. "0";
}
