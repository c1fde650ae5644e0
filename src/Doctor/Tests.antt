-- ===== src/Doctor/Tests.antt =====
-- The theorem on the doctor, applied to a host where everything is in place.
use llama_stack.Base.{◌≡◌, ◌↔◌, refl, true, false, none, some, message, str_eq, if◌then◌else◌}
use llama_stack.Config.Samples.{raw}
use llama_stack.Doctor.{Host, healthy, run}
use llama_stack.Doctor.Required.{IsReady}
use llama_stack.Doctor.Sample.{host}
use llama_stack.Doctor.Ready.{run-IsReady}
use llama_stack.Base.Text.{has_prefix, trim_space, is_space}

healthy_run : healthy (run host raw) ≡ true
unfolding healthy run has_prefix trim_space is_space
healthy_run = refl

run-IsReady_example : (healthy (run host raw) ≡ true) ↔ IsReady host raw
run-IsReady_example = run-IsReady host raw

-- One service that is down is enough.
abbrev stopped : Host
stopped = record host {
  execute = λ command args. record {
    output = "CUDA0: GPU\n";
    failure = if str_eq command "systemctl" then some (message "exit status 3") else none;
    late = false;
  };
}

unhealthy_run : healthy (run stopped raw) ≡ false
unfolding healthy run has_prefix trim_space is_space
unhealthy_run = refl
