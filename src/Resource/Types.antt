-- ===== src/Resource/Types.antt =====
-- internal/resource/types.go, and the times of package `time`.
use llama_stack.Base.{ℕ, ◌+◌, ◌-◌, Bool, List, String, ltb}
use llama_stack.Base.Int.{ℤ, pos_part, neg_part}

-- An instant in nanoseconds; 0 is the zero `time.Time`.
abbrev pub Time : Type 0
Time = ℕ

-- A `time.Duration`, in nanoseconds.
abbrev pub Duration : Type 0
Duration = ℤ

abbrev pub second : ℕ
second = 1000000000

-- `t.Add(d)`; no instant of the program lies before the zero time.
abbrev pub add : Time → Duration → Time
add t d = t + pos_part d - neg_part d

-- `a.After(b)`, and SQL's `a > b`.
abbrev pub after : Time → Time → Bool
after a b = ltb b a

pub record Config : Type 0 where
  pub port_start : ℕ
  pub port_end : ℕ
  pub default_ttl : Duration
  pub maximum_ttl : Duration
  pub maximum_run : ℕ
  pub maximum_user : ℕ

pub record Capability : Type 0 where
  pub id : String
  pub hash : String
  pub user_id : String
  pub run_id : String
  pub workspace_id : String
  pub target_host : String
  pub expires_at : Time

pub record Port : Type 0 where
  pub host_port : ℕ
  pub target_port : ℤ

pub record Lease : Type 0 where
  pub id : String
  pub user_id : String
  pub run_id : String
  pub workspace_id : String
  pub target_host : String
  pub ports : List Port
  pub created_at : Time
  pub expires_at : Time
