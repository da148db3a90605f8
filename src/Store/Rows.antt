-- ===== src/Store/Rows.antt =====
-- internal/store/store.go: the rows of the tables. `R` is the type of float64.
use mirasim2api.Base.{ℕ, Bool, Option, List, Str}
use mirasim2api.Base.Int.{ℤ}

pub record ApiKey (R : Type 0) : Type 0 where
  pub id : Str
  pub name : Str
  pub key_display : Str
  pub enabled : Bool
  pub concurrency : ℤ
  pub rate_limit_rpm : ℕ
  pub model_allowlist : List Str
  pub total_input_tokens : ℕ
  pub total_output_tokens : ℕ
  pub total_cost : R
  pub expires_at : Option ℤ
  pub created_at : ℕ
  pub last_used_at : Option ℕ

pub record UsageLog (R : Type 0) : Type 0 where
  pub id : ℕ
  pub api_key_id : Str
  pub account_id : Str
  pub model : Str
  pub endpoint : Str
  pub input_tokens : ℕ
  pub output_tokens : ℕ
  pub cached_tokens : ℕ
  pub cost : R
  pub status : ℕ
  pub err : Str
  pub duration_ms : ℕ
  pub created_at : ℕ
