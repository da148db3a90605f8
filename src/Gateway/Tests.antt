-- ===== src/Gateway/Tests.antt =====
-- Runs of the gateway's parts, and their theorems at concrete inputs.
use mirasim2api.Base.{
  ℕ, ◌+◌, ◌*◌, ◌≡◌, ◌≢◌, ◌↔◌, refl, true, false, Option, some, none, lookup, number_key, List, [],
  ◌∷◌, Str, str, arith, str_beq, text_key, inl, ◌==◌, if◌then◌else◌,
}
use mirasim2api.Base.Int.{pos}
use mirasim2api.Base.Float.{micro}
use mirasim2api.Store.Rows.{ApiKey}
use mirasim2api.Pool.Entry.{second}
use mirasim2api.Gateway.RateLimit.{Limiter, allow, allowed, retry_seconds, refusal}
use mirasim2api.Gateway.RateLimit.Window.{Request, run, spec_run, run-eq-spec_run}
use mirasim2api.Gateway.Response.{messages, idle_writer}
use mirasim2api.Gateway.Auth.{Headers, authenticate}
use mirasim2api.Gateway.Auth.Admission.{admitted, MayCall, admitted-authenticate}
use mirasim2api.Base.Text.{trim_space}
use mirasim2api.Gateway.Slots.{Slotter, acquire}
use mirasim2api.Gateway.Slots.Bound.{acquire_resized}
use mirasim2api.Gateway.RateLimit.Retry.{retry_after_waits}

abbrev hit : ℕ → Request
hit t = record { key = str "k"; rpm = 2; at = t * second }

abbrev requests : List Request
requests = hit 1 ∷ hit 2 ∷ hit 3 ∷ hit 62 ∷ []

spec_run_runs : spec_run requests [] ≡ true ∷ true ∷ false ∷ true ∷ []
unfolding spec_run str_beq
spec_run_runs = refl

run-eq-spec_run_example : run requests [] ≡ spec_run requests []
run-eq-spec_run_example = run-eq-spec_run requests 0 (omega arith)

abbrev busy : Limiter
busy = (str "k", 5_000_000_000 ∷ []) ∷ []

retry_after_waits_example :
    (allow
      (str "k")
      1
      (6 * second + retry_seconds (59 * second) * second)
      (allow (str "k") 1 (6 * second) busy).1).0
    ≡ allowed
retry_after_waits_example =
    retry_after_waits (str "k") 1 (6 * second) (59 * second) busy
      (unfold allow refusal str_beq in refl) (unfold str_beq in omega arith)

abbrev full_slot : Slotter
full_slot = record {
  chans = (str "k", 0) ∷ [];
  memory = (0, record { capacity = 1; held = 1 }) ∷ [];
  next = 1;
}

acquire_resized_example :
    ((acquire (str "k") 2 full_slot).0 ≡ some 1)
    × (lookup 0 (acquire (str "k") 2 full_slot).1.memory ≡ some (record { capacity = 1; held = 1 }))
acquire_resized_example =
    acquire_resized (str "k") 2 0 (record { capacity = 1; held = 1 }) full_slot
      (unfold str_beq in refl) refl (λ e. absurd (omega (arith, e)))
      (λ e. absurd (omega (arith, e))) (omega arith)

abbrev headers : Headers
headers = record { authorization = str "Bearer sk-1"; x_api_key = [] }

abbrev caller : ApiKey ℕ
caller = record {
  id = str "k";
  name = str "n";
  key_display = str "sk-1";
  enabled = true;
  concurrency = pos 1;
  rate_limit_rpm = 1;
  model_allowlist = str "m" ∷ [];
  total_input_tokens = 0;
  total_output_tokens = 0;
  total_cost = 0;
  expires_at = some (pos 9);
  created_at = 0;
  last_used_at = none;
}

abbrev find_caller : Str → Option (ApiKey ℕ)
find_caller s = if s == str "sk-1" then some caller else none

admitted-authenticate_example :
    let who = admitted (authenticate true find_caller 5 headers messages (str "m") idle_writer) in
    ((key : ApiKey ℕ)
      → (who ≡ some (some key))
        ↔ ((str "sk-1" ≢ []) × (find_caller (str "sk-1") ≡ some key) × MayCall 5 (str "m") key))
    × ((who ≡ some none) ↔ ((str "sk-1" ≡ []) × (true ≡ false)))
admitted-authenticate_example =
    admitted-authenticate true find_caller 5 headers messages (str "m") idle_writer (str "sk-1")
      (inl (str "sk-1", refl, unfold trim_space in refl))
