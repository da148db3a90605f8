-- ===== src/Config/Tests.antt =====
-- The theorems on the configuration and the start at concrete inputs.
use mirasim2api.Base.{
  ℕ, zero, suc, ◌+◌, ◌≡◌, refl, ap, ap₂, ◌∙◌, ◌⊎◌, true, false, none, some, List, [], ◌∷◌, Str, str,
  str_beq, arith, ◌==◌, if◌then◌else◌, length, replicate, all_b, number_key, text_key,
}
use mirasim2api.Base.Int.{pos}
use mirasim2api.Base.Text.{trim_space, is_visible, all_space, space_width}
use mirasim2api.Pool.Pick.{is_empty}
use mirasim2api.Config.{
  Os, absent, written, load, load_with, load_integers, env, env_int, config_of, with_key,
  load_or_create_master_key, read_or_create, create_key, Integers,
}
use mirasim2api.Config.Key.{IsHex, load_again}
use mirasim2api.Gateway.RateLimit.Window.{Request, spec_run}
use mirasim2api.Server.Routes.{
  Route, route_of, decisions, on_v1, on_bare, fresh_limiters, decisions-eq-spec_run,
}
use mirasim2api.Server.{Net, Steps, listening, run, start_with}
use mirasim2api.Server.Gate.{IsLocal, run_guarded}

-- A byte is as many ones as it counts, and a zero.
ones : ℕ → Str → Str
ones zero s = s
ones (suc n) s = 49 ∷ ones n s

unfoldable pub unary : Str → Str
unfolding ones
unary [] = []
unary (c ∷ s) = ones c (48 ∷ unary s)

unfoldable pub read_unary : ℕ → Str → Str
read_unary n [] = []
read_unary n (c ∷ s) =
    let more = read_unary (suc n) s in
    let next = n ∷ read_unary 0 s in if c == 49 then more else next

read_unary-ones : (n c : ℕ) (s : Str) → read_unary n (ones c (48 ∷ s)) ≡ (c + n) ∷ read_unary 0 s
unfolding read_unary ones
read_unary-ones n zero s = ap (λ k. k ∷ read_unary 0 s) (omega arith)
read_unary-ones n (suc c) s =
    read_unary-ones (suc n) c s ∙ ap (λ k. k ∷ read_unary 0 s) (omega arith)

read_unary-unary : (s : Str) → read_unary 0 (unary s) ≡ s
unfolding unary read_unary
read_unary-unary [] = refl
read_unary-unary (c ∷ s) =
    read_unary-ones 0 c (unary s) ∙ ap₂ ◌∷◌ (omega arith) (read_unary-unary s)

visible-ones : (c : ℕ) (s : Str) → all_b is_visible s ≡ true → all_b is_visible (ones c s) ≡ true
unfolding ones
visible-ones zero s h = h
visible-ones (suc c) s h = ground (arith, visible-ones c s h)

visible-unary : (s : Str) → all_b is_visible (unary s) ≡ true
unfolding unary
visible-unary [] = refl
visible-unary (c ∷ s) = visible-ones c (48 ∷ unary s) (ground (arith, visible-unary s))

-- An environment in which only the password and the host are set.
abbrev os : Os
os = record {
  getenv = λ key.
      if key == str "ADMIN_PASSWORD" then str "pw" else if key == str "HOST" then str "h" else [];
  atoi = λ s. none;
  parse_bool = λ s. none;
  hex = unary;
  unhex = λ s. some (read_unary 0 s);
}

os-IsHex : IsHex os
os-IsHex = record { unhex_hex = λ s. ap some (read_unary-unary s); visible_hex = visible-unary }

abbrev drawn : Str
drawn = replicate 32 0

abbrev integers : Integers
integers = record {
  port = pos 8787;
  retries = pos 2;
  backoff_ms = pos 1200;
  account_concurrency = pos 5;
}

first_load : (load os true drawn written absent).1 ≡ some (config_of os integers drawn)
unfolding load load_integers env_int trim_space str_beq load_with with_key load_or_create_master_key
    read_or_create create_key
first_load = refl

load_again_example :
    (length drawn ≡ 32)
    × (is_empty (config_of os integers drawn).host ≡ false)
    × (load os true [] written (load os true drawn written absent).0
        ≡ ((load os true drawn written absent).0, some (config_of os integers drawn)))
unfolding config_of
load_again_example =
    load_again os true true drawn [] written written absent (config_of os integers drawn) os-IsHex
      refl first_load

abbrev net : Net
net = record {
  parse_ip = λ s. none;
  is_loopback_ip = λ s. false;
  join_host_port = λ host port. host;
  itoa = λ n. [];
}

abbrev steps : Steps
steps = record {
  store_opens = true;
  device = some (record { priv = []; device_id = []; public_key_b64 = [] });
  listens = λ addr. true;
}

runs :
    (run net os steps true drawn written absent).1
    ≡ listening (config_of os integers drawn) (str "h")
unfolding run start_with config_of env all_space space_width load load_integers env_int trim_space
    str_beq load_with with_key load_or_create_master_key read_or_create create_key
runs = refl

run_guarded_example :
    (is_empty (config_of os integers drawn).admin_password ≡ false)
    ⊎ IsLocal net (config_of os integers drawn).host
run_guarded_example =
    run_guarded net os steps true drawn written absent (config_of os integers drawn) (str "h") runs

-- One request a minute, sent once under each path.
abbrev sent : ℕ → Request
sent t = record { key = str "k"; rpm = 1; at = t }

abbrev both_paths : List (Route × Request)
both_paths = (route_of (str "/v1/messages"), sent 1) ∷ (route_of (str "/messages"), sent 2) ∷ []

decisions-eq-spec_run_example :
    (on_v1 (decisions both_paths fresh_limiters) ≡ spec_run (on_v1 both_paths) [])
    × (on_bare (decisions both_paths fresh_limiters) ≡ spec_run (on_bare both_paths) [])
decisions-eq-spec_run_example = decisions-eq-spec_run both_paths 0 (omega arith, (omega arith, tt))
