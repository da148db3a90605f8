-- ===== src/Config.antt =====
-- internal/config/config.go: the configuration from the environment, and the master key. `getenv` is
-- `os.Getenv`; `atoi`, `parse_bool` and the hex coding are the standard library's.
pub mod Key
mod Tests
use mirasim2api.Base.{
  ℕ, Bool, true, false, not, Option, none, some, [], ◌∷◌, Str, str, ◌==◌, if◌then◌else◌, length,
  number_key, ◌>>=◌,
}
use mirasim2api.Base.Int.{ℤ, pos}
use mirasim2api.Base.Text.{trim_space}
use mirasim2api.Mirasim.Request.{
  default_relay_url, default_auth_url, default_client_version, default_seal_pubkey,
}
use mirasim2api.Pool.Pick.{is_empty}

pub record Config : Type 0 where
  pub port : ℤ
  pub host : Str
  pub data_dir : Str
  pub master_key : Str
  pub admin_password : Str
  pub gateway_key_required : Bool
  pub relay_url : Str
  pub auth_url : Str
  pub client_version : Str
  pub seal_pubkey : Str
  pub upstream_proxy : Str
  pub claude_cloak_mode : Str
  pub capacity_retries : ℤ
  pub capacity_backoff_ms : ℤ
  pub account_max_concurrency : ℤ

pub record Os : Type 0 where
  pub getenv : Str → Str
  pub atoi : Str → Option ℤ
  pub parse_bool : Str → Option Bool
  pub hex : Str → Str
  pub unhex : Str → Option Str

unfoldable pub env : Os → (key default : Str) → Str
env os key default = let v = trim_space (os.getenv key) in if not (is_empty v) then v else default

unfoldable pub env_int : Os → (key : Str) → (default : ℤ) → Option ℤ
env_int os key default =
    let v = trim_space (os.getenv key) in if is_empty v then some default else os.atoi v

unfoldable pub env_bool : Os → (key : Str) → (default : Bool) → Bool
env_bool os key default =
    let v = trim_space (os.getenv key) in
    if is_empty v then default else elim (os.parse_bool v) [ none ↦ default | some b ↦ b ]

-- The file `master.key`, as `os.ReadFile` finds it.
pub data KeyFile : Type 0 where
  absent unreadable : KeyFile
  contents : Str → KeyFile

-- What `os.WriteFile` does: it writes, or fails and leaves something.
pub data Write : Type 0 where
  written : Write
  write_fails : (left : KeyFile) → Write

pub data KeyResult : Type 0 where
  not_hex bad_length no_directory not_written : KeyResult
  master : Str → KeyResult

unfoldable pub decode_key : Os → Str → KeyResult
decode_key os text = elim (os.unhex text) [
  | none ↦ not_hex
  | some key ↦ if not (length key == 32) then bad_length else master key
]

-- A new key: `drawn` is what `rand` answers, and `makes` whether the directory is there.
unfoldable pub create_key :
    Os → (makes : Bool) → (drawn : Str) → Write → KeyFile → KeyFile × KeyResult
create_key os false drawn w file = (file, no_directory)
create_key os true drawn written file = (contents (os.hex drawn), master drawn)
create_key os true drawn (write_fails left) file = (left, not_written)

-- Any error of the reading makes a new key.
unfoldable pub read_or_create :
    Os → (makes : Bool) → (drawn : Str) → Write → KeyFile → KeyFile × KeyResult
read_or_create os makes drawn w (contents raw) = (contents raw, decode_key os (trim_space raw))
read_or_create os makes drawn w absent = create_key os makes drawn w absent
read_or_create os makes drawn w unreadable = create_key os makes drawn w unreadable

unfoldable pub load_or_create_master_key :
    Os → (env_key : Str) → (makes : Bool) → (drawn : Str) → Write → KeyFile → KeyFile × KeyResult
load_or_create_master_key os env_key makes drawn w file =
    let v = trim_space env_key in
    if not (is_empty v) then (file, decode_key os v) else read_or_create os makes drawn w file

pub record Integers : Type 0 where
  pub port : ℤ
  pub retries : ℤ
  pub backoff_ms : ℤ
  pub account_concurrency : ℤ

unfoldable pub load_integers : Os → Option Integers
load_integers os = do
  port ← env_int os (str "PORT") (pos 8787)
  retries ← env_int os (str "CAPACITY_RETRIES") (pos 2)
  backoff_ms ← env_int os (str "CAPACITY_BACKOFF_MS") (pos 1200)
  account_concurrency ← env_int os (str "ACCOUNT_MAX_CONCURRENCY") (pos 5)
  some (record {
    port = port;
    retries = retries;
    backoff_ms = backoff_ms;
    account_concurrency = account_concurrency;
  })

unfoldable pub config_of : Os → Integers → (key : Str) → Config
config_of os n key = record {
  port = n.port;
  host = env os (str "HOST") (str "0.0.0.0");
  data_dir = env os (str "DATA_DIR") (str "./data");
  master_key = key;
  admin_password = os.getenv (str "ADMIN_PASSWORD");
  gateway_key_required = env_bool os (str "GATEWAY_KEY_REQUIRED") true;
  relay_url = env os (str "RELAY_URL") default_relay_url;
  auth_url = env os (str "AUTH_URL") default_auth_url;
  client_version = env os (str "MIRASIM_CLIENT_VERSION") default_client_version;
  seal_pubkey = env os (str "MIRASIM_SEAL_PUBKEY") default_seal_pubkey;
  upstream_proxy = env os (str "UPSTREAM_PROXY") [];
  claude_cloak_mode = env os (str "CLAUDE_CLOAK_MODE") (str "relaxed");
  capacity_retries = n.retries;
  capacity_backoff_ms = n.backoff_ms;
  account_max_concurrency = n.account_concurrency;
}

-- A configuration, if the key was found or made.
unfoldable pub with_key : Os → Integers → KeyResult → Option Config
with_key os n (master key) = some (config_of os n key)
with_key os n failure = none

unfoldable pub load_with :
    Os → Integers → (makes : Bool) → (drawn : Str) → Write → KeyFile → KeyFile × Option Config
load_with os n makes drawn w file =
    let (file', key) =
      load_or_create_master_key os (os.getenv (str "MASTER_KEY")) makes drawn w file in
    (file', with_key os n key)

-- The integers are read before the key, so an integer that does not parse leaves the file alone.
unfoldable pub load :
    Os → (makes : Bool) → (drawn : Str) → Write → KeyFile → KeyFile × Option Config
load os makes drawn w file = elim (load_integers os) [
  | none ↦ (file, none)
  | some n ↦ load_with os n makes drawn w file
]
