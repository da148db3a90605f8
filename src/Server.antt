-- ===== src/Server.antt =====
-- internal/server/server.go: the start of the service, up to the listening socket. What the steps
-- answer is an argument.
pub mod Gate
pub mod Routes
use mirasim2api.Base.{
  Bool, true, false, not, ◌&&◌, ◌||◌, Option, none, some, List, [], ◌∷◌, ◌++◌, Str, str, ◌==◌,
  if◌then◌else◌, Map, text_key,
}
use mirasim2api.Base.Int.{ℤ}
use mirasim2api.Pool.Pick.{is_empty}
use mirasim2api.Store.Device.{DeviceKey}
use mirasim2api.Store.Settings.{Accessor, get}
use mirasim2api.Config.{Config, Os, KeyFile, Write, load}

-- `net.ParseIP`, and `IsLoopback` of what it finds.
pub record Net : Type 0 where
  pub parse_ip : Str → Option Str
  pub is_loopback_ip : Str → Bool
  pub join_host_port : Str → Str → Str
  pub itoa : ℤ → Str

unfoldable pub is_loopback : Net → Str → Bool
is_loopback net host =
    is_empty host
    || host == str "localhost"
    || elim (net.parse_ip host) [ none ↦ false | some ip ↦ net.is_loopback_ip ip ]

-- The names of the settings in the environment.
abbrev pub env_keys : Map Str Str
env_keys =
    (str "upstream_proxy", str "UPSTREAM_PROXY")
    ∷ (str "claude_cloak_mode", str "CLAUDE_CLOAK_MODE")
    ∷ (str "capacity_retries", str "CAPACITY_RETRIES")
    ∷ (str "capacity_backoff_ms", str "CAPACITY_BACKOFF_MS")
    ∷ []

-- `lookup_env` is `os.LookupEnv`.
unfoldable pub snapshot : (lookup_env : Str → Option Str) → Map Str Str → Map Str Str
snapshot lookup_env [] = []
snapshot lookup_env ((key, name) ∷ names) =
    let rest = snapshot lookup_env names in
    elim (lookup_env name) [ none ↦ rest | some v ↦ if is_empty v then rest else (key, v) ∷ rest ]

unfoldable pub env_snapshot : (lookup_env : Str → Option Str) → Map Str Str
env_snapshot lookup_env = snapshot lookup_env env_keys

unfoldable pub accessor_of : Net → (lookup_env : Str → Option Str) → Config → Accessor
accessor_of net lookup_env cfg = record {
  env = env_snapshot lookup_env;
  defaults =
      (str "claude_cloak_mode", cfg.claude_cloak_mode)
      ∷ (str "capacity_retries", net.itoa cfg.capacity_retries)
      ∷ (str "capacity_backoff_ms", net.itoa cfg.capacity_backoff_ms)
      ∷ [];
}

-- The upstream proxy of a request: `stored` is what the settings table holds.
unfoldable pub proxy_of : Accessor → Config → (stored : Option Str) → Str
proxy_of a cfg stored =
    let v = get a stored (str "upstream_proxy") in
    if not (is_empty v) then v else cfg.upstream_proxy

pub data Started : Type 0 where
  bad_config refused no_store no_device not_listening : Started
  listening : Config → (addr : Str) → Started

-- What opening the store, loading the device key and listening answer.
pub record Steps : Type 0 where
  pub store_opens : Bool
  pub device : Option DeviceKey
  pub listens : Str → Bool

unfoldable pub start_with : Net → Steps → Config → Started
start_with net s cfg =
    let addr = net.join_host_port cfg.host (net.itoa cfg.port) in
    if is_empty cfg.admin_password && not (is_loopback net cfg.host)
    then refused
    else if not s.store_opens
    then no_store
    else elim s.device [
      | none ↦ no_device
      | some key ↦ if s.listens addr then listening cfg addr else not_listening
    ]

-- `Run`, up to `onReady`.
unfoldable pub run :
    Net → Os → Steps → (makes : Bool) → (drawn : Str) → Write → KeyFile → KeyFile × Started
run net os s makes drawn w file =
    let (file', loaded) = load os makes drawn w file in
    (file', elim loaded [ none ↦ bad_config | some cfg ↦ start_with net s cfg ])
