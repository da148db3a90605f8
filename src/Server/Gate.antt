-- ===== src/Server/Gate.antt =====
-- The admin API is never open to a network without a password.
use mirasim2api.Base.{
  ◌≡◌, ◌⊎◌, inl, inr, Bool, true, false, not, ◌&&◌, some, Str, str, arith, ◌==◌, ==_iff, Bool-cases,
  Option-cases, text_key,
}
use mirasim2api.Pool.Pick.{is_empty}
use mirasim2api.Config.{Config, Os, KeyFile, Write, load}
use mirasim2api.Config.Key.{load-host}
use mirasim2api.Server.{Net, Steps, listening, is_loopback, start_with, run}

-- A host that names only the machine itself.
abbrev pub IsLocal : Net → Str → Type 0
IsLocal net host =
    (host ≡ str "localhost")
    ⊎ ((ip : Str) × (net.parse_ip host ≡ some ip) × (net.is_loopback_ip ip ≡ true))

local_lem :
    (net : Net) (host : Str)
    → is_loopback net host ≡ true
    → is_empty host ≡ false
    → IsLocal net host
unfolding is_loopback
local_lem net host h full = elim (Bool-cases (host == str "localhost")) [
  | inl e ↦ inl ((==_iff host (str "localhost")).0 e)
  | inr e ↦ elim (Option-cases (net.parse_ip host)) [
    | inl p ↦ absurd (ground arith)
    | inr (ip, p) ↦ inr (ip, p, ground arith)
  ]
]

start_with_lem :
    (net : Net) (s : Steps) (cfg c : Config) (addr : Str)
    → start_with net s cfg ≡ listening c addr
    → (cfg ≡ c) × ((is_empty c.admin_password ≡ false) ⊎ (is_loopback net c.host ≡ true))
unfolding start_with
start_with_lem net s cfg c addr h =
    let gate = is_empty cfg.admin_password && not (is_loopback net cfg.host) in
    elim (Bool-cases gate) [
      | inl stop ↦ absurd (ground arith)
      | inr pass ↦ elim (Option-cases s.device) [
        | inl e ↦ absurd (ground arith)
        | inr (key, e) ↦ let same : cfg ≡ c = ground arith in (same, rw (← same) (ground arith))
      ]
    ]

-- A service that listens has an admin password, or its host is `localhost` or a loopback address,
-- whatever the environment and the key file hold.
pub run_guarded :
    (net : Net) (os : Os) (s : Steps) (makes : Bool) (drawn : Str) (w : Write) (file : KeyFile)
    → (c : Config) (addr : Str) → (run net os s makes drawn w file).1 ≡ listening c addr
    → (is_empty c.admin_password ≡ false) ⊎ IsLocal net c.host
unfolding run
run_guarded net os s makes drawn w file c addr h =
    elim (Option-cases (load os makes drawn w file).1) [
      | inl e ↦ absurd (ground arith)
      | inr (cfg, e) ↦
          let (same, safe) = start_with_lem net s cfg c addr (ground arith) in
          let host : is_empty c.host ≡ false =
            rw (← same) (load-host os makes drawn w file cfg e) in
          elim safe [
            | inl password ↦ inl password
            | inr near ↦ inr (local_lem net c.host near host)
          ]
    ]
