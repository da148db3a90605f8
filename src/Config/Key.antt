-- ===== src/Config/Key.antt =====
-- What a configuration that loads holds, and that it loads the same a second time.
use mirasim2api.Base.{
  ◌≡◌, refl, sym, ap, ◌∙◌, Bool, true, false, some, Str, str, arith, inl, inr, ==_iff, all_b,
  length, number_key, Bool-cases, Option-cases,
}
use mirasim2api.Base.Text.{trim_space, is_visible, trim_space-visible}
use mirasim2api.Pool.Pick.{is_empty}
use mirasim2api.Config.{
  Config, Os, env, KeyFile, absent, unreadable, contents, Write, written, write_fails, KeyResult,
  master, decode_key, create_key, read_or_create, load_or_create_master_key, Integers, not_hex,
  bad_length, no_directory, not_written, load_integers, config_of, with_key, load_with, load,
}

decode_key-length : (os : Os) (text key : Str) → decode_key os text ≡ master key → length key ≡ 32
unfolding decode_key
decode_key-length os text key h = elim (Option-cases (os.unhex text)) [
  | inl e ↦ absurd (ground arith)
  | inr (k, e) ↦ ground (arith, ==_iff (length k) 32)
]

-- What a hex coding documents: it decodes what it codes, and its text is visible.
pub record IsHex (os : Os) : Type 0 where
  pub unhex_hex : (s : Str) → os.unhex (os.hex s) ≡ some s
  pub visible_hex : (s : Str) → all_b is_visible (os.hex s) ≡ true

decode_key-hex :
    (os : Os) (drawn : Str)
    → IsHex os
    → length drawn ≡ 32
    → decode_key os (trim_space (os.hex drawn)) ≡ master drawn
unfolding decode_key
decode_key-hex os drawn x d =
    rw (decode_key, trim_space-visible (os.hex drawn) (x.visible_hex drawn), x.unhex_hex drawn, d)
      refl

created :
    (os : Os) (drawn key : Str)
    → IsHex os
    → length drawn ≡ 32
    → master drawn ≡ master key
    → (length key ≡ 32)
      × (◌≡◌ {A = KeyFile × KeyResult}
          (contents (os.hex drawn), decode_key os (trim_space (os.hex drawn)))
          (contents (os.hex drawn), master key))
created os drawn key x d h =
    let same : drawn ≡ key = ground arith in
    (
      ap length (sym same) ∙ d,
      ap (λ r. (contents (os.hex drawn), r)) (decode_key-hex os drawn x d ∙ h),
    )

read_or_create_again :
    (os : Os) (makes makes' : Bool) (drawn drawn' : Str) (w w' : Write) (file : KeyFile) (key : Str)
    → IsHex os
    → length drawn ≡ 32
    → (read_or_create os makes drawn w file).1 ≡ master key
    → (length key ≡ 32)
      × (read_or_create os makes' drawn' w' (read_or_create os makes drawn w file).0
          ≡ ((read_or_create os makes drawn w file).0, master key))
unfolding read_or_create create_key
read_or_create_again os makes makes' drawn drawn' w w' (contents raw) key x d h =
    (decode_key-length os (trim_space raw) key h, ap (λ r. (contents raw, r)) h)
read_or_create_again os false makes' drawn drawn' w w' absent key x d h = absurd (cc)
read_or_create_again os true makes' drawn drawn' (write_fails left) w' absent key x d h =
    absurd (cc)
read_or_create_again os true makes' drawn drawn' written w' absent key x d h =
    created os drawn key x d h
read_or_create_again os false makes' drawn drawn' w w' unreadable key x d h = absurd (cc)
read_or_create_again os true makes' drawn drawn' (write_fails left) w' unreadable key x d h =
    absurd (cc)
read_or_create_again os true makes' drawn drawn' written w' unreadable key x d h =
    created os drawn key x d h

key_again :
    (os : Os) (env_key : Str) (makes makes' : Bool) (drawn drawn' : Str) (w w' : Write)
    → (file : KeyFile) (key : Str) → IsHex os
    → length drawn ≡ 32
    → (load_or_create_master_key os env_key makes drawn w file).1 ≡ master key
    → (length key ≡ 32)
      × (load_or_create_master_key os env_key makes' drawn' w'
            (load_or_create_master_key os env_key makes drawn w file).0
          ≡ ((load_or_create_master_key os env_key makes drawn w file).0, master key))
unfolding load_or_create_master_key
key_again os env_key makes makes' drawn drawn' w w' file key x d h =
    elim (Bool-cases (is_empty (trim_space env_key))) [
      | inl empty ↦
          let again =
            read_or_create_again os makes makes' drawn drawn' w w' file key x d (rw empty at h) in
          rw (load_or_create_master_key, empty) again
      | inr full ↦
          let decoded : decode_key os (trim_space env_key) ≡ master key = rw full at h in
          rw (load_or_create_master_key, full)
            (decode_key-length os (trim_space env_key) key decoded, ap (λ r. (file, r)) decoded)
    ]

env-full :
    (os : Os) (key default : Str) → is_empty default ≡ false → is_empty (env os key default) ≡ false
unfolding env
env-full os key default h = ground (arith)

with_key-some :
    (os : Os) (n : Integers) (r : KeyResult) (c : Config)
    → with_key os n r ≡ some c
    → (r ≡ master c.master_key) × (c ≡ config_of os n c.master_key)
unfolding with_key config_of
with_key-some os n (master key) c h =
    let same : config_of os n key ≡ c = ground arith in rw (← same) (refl, refl)
with_key-some os n not_hex c h = absurd (cc)
with_key-some os n bad_length c h = absurd (cc)
with_key-some os n no_directory c h = absurd (cc)
with_key-some os n not_written c h = absurd (cc)

load_with-host :
    (os : Os) (n : Integers) (makes : Bool) (drawn : Str) (w : Write) (file : KeyFile) (c : Config)
    → (load_with os n makes drawn w file).1 ≡ some c
    → is_empty c.host ≡ false
unfolding load_with
load_with-host os n makes drawn w file c h =
    let r = load_or_create_master_key os (os.getenv (str "MASTER_KEY")) makes drawn w file in
    let (found, whole) = with_key-some os n r.1 c h in
    let host : is_empty (config_of os n c.master_key).host ≡ false =
      unfold config_of in env-full os (str "HOST") (str "0.0.0.0") refl in
    ap (λ k. is_empty k.host) whole ∙ host

-- A configuration that loads names a host.
pub load-host :
    (os : Os) (makes : Bool) (drawn : Str) (w : Write) (file : KeyFile) (c : Config)
    → (load os makes drawn w file).1 ≡ some c
    → is_empty c.host ≡ false
unfolding load
load-host os makes drawn w file c h = elim (Option-cases (load_integers os)) [
  | inl e ↦ absurd (ground arith)
  | inr (n, e) ↦ load_with-host os n makes drawn w file c (rw (load, e) at h)
]

load_with_again :
    (os : Os) (n : Integers) (makes makes' : Bool) (drawn drawn' : Str) (w w' : Write)
    → (file : KeyFile) (c : Config) → IsHex os
    → length drawn ≡ 32
    → (load_with os n makes drawn w file).1 ≡ some c
    → (length c.master_key ≡ 32)
      × (is_empty c.host ≡ false)
      × (load_with os n makes' drawn' w' (load_with os n makes drawn w file).0
          ≡ ((load_with os n makes drawn w file).0, some c))
unfolding load_with with_key
load_with_again os n makes makes' drawn drawn' w w' file c x d h =
    let env_key = os.getenv (str "MASTER_KEY") in
    let r = load_or_create_master_key os env_key makes drawn w file in
    let (found, whole) = with_key-some os n r.1 c h in
    let (size, again) =
      key_again os env_key makes makes' drawn drawn' w w' file c.master_key x d found in
    (
      size,
      load_with-host os n makes drawn w file c h,
      ap (λ q. (q.0, with_key os n q.1)) again ∙ ap (λ k. (r.0, some k)) (sym whole),
    )

load_lem :
    (os : Os) (n : Integers) (makes : Bool) (drawn : Str) (w : Write) (file : KeyFile)
    → load_integers os ≡ some n
    → load os makes drawn w file ≡ load_with os n makes drawn w file
unfolding load
load_lem os n makes drawn w file e = rw (load, e) refl

-- Where hex decodes what it codes and 32 bytes are drawn, a configuration that loads has a master
-- key of 32 bytes and a host, and a later start in the same environment loads the same one and leaves
-- the key file as it is, whatever is drawn then.
pub load_again :
    (os : Os) (makes makes' : Bool) (drawn drawn' : Str) (w w' : Write) (file : KeyFile)
    (c : Config)
    → IsHex os
    → length drawn ≡ 32
    → (load os makes drawn w file).1 ≡ some c
    → (length c.master_key ≡ 32)
      × (is_empty c.host ≡ false)
      × (load os makes' drawn' w' (load os makes drawn w file).0
          ≡ ((load os makes drawn w file).0, some c))
unfolding load
load_again os makes makes' drawn drawn' w w' file c x d h = elim (Option-cases (load_integers os)) [
  | inl e ↦ absurd (ground arith)
  | inr (n, e) ↦
      let first = load_lem os n makes drawn w file e in
      let loaded : (load_with os n makes drawn w file).1 ≡ some c = rw first at h in
      rw (first, load_lem os n makes' drawn' w' (load_with os n makes drawn w file).0 e)
        (load_with_again os n makes makes' drawn drawn' w w' file c x d loaded)
]
