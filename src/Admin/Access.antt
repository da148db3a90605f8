-- ===== src/Admin/Access.antt =====
-- internal/admin: session.go, the guard of admin.go, the checks of keys.go and settings.go. `hmac`
-- is HMAC-SHA256 under the derived key, `unhex` is `hex.DecodeString` and `parse_int` is
-- `strconv.ParseInt`. A constant-time comparison is an equality.
pub mod Sessions
use mirasim2api.Base.{
  ℕ, ◌+◌, ◌*◌, Bool, true, false, not, ◌&&◌, ◌||◌, Option, none, some, List, [], ◌∷◌, ◌++◌, Str,
  str, ◌==◌, if◌then◌else◌, map, Map, text_key, number_key,
}
use mirasim2api.Base.Int.{ℤ, pos, ltb_ℤ}
use mirasim2api.Base.Text.{trim_space}
use mirasim2api.Pool.Pick.{is_empty}
use mirasim2api.Store.Database.{Database}
use mirasim2api.Store.Settings.{Accessor, Source, text_at, get, source, get_setting, set_setting}

abbrev pub dot : ℕ
dot = 46

-- `strings.LastIndex(token, ".")` with the parts before and after it.
unfoldable pub cut_last : Str → Option (Str × Str)
cut_last [] = none
cut_last (c ∷ s) =
    let rest = cut_last s in
    elim rest [
      | some (before, after) ↦ some (c ∷ before, after)
      | none ↦ if c == dot then some ([], s) else none
    ]

-- `strings.SplitN(payload, ".", 3)`, if there are three parts.
unfoldable pub cut_first : Str → Option (Str × Str)
cut_first [] = none
cut_first (c ∷ s) =
    let rest = cut_first s in
    if c == dot
    then some ([], s)
    else elim rest [ none ↦ none | some (before, after) ↦ some (c ∷ before, after) ]

unfoldable pub three_parts : Str → Option (Str × Str)
three_parts payload = elim (cut_first payload) [
  | none ↦ none
  | some (version, rest) ↦ elim (cut_first rest) [
    | none ↦ none
    | some (expires, nonce) ↦ some (version, expires)
  ]
]

pub record Session : Type 0 where
  pub hmac : Str → Str
  pub hex : Str → Str
  pub unhex : Str → Option Str
  pub parse_int : Str → Option ℤ
  pub decimal : ℕ → Str

abbrev pub session_ttl : ℕ
session_ttl = 8 * 3600

unfoldable pub session_payload : Session → (expires : ℕ) → (nonce : Str) → Str
session_payload s expires nonce = str "v1." ++ s.decimal expires ++ dot ∷ nonce

-- `nonce` is what `randHex` draws.
unfoldable pub new_session_token : Session → (expires : ℕ) → (nonce : Str) → Str
new_session_token s expires nonce =
    let payload = session_payload s expires nonce in payload ++ dot ∷ s.hex (s.hmac payload)

unfoldable pub is_current : Session → ℕ → Str → Bool
is_current s now payload = elim (three_parts payload) [
  | none ↦ false
  | some (version, expires) ↦
      version == str "v1"
      && elim (s.parse_int expires) [ none ↦ false | some n ↦ ltb_ℤ (pos now) n ]
]

unfoldable pub verify_session_token : Session → ℕ → Str → Bool
verify_session_token s now token = elim (cut_last token) [
  | none ↦ false
  | some (payload, sig_hex) ↦ not (is_empty payload) && elim (s.unhex sig_hex) [
    | none ↦ false
    | some sig ↦ sig == s.hmac payload && is_current s now payload
  ]
]

-- `requireAuth`: with no password every request passes.
unfoldable pub requires_auth : Session → ℕ → (password : Str) → (cookie : Option Str) → Bool
requires_auth s now password cookie =
    is_empty password
    || elim cookie [ none ↦ false | some token ↦ verify_session_token s now token ]

-- What `handleLogin` answers.
pub data Login : Type 0 where
  auth_disabled bad_json wrong_password : Login
  logged_in : (token : Str) (expires : ℕ) → Login

-- The second argument is the password of the body, if it decodes.
unfoldable pub handle_login : Session → ℕ → (nonce password : Str) → Option Str → Login
handle_login s now nonce password given = if is_empty password then auth_disabled else elim given [
  | none ↦ bad_json
  | some guess ↦
      if not (guess == password)
      then wrong_password
      else logged_in (new_session_token s (now + session_ttl) nonce) (now + session_ttl)
]

pub record KeyEdit : Type 0 where
  pub name : Str
  pub enabled : Option Bool
  pub concurrency : Option ℤ
  pub rate_limit_rpm : Option ℤ
  pub model_allowlist : Option (List Str)
  pub expires_at : Option ℤ

pub data Invalid : Type 0 where
  bad_concurrency bad_rpm empty_model : Invalid

unfoldable pub outside : ℕ → Option ℤ → Bool
outside max n = elim n [ none ↦ false | some z ↦ ltb_ℤ z (pos 0) || ltb_ℤ (pos max) z ]

unfoldable pub names_blank : List Str → Bool
names_blank [] = false
names_blank (m ∷ ms) = is_empty (trim_space m) || names_blank ms

-- None is a valid edit.
unfoldable pub validate : KeyEdit → Option Invalid
validate e =
    if outside 1000 e.concurrency
    then some bad_concurrency
    else if outside 100_000 e.rate_limit_rpm
    then some bad_rpm
    else elim e.model_allowlist [
      | none ↦ none
      | some ms ↦ if names_blank ms then some empty_model else none
    ]

abbrev pub setting_keys : List Str
setting_keys =
    str "upstream_proxy"
    ∷ str "claude_cloak_mode"
    ∷ str "capacity_retries"
    ∷ str "capacity_backoff_ms"
    ∷ str "model_prices"
    ∷ str "rate_multiplier"
    ∷ []

unfoldable pub is_setting : List Str → Str → Bool
is_setting [] key = false
is_setting (k ∷ ks) key = k == key || is_setting ks key

unfoldable pub all_settings : Map Str Str → Bool
all_settings [] = true
all_settings ((key, v) ∷ body) = is_setting setting_keys key && all_settings body

pub record SettingItem : Type 0 where
  pub key : Str
  pub value : Str
  pub from : Source
  pub default_value : Str

-- `up` answers the reading of each key, which the value and its source make each for itself.
unfoldable pub setting_item :
    {R : Type 0} → (up : Str → Bool × Bool) → Accessor → Database R → Str → SettingItem
setting_item up a db k = record {
  key = k;
  value = get a (get_setting (up k).0 k db) k;
  from = source a (get_setting (up k).1 k db) k;
  default_value = text_at k a.defaults;
}

unfoldable pub handle_settings_get :
    {R : Type 0} → (up : Str → Bool × Bool) → Accessor → Database R → List SettingItem
handle_settings_get up a db = map (setting_item up a db) setting_keys

-- The writes, of which the first that fails ends the request. `up` answers each key. The body is
-- sorted by its keys.
unfoldable pub write_settings :
    {R : Type 0} → (Str → Bool) → Map Str Str → Database R → Database R × Bool
write_settings up [] db = (db, true)
write_settings up ((key, v) ∷ body) db =
    let (db', written) = set_setting (up key) key v db in
    let rest = write_settings up body db' in if written then rest else (db', false)

pub data PutResult : Type 0 where
  not_json unknown_key write_failed saved : PutResult

unfoldable pub handle_settings_put :
    {R : Type 0} → (Str → Bool) → Option (Map Str Str) → Database R → Database R × PutResult
handle_settings_put up none db = (db, not_json)
handle_settings_put up (some body) db =
    let (db', written) = write_settings up body db in
    if not (all_settings body)
    then (db, unknown_key)
    else if written
    then (db', saved)
    else (db', write_failed)
