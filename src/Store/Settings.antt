-- ===== src/Store/Settings.antt =====
-- internal/store/store.go: the settings. internal/runtimecfg/runtimecfg.go: how they are read.
use mirasim2api.Base.{
  Bool, true, false, Option, none, some, [], Str, if◌then◌else◌, Map, lookup, insert, text_key,
}
use mirasim2api.Base.Int.{ℤ}
use mirasim2api.Pool.Pick.{is_empty}
use mirasim2api.Store.Database.{Database}

-- `m[key]` of a map of texts.
abbrev pub text_at : Str → Map Str Str → Str
text_at key m = elim (lookup key m) [ none ↦ [] | some v ↦ v ]

module _ {R : Type 0} where
  -- None is an error of the driver; a key that is not there is the empty text.
  unfoldable pub get_setting : (up : Bool) → Str → Database R → Option Str
  get_setting up key db = if up then some (text_at key db.settings) else none

  unfoldable pub set_setting : (up : Bool) → Str → Str → Database R → Database R × Bool
  set_setting up key value db =
      if up then (record db { settings = insert key value db.settings }, true) else (db, false)

  unfoldable pub list_settings : (up : Bool) → Database R → Option (Map Str Str)
  list_settings up db = if up then some db.settings else none

-- The accessor, without its store: what was set in the environment at the start, and the defaults.
pub record Accessor : Type 0 where
  pub env : Map Str Str
  pub defaults : Map Str Str

pub data Source : Type 0 where
  from_database from_env from_default : Source

-- `stored` is what `GetSetting` answers; none is an error, or no store.
abbrev pub stored_text : Option Str → Str
stored_text none = []
stored_text (some v) = v

unfoldable pub get : Accessor → Option Str → Str → Str
get a stored key =
    let env = text_at key a.env in
    if is_empty (stored_text stored)
    then (if is_empty env then text_at key a.defaults else env)
    else stored_text stored

unfoldable pub get_int : (Str → Option ℤ) → Accessor → Option Str → Str → ℤ → ℤ
get_int atoi a stored key def =
    let v = get a stored key in
    if is_empty v then def else elim (atoi v) [ none ↦ def | some n ↦ n ]

unfoldable pub source : Accessor → Option Str → Str → Source
source a stored key =
    if is_empty (stored_text stored)
    then (if is_empty (text_at key a.env) then from_default else from_env)
    else from_database
