-- ===== src/Gateway/Auth.antt =====
-- internal/gateway/auth.go: who may call. `find` is `GetAPIKeyByPlaintext` of the store, and `now`
-- the clock. Every refusal writes its response.
pub mod Admission
use mirasim2api.Base.{
  ℕ, Bool, true, false, not, ◌||◌, Option, none, some, List, [], ◌∷◌, ◌++◌, Str, str, ◌==◌,
  if◌then◌else◌, text_key,
}
use mirasim2api.Base.Int.{pos, ltb_ℤ}
use mirasim2api.Base.Text.{cut_prefix, trim_space}
use mirasim2api.Pool.Pick.{is_empty}
use mirasim2api.Store.Rows.{ApiKey}
use mirasim2api.Gateway.Response.{Endpoint, Writer, write_error, write_auth_error}

-- The headers that `extractAPIKey` reads; a header that is not there is empty.
pub record Headers : Type 0 where
  pub authorization : Str
  pub x_api_key : Str

unfoldable pub extract_api_key : Headers → Str
extract_api_key h =
    let other = trim_space h.x_api_key in
    if is_empty h.authorization
    then other
    else elim (cut_prefix (str "Bearer ") h.authorization) [ some v ↦ trim_space v | none ↦ other ]

-- Refused with a response, or let through with a key or, where none is required, without.
pub data Verdict (R : Type 0) : Type 0 where
  refused : Writer → Verdict R
  passed : Option (ApiKey R) → Verdict R

unfoldable pub lists : Str → List Str → Bool
lists model [] = false
lists model (m ∷ ms) = m == model || lists model ms

abbrev pub no_names : List Str → Bool
no_names [] = true
no_names (m ∷ ms) = false

module _ {R : Type 0} where
  unfoldable pub has_expired : ℕ → ApiKey R → Bool
  has_expired now key = elim key.expires_at [ none ↦ false | some at ↦ ltb_ℤ at (pos now) ]

  unfoldable pub may_use : Str → ApiKey R → Bool
  may_use model key =
      is_empty model || (no_names key.model_allowlist || lists model key.model_allowlist)

  unfoldable pub check_key : ℕ → Endpoint → Str → ApiKey R → Writer → Verdict R
  check_key now endpoint model key w =
      if not key.enabled
      then refused (write_auth_error endpoint (str "api key is disabled") w)
      else if has_expired now key
      then refused (write_auth_error endpoint (str "api key has expired") w)
      else if not (may_use model key)
      then refused (
          write_error endpoint 403 (str "permission_error")
            (str "model " ++ model ++ str " is not allowed for this api key") w)
      else passed (some key)

  unfoldable pub authenticate :
      (required : Bool)
      → (Str → Option (ApiKey R))
      → ℕ
      → Headers
      → Endpoint
      → Str
      → Writer
      → Verdict R
  authenticate required find now h endpoint model w =
      if is_empty (extract_api_key h)
      then (if not required
          then passed none
          else refused (
              write_auth_error endpoint
                (str "missing api key: use 'Authorization: Bearer sk-...' or 'x-api-key'") w))
      else elim (find (extract_api_key h)) [
        | none ↦ refused (write_auth_error endpoint (str "invalid api key") w)
        | some key ↦ check_key now endpoint model key w
      ]
