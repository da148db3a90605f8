-- ===== src/Admin/Oauth.antt =====
-- internal/admin/oauth.go: the handlers of the logins by OAuth, by a pasted token or link, and by a
-- code sent to an email address. The exchange with the auth service is an argument; an answer is the
-- outcome that its status and text tell. `say` is the text of an error of `addAccount`.
pub mod Completion
mod Tests
use mirasim2api.Base.{
  ℕ, ◌+◌, Bool, true, false, not, ◌&&◌, ◌||◌, Option, none, some, List, [], ◌∷◌, ◌++◌, Str, str,
  ◌==◌, if◌then◌else◌, Map, text_key, number_key,
}
use mirasim2api.Base.Json.{Fields, field_of, text_of}
use mirasim2api.Base.Text.{trim_space, trim_right_of, contains}
use mirasim2api.Mirasim.Crypto.{Primitives}
use mirasim2api.Pool.Entry.{Account}
use mirasim2api.Pool.Pick.{is_empty}
use mirasim2api.Pool.Sticky.{Pool}
use mirasim2api.Store.Accounts.{Cipher}
use mirasim2api.Store.Database.{Database}
use mirasim2api.Admin.Accounts.{Numbers, Added, added, first_non_empty, add_token}
use mirasim2api.Admin.Flows.{
  AccountBrief, FlowResult, Mode, auto, manual, OauthFlow, Flows, oauth_flow_ttl, put, finish,
  get_flow, flow_provider,
}
use mirasim2api.Admin.Links.{
  Urls, Extracted, found_token, not_a_link, no_parameter, panics, extract_refresh_token,
}

abbrev pub brief : Account → AccountBrief
brief a = record { id = a.id; email = a.email; name = a.name; provider = a.provider }

-- What a handler needs of its surroundings.
pub record Site : Type 0 where
  pub lib : Primitives
  pub numbers : Numbers
  pub urls : Urls
  pub to_lower : Str → Str
  pub decimal : ℕ → Str
  pub auth_url : Str
  pub cipher : Cipher
  pub client_ok : Account → Bool
  pub say : Added → Str

-- What the handlers change.
pub record Admin (R S : Type 0) : Type 0 where
  pub db : Database S
  pub pool : Pool R
  pub flows : Flows

-- What the store draws and answers when an account is added, and when.
pub record Draw : Type 0 where
  pub up : Bool
  pub id : Str
  pub now : ℕ

pub data StartAnswer : Type 0 where
  bad_json unknown_provider unknown_mode cannot_listen : StartAnswer
  started : OauthFlow → (redirect_uri : Str) → StartAnswer

unfoldable pub is_provider : Str → Bool
is_provider p = p == str "github" || p == str "google"

-- An empty mode is `auto`.
unfoldable pub mode_of : Str → Option Mode
mode_of s =
    if is_empty s || s == str "auto"
    then some auto
    else if s == str "manual"
    then some manual
    else none

-- Where the browser is sent: the port that was opened for it, or one that nobody listens at.
unfoldable pub redirect_of : Site → Mode → (port : Option ℕ) → Option Str
redirect_of site manual port = some (str "http://127.0.0.1:9/callback")
redirect_of site auto none = none
redirect_of site auto (some port) =
    some (str "http://127.0.0.1:" ++ site.decimal port ++ str "/callback")

abbrev slash : ℕ → Bool
slash c = c == 47

unfoldable pub login_url : Site → (provider redirect_uri state : Str) → Str
login_url site provider redirect_uri state =
    trim_right_of slash site.auth_url
    ++ str "/auth/oauth/"
    ++ provider
    ++ str "/login?redirect_uri="
    ++ site.urls.query_escape redirect_uri
    ++ str "&state="
    ++ state

unfoldable pub is_auto : Mode → Bool
is_auto auto = true
is_auto manual = false

unfoldable pub new_flow : Site → ℕ → (state provider redirect_uri : Str) → Mode → OauthFlow
new_flow site now state provider redirect_uri mode = record {
  id = state;
  provider = provider;
  mode = mode;
  auth_url = login_url site provider redirect_uri state;
  expires_at = now + oauth_flow_ttl;
  listens = is_auto mode;
  result = none;
}

-- The body has a provider and a mode; `state` is drawn, and `port` is what `net.Listen` opens.
unfoldable pub handle_oauth_start :
    Site
    → ℕ
    → (state : Str) → (port : Option ℕ) → (body : Option (Str × Str)) → Flows
    → Flows × StartAnswer
handle_oauth_start site now state port none flows = (flows, bad_json)
handle_oauth_start site now state port (some (given, mode_text)) flows =
    let provider = site.to_lower (trim_space given) in
    if not (is_provider provider) then (flows, unknown_provider) else elim (mode_of mode_text) [
      | none ↦ (flows, unknown_mode)
      | some mode ↦ elim (redirect_of site mode port) [
        | none ↦ (flows, cannot_listen)
        | some redirect_uri ↦
            let f = new_flow site now state provider redirect_uri mode in
            (put f flows, started f redirect_uri)
      ]
    ]

abbrev pub failed_with : Str → FlowResult
failed_with text = record { done = true; err_msg = text; account = none }

-- The outcome of an addition as the result of a flow.
unfoldable pub result_of : Site → Added → FlowResult
result_of site (added acc info) = record { done = true; err_msg = []; account = some (brief acc) }
result_of site other = failed_with (site.say other)

-- In UTF-8: 回调链接缺少 refresh_token 参数.
abbrev pub no_token_text : Str
no_token_text =
    (0xe5 ∷ 0x9b ∷ 0x9e ∷ 0xe8 ∷ 0xb0 ∷ 0x83 ∷ 0xe9 ∷ 0x93 ∷ 0xbe ∷ 0xe6 ∷ 0x8e ∷ 0xa5 ∷ [])
    ++ (0xe7 ∷ 0xbc ∷ 0xba ∷ 0xe5 ∷ 0xb0 ∷ 0x91 ∷ [])
    ++ str " refresh_token "
    ++ (0xe5 ∷ 0x8f ∷ 0x82 ∷ 0xe6 ∷ 0x95 ∷ 0xb0 ∷ [])

module _ {R S : Type 0} (site : Site) where
  -- `addAccount` on the store and the pool.
  unfoldable pub add_to : Draw → (token provider name : Str) → Admin R S → Admin R S × Added
  add_to d token provider name a =
      let (db', pool', outcome) =
        add_token site.cipher site.client_ok site.lib site.numbers d.up d.id d.now token provider
          name a.db a.pool in
      (record a { db = db'; pool = pool' }, outcome)

  -- The callback of a flow, with the result that its page shows.
  unfoldable pub serve_oauth_callback :
      Draw → (flow_id token : Str) → Admin R S → Admin R S × FlowResult
  serve_oauth_callback d flow_id token a =
      let (a', outcome) = add_to d token (flow_provider flow_id a.flows) [] a in
      let res = result_of site outcome in
      let missing = failed_with no_token_text in
      if is_empty token
      then (record a { flows = finish flow_id missing a.flows }, missing)
      else (record a' { flows = finish flow_id res a'.flows }, res)

pub record CompleteBody : Type 0 where
  pub flow_id : Str
  pub state : Str
  pub callback_url : Str
  pub token : Str
  pub provider : Str

pub data CompleteAnswer : Type 0 where
  body_not_json no_input gone pending bad_link aborted : CompleteAnswer
  not_added : Added → CompleteAnswer
  flow_failed : Str → CompleteAnswer
  completed : Option AccountBrief → CompleteAnswer

unfoldable pub answer_added : Added → CompleteAnswer
answer_added (added acc info) = completed (some (brief acc))
answer_added other = not_added other

-- What a query of a flow answers.
unfoldable pub answer_flow : Option (Option FlowResult) → CompleteAnswer
answer_flow none = gone
answer_flow (some none) = pending
answer_flow (some (some res)) =
    if is_empty res.err_msg then completed res.account else flow_failed res.err_msg

module _ {R S : Type 0} (site : Site) where
  unfoldable pub finish_with_token :
      Draw → (token provider : Str) → Admin R S → Admin R S × CompleteAnswer
  finish_with_token d token provider a =
      let (a', outcome) = add_to site d token (site.to_lower (trim_space provider)) [] a in
      (a', answer_added outcome)

  unfoldable pub finish_with_link :
      Draw → Extracted → (provider : Str) → Admin R S → Admin R S × CompleteAnswer
  finish_with_link d (found_token t) provider a = finish_with_token d t provider a
  finish_with_link d not_a_link provider a = (a, bad_link)
  finish_with_link d no_parameter provider a = (a, bad_link)
  finish_with_link d panics provider a = (a, aborted)

  -- `clock` is the time in nanoseconds of the query.
  unfoldable pub handle_oauth_complete :
      Draw → (clock : ℕ) → Option CompleteBody → Admin R S → Admin R S × CompleteAnswer
  handle_oauth_complete d clock none a = (a, body_not_json)
  handle_oauth_complete d clock (some b) a =
      let flow_id = first_non_empty (b.flow_id ∷ b.state ∷ []) in
      if not (is_empty (trim_space b.token))
      then finish_with_token d (trim_space b.token) b.provider a
      else if not (is_empty (trim_space b.callback_url))
      then finish_with_link d (extract_refresh_token site.urls b.callback_url) b.provider a
      else if is_empty flow_id
      then (a, no_input)
      else (a, answer_flow (get_flow clock flow_id a.flows))

-- What `postAuthJSON` brings back: an error, or the body and the status.
abbrev pub Exchange : Type 0
Exchange = Option (Str × ℕ)

pub data EmailAnswer : Type 0 where
  email_not_json bad_email service_down : EmailAnswer
  service_refuses : (status : ℕ) (body : Str) → EmailAnswer
  sent : (email dev_code : Str) → EmailAnswer

-- The code that a development service returns.
unfoldable pub dev_code_of : Option Fields → Str
dev_code_of none = []
dev_code_of (some parsed) = text_of (field_of (str "dev_code") parsed)

unfoldable pub handle_email_start :
    Site → (post : Str → Exchange) → (body : Option Str) → EmailAnswer
handle_email_start site post none = email_not_json
handle_email_start site post (some given) =
    let email = trim_space given in
    if is_empty email || not (contains (str "@") email) then bad_email else elim (post email) [
      | none ↦ service_down
      | some (body, status) ↦
          if not (status == 200)
          then service_refuses status body
          else sent email
              (dev_code_of (elim (site.lib.unmarshal body) [ none ↦ none | some claims ↦ claims ]))
    ]

pub data VerifyAnswer : Type 0 where
  verify_not_json incomplete verify_down no_refresh_token : VerifyAnswer
  wrong_code : (status : ℕ) → VerifyAnswer
  email_not_added : Added → VerifyAnswer
  email_added : AccountBrief → VerifyAnswer

unfoldable pub answer_email : Added → VerifyAnswer
answer_email (added acc info) = email_added (brief acc)
answer_email other = email_not_added other

module _ {R S : Type 0} (site : Site) where
  -- `read_token` is the field `refresh_token` of a body that decodes.
  unfoldable pub handle_email_complete :
      Draw
      → (post : Str → Str → Exchange) → (read_token : Str → Option Str)
      → (body : Option (Str × Str)) → Admin R S
      → Admin R S × VerifyAnswer
  handle_email_complete d post read_token none a = (a, verify_not_json)
  handle_email_complete d post read_token (some (given_email, given_code)) a =
      let email = trim_space given_email in
      let code = trim_space given_code in
      if is_empty email || is_empty code then (a, incomplete) else elim (post email code) [
        | none ↦ (a, verify_down)
        | some (body, status) ↦
            if not (status == 200) then (a, wrong_code status) else elim (read_token body) [
              | none ↦ (a, no_refresh_token)
              | some t ↦
                  let (a', outcome) = add_to site d t (str "email") email a in
                  if is_empty t then (a, no_refresh_token) else (a', answer_email outcome)
            ]
      ]
