-- ===== src/Admin/Flows.antt =====
-- internal/admin/oauth.go: `flowStore`, the logins under way. A method that holds the mutex is one
-- step. Times are nanoseconds. A flow's listener is open until the flow is closed.
pub mod Lifecycle
use mirasim2api.Base.{
  ℕ, ◌*◌, Bool, true, false, Option, none, some, List, [], ◌∷◌, Str, ltb, if◌then◌else◌, Map,
  lookup, insert, text_key,
}
use mirasim2api.Pool.Entry.{minute}

abbrev pub oauth_flow_ttl : ℕ
oauth_flow_ttl = 10 * minute

pub record AccountBrief : Type 0 where
  pub id : Str
  pub email : Str
  pub name : Str
  pub provider : Str

pub record FlowResult : Type 0 where
  pub done : Bool
  pub err_msg : Str
  pub account : Option AccountBrief

pub data Mode : Type 0 where
  auto manual : Mode

pub record OauthFlow : Type 0 where
  pub id : Str
  pub provider : Str
  pub mode : Mode
  pub auth_url : Str
  pub expires_at : ℕ
  -- Whether the loopback listener is open.
  pub listens : Bool
  pub result : Option FlowResult

abbrev pub Flows : Type 0
Flows = Map Str OauthFlow

unfoldable pub close_flow : OauthFlow → OauthFlow
close_flow f = record f { listens = false }

unfoldable pub put : OauthFlow → Flows → Flows
put f flows = insert f.id f flows

unfoldable pub finish : Str → FlowResult → Flows → Flows
finish id res flows = elim (lookup id flows) [
  | none ↦ flows
  | some f ↦ insert id (close_flow (record f { result = some res })) flows
]

-- One round of `sweeper`: what is left, and what it closed.
unfoldable pub sweep : ℕ → Flows → Flows × List OauthFlow
sweep now [] = ([], [])
sweep now ((id, f) ∷ flows) =
    let (left, closed) = sweep now flows in
    if ltb f.expires_at now then (left, close_flow f ∷ closed) else ((id, f) ∷ left, closed)

-- `get`: none for a flow that is unknown or over, else its result, if it has one.
unfoldable pub get_flow : ℕ → Str → Flows → Option (Option FlowResult)
get_flow now id flows = elim (lookup id flows) [
  | none ↦ none
  | some f ↦ if ltb f.expires_at now then none else some f.result
]

unfoldable pub flow_provider : Str → Flows → Str
flow_provider id flows = elim (lookup id flows) [ none ↦ [] | some f ↦ f.provider ]
