-- ===== src/Admin/Oauth/Completion.antt =====
-- A login from its start to the answer of its query.
use mirasim2api.Base.{[], Str}
use mirasim2api.Admin.Flows.{Flows}
use mirasim2api.Admin.Oauth.{Admin, CompleteBody}

-- A query for a flow, and nothing else.
abbrev pub query_of : Str → CompleteBody
query_of id = record { flow_id = id; state = []; callback_url = []; token = []; provider = [] }
