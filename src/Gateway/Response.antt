-- ===== src/Gateway/Response.antt =====
-- internal/gateway/errors.go: the endpoints and the error responses. The writer stands for
-- `http.ResponseWriter`: the headers set, the statuses written (the first one counts), the body.
use mirasim2api.Base.{ℕ, List, [], ◌∷◌, ◌++◌, Str, str, Map, insert, text_key}
use mirasim2api.Base.Json.{Json, string, object, no_fields, field}

pub data Endpoint : Type 0 where
  messages responses chat : Endpoint

abbrev pub endpoint_path : Endpoint → Str
endpoint_path messages = str "messages"
endpoint_path responses = str "responses"
endpoint_path chat = str "chat/completions"

-- What a handler writes into the body: an encoded value, or bytes.
pub data Chunk : Type 0 where
  encoded : Json → Chunk
  bytes : Str → Chunk

pub record Writer : Type 0 where
  pub headers : Map Str Str
  pub statuses : List ℕ
  pub body : List Chunk

abbrev pub idle_writer : Writer
idle_writer = record { headers = []; statuses = []; body = [] }

unfoldable pub set_header : Str → Str → Writer → Writer
set_header name value w = record w { headers = insert name value w.headers }

unfoldable pub write_header : ℕ → Writer → Writer
write_header status w = record w { statuses = w.statuses ++ status ∷ [] }

-- A body with no status before it has the status 200.
unfoldable pub write_body : Chunk → Writer → Writer
write_body chunk w = record w {
  statuses = elim w.statuses [ [] ↦ 200 ∷ [] | status ∷ rest ↦ status ∷ rest ];
  body = w.body ++ chunk ∷ [];
}

-- `map[string]any{"type": errType, "message": message}`
unfoldable pub error_object : Str → Str → Json
error_object err_type message =
    object (field (str "type") (string err_type) (field (str "message") (string message) no_fields))

unfoldable pub error_body : Endpoint → Str → Str → Json
error_body messages err_type message = object (
    field (str "type") (string (str "error"))
      (field (str "error") (error_object err_type message) no_fields))
error_body _ err_type message =
    object (field (str "error") (error_object err_type message) no_fields)

unfoldable pub write_error : Endpoint → ℕ → Str → Str → Writer → Writer
write_error endpoint status err_type message w =
    write_body (encoded (error_body endpoint err_type message))
      (write_header status (set_header (str "Content-Type") (str "application/json") w))

abbrev pub auth_err_type : Endpoint → Str
auth_err_type messages = str "authentication_error"
auth_err_type _ = str "invalid_request_error"

unfoldable pub write_auth_error : Endpoint → Str → Writer → Writer
write_auth_error endpoint message w = write_error endpoint 401 (auth_err_type endpoint) message w

-- `writeUpstream` of internal/gateway/forward.go.
unfoldable pub write_upstream : ℕ → Str → Str → Writer → Writer
write_upstream status content_type body w = write_body (bytes body) (
    write_header status
      (elim content_type [ [] ↦ w | c ∷ s ↦ set_header (str "Content-Type") (c ∷ s) w ]))
