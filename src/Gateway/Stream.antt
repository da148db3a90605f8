-- ===== src/Gateway/Stream.antt =====
-- internal/gateway/forward.go: the stream that is passed on to the client while its usage is read.
-- The upstream body is all that the reader returns before its error or its end.
pub mod Passing
use mirasim2api.Base.{
  Bool, true, false, ◌&&◌, not, List, [], ◌∷◌, ◌++◌, Str, str, ◌==◌, if◌then◌else◌, number_key,
  ◌||◌,
}
use mirasim2api.Base.Text.{contains, trim_right_of}
use mirasim2api.Pool.Pick.{is_empty}
use mirasim2api.Billing.Usage.{
  Usage, Decoder, parse_anthropic_usage, parse_responses_usage, parse_chat_usage,
}
use mirasim2api.Gateway.Response.{
  Endpoint, messages, responses, chat, Writer, Chunk, bytes, write_body,
}

-- `reader.ReadBytes('\n')` again and again: every line with its end, then what is left.
unfoldable pub lines_of : (line : Str) → Str → List Str
lines_of [] [] = []
lines_of (c ∷ line) [] = (c ∷ line) ∷ []
lines_of line (c ∷ s) =
    if c == 10 then (line ++ c ∷ []) ∷ lines_of [] s else lines_of (line ++ c ∷ []) s

unfoldable pub is_blank_line : Str → Bool
is_blank_line line = is_empty (trim_right_of (λ c. c == 13 || c == 10) line)

-- The two buffers of `teeStream`.
pub record Tee : Type 0 where
  pub usage_buf : Str
  pub event_buf : Str

-- `"usage"`, with its quotes.
abbrev pub usage_mark : Str
usage_mark = 34 ∷ str "usage" ++ 34 ∷ []

unfoldable pub flush_event : Tee → Tee
flush_event t =
    if not (is_empty t.event_buf) && contains usage_mark t.event_buf
    then record { usage_buf = t.usage_buf ++ t.event_buf; event_buf = [] }
    else record t { event_buf = [] }

unfoldable pub tee_line : Str → Tee → Tee
tee_line line t =
    let t' = record t { event_buf = t.event_buf ++ line } in
    if is_blank_line line then flush_event t' else t'

unfoldable pub tee_lines : List Str → Tee → Writer → Tee × Writer
tee_lines [] t w = (t, w)
tee_lines (line ∷ rest) t w = tee_lines rest (tee_line line t) (write_body (bytes line) w)

unfoldable pub parse_usage : Decoder → Endpoint → Str → Usage
parse_usage d messages text = parse_anthropic_usage d text
parse_usage d responses text = parse_responses_usage d text
parse_usage d chat text = parse_chat_usage d text

unfoldable pub tee_stream : Decoder → Endpoint → Str → Writer → Usage × Writer
tee_stream d endpoint body w =
    let (t, w') = tee_lines (lines_of [] body) (record { usage_buf = []; event_buf = [] }) w in
    (parse_usage d endpoint ((flush_event t).usage_buf), w')
