-- ===== src/Billing/Usage.antt =====
-- internal/billing/usage.go: token usage out of a response. What `json.Unmarshal` makes of a
-- payload is a `Decoder`, one function per shape of frame; none is an error.
use mirasim2api.Base.{
  ℕ, false, Option, none, some, List, [], ◌∷◌, ◌++◌, Str, str, ◌==◌, if◌then◌else◌, number_key,
  text_key,
}
use mirasim2api.Base.Int.{ℤ, pos, pos_part, ◌+ℤ◌, ltb_ℤ, wrap_64}
use mirasim2api.Base.Text.{cut_prefix, trim_space, trim_right_of, split_on, split_on_double}

pub record Usage : Type 0 where
  pub input : ℕ
  pub output : ℕ
  pub cached : ℕ

abbrev pub no_usage : Usage
no_usage = record { input = 0; output = 0; cached = 0 }

-- A payload so far and one more `data:` line: none is Go's nil.
unfoldable pub add_line : Option Str → Str → Option Str
add_line none v = none
add_line (some payload) v = some (payload ++ 10 ∷ v)

-- Appending an empty value to nil leaves it nil.
abbrev pub first_line : Str → Option Str
first_line [] = none
first_line (c ∷ v) = some (c ∷ v)

unfoldable pub data_line : Str → Option Str
data_line line = elim (cut_prefix (str "data:") (trim_right_of (λ c. c == 13) line)) [
  | none ↦ none
  | some v ↦ some (trim_space v)
]

unfoldable pub payload_of : Option Str → List Str → Option Str
payload_of payload [] = payload
payload_of payload (line ∷ lines) = elim (data_line line) [
  | none ↦ payload_of payload lines
  | some v ↦ elim payload [
    | none ↦ payload_of (first_line v) lines
    | some old ↦ payload_of (add_line (some old) v) lines
  ]
]

unfoldable pub payloads_of : List Str → List Str
payloads_of [] = []
payloads_of (block ∷ blocks) = elim (payload_of none (split_on 10 [] block)) [
  | none ↦ payloads_of blocks
  | some payload ↦
      if payload == str "[DONE]" then payloads_of blocks else payload ∷ payloads_of blocks
]

unfoldable pub sse_data_payloads : Str → List Str
sse_data_payloads data_bytes = payloads_of (split_on_double 10 [] false data_bytes)

pub record AnthropicUsage : Type 0 where
  pub input_tokens : ℤ
  pub output_tokens : ℤ
  pub cache_creation_input_tokens : ℤ
  pub cache_read_input_tokens : ℤ

-- The usage of the frame, and that of its `message` or `response`.
pub record Frame (U : Type 0) : Type 0 where
  pub usage : Option U
  pub inner : Option (Option U)

pub record ResponsesUsage : Type 0 where
  pub input_tokens : ℤ
  pub output_tokens : ℤ
  pub cached_tokens : ℤ

pub record ChatUsage : Type 0 where
  pub prompt_tokens : ℤ
  pub completion_tokens : ℤ
  pub cached_tokens : ℤ

pub record Decoder : Type 0 where
  pub anthropic : Str → Option (Frame AnthropicUsage)
  pub responses : Str → Option (Frame ResponsesUsage)
  pub chat : Str → Option (Option ChatUsage)

-- `if v > u { u = v }`
unfoldable pub raise : ℤ → ℕ → ℕ
raise v u = if ltb_ℤ (pos u) v then pos_part v else u

-- The usage that counts: the inner one where there is one.
unfoldable pub frame_usage : {U : Type 0} → Frame U → Option U
frame_usage frame = elim frame.inner [
  | some (some u) ↦ some u
  | some none ↦ frame.usage
  | none ↦ frame.usage
]

-- No event: the whole text is one payload.
unfoldable pub or_whole : Str → List Str → List Str
or_whole whole [] = whole ∷ []
or_whole whole (p ∷ ps) = p ∷ ps

-- A frame with its input, output and cached tokens raises each of the three.
unfoldable pub raise_usage : ℤ → ℤ → ℤ → Usage → Usage
raise_usage input output cached u = record {
  input = raise input u.input;
  output = raise output u.output;
  cached = raise cached u.cached;
}

unfoldable pub add_anthropic : Option AnthropicUsage → Usage → Usage
add_anthropic none u = u
add_anthropic (some a) u =
    raise_usage (wrap_64 (a.input_tokens +ℤ a.cache_creation_input_tokens)) a.output_tokens
      a.cache_read_input_tokens u

unfoldable pub add_responses : Option ResponsesUsage → Usage → Usage
add_responses none u = u
add_responses (some r) u = raise_usage r.input_tokens r.output_tokens r.cached_tokens u

unfoldable pub add_chat : Option ChatUsage → Usage → Usage
add_chat none u = u
add_chat (some c) u = raise_usage c.prompt_tokens c.completion_tokens c.cached_tokens u

-- The usage that a payload shows in each of the three shapes.
unfoldable pub framed : {U : Type 0} → (Str → Option (Frame U)) → Str → Option U
framed decode p = elim (decode p) [ none ↦ none | some frame ↦ frame_usage frame ]

unfoldable pub unframed : (Str → Option (Option ChatUsage)) → Str → Option ChatUsage
unframed decode p = elim (decode p) [ none ↦ none | some u ↦ u ]

-- The loop over the payloads.
unfoldable pub merge_all :
    {U : Type 0} → (Option U → Usage → Usage) → (Str → Option U) → List Str → Usage → Usage
merge_all add read [] u = u
merge_all add read (p ∷ ps) u = merge_all add read ps (add (read p) u)

module _ (d : Decoder) where
  unfoldable pub parse_anthropic_usage : Str → Usage
  parse_anthropic_usage text =
      merge_all add_anthropic (framed d.anthropic) (or_whole text (sse_data_payloads text)) no_usage

  unfoldable pub parse_responses_usage : Str → Usage
  parse_responses_usage text =
      merge_all add_responses (framed d.responses) (or_whole text (sse_data_payloads text)) no_usage

  unfoldable pub parse_chat_usage : Str → Usage
  parse_chat_usage text =
      merge_all add_chat (unframed d.chat) (or_whole text (sse_data_payloads text)) no_usage
