-- ===== src/Gateway/Normalize.antt =====
-- internal/gateway/normalize.go: how a request body is rewritten. `valid_utf8` is
-- `utf8.ValidString`; a body that is decoded is an object.
pub mod Limit
use mirasim2api.Base.{
  ℕ, zero, suc, ◌+◌, ◌-◌, Bool, true, false, not, ◌||◌, Option, none, some, List, [], ◌∷◌, ◌++◌,
  Str, str, ltb, leb, ◌==◌, if◌then◌else◌, length, take, text_key, number_key,
}
use mirasim2api.Base.Text.{cut_prefix, has_prefix, contains}
use mirasim2api.Base.Json.{
  Json, null, string, array, object, Items, no_items, item, Fields, no_fields, field, field_of,
  set_field, delete_field, text_of, flag_of, items_of, list_of,
}
use mirasim2api.Pool.Pick.{is_empty}
use mirasim2api.Gateway.Response.{Endpoint, messages, responses, chat}

abbrev pub claude_fingerprint : Str
claude_fingerprint = str "You are a Claude agent, built on Anthropic's Claude Agent SDK."

abbrev pub system_byte_limit : ℕ
system_byte_limit = 200

pub data Family : Type 0 where
  claude gpt third : Family

unfoldable pub model_family : Str → Family
model_family model =
    if has_prefix (str "claude") model
    then claude
    else if has_prefix (str "gpt") model
    then gpt
    else third

unfoldable pub text_block : Str → Json
text_block s =
    object (field (str "type") (string (str "text")) (field (str "text") (string s) no_fields))

-- The loop of `contentBlocks`: texts become blocks.
unfoldable pub blocks_of : Items → List Json
blocks_of no_items = []
blocks_of (item (string s) vs) = text_block s ∷ blocks_of vs
blocks_of (item v vs) = v ∷ blocks_of vs

-- A field that is not there is nil, as is null.
unfoldable pub content_blocks : Option Json → List Json
content_blocks (some (string s)) = text_block s ∷ []
content_blocks (some (array vs)) = blocks_of vs
content_blocks _ = []

unfoldable pub block_text : Json → Str
block_text (object fs) = text_of (field_of (str "text") fs)
block_text _ = []

unfoldable pub any_fingerprint : List Json → Bool
any_fingerprint [] = false
any_fingerprint (v ∷ vs) = contains claude_fingerprint (block_text v) || any_fingerprint vs

unfoldable pub system_has_fingerprint : Option Json → Bool
system_has_fingerprint (some (string s)) = contains claude_fingerprint s
system_has_fingerprint (some (array vs)) = any_fingerprint (list_of vs)
system_has_fingerprint _ = false

unfoldable pub text_length : List Json → ℕ
text_length [] = 0
text_length (v ∷ vs) = length (block_text v) + text_length vs

unfoldable pub system_len : Option Json → ℕ
system_len (some (string s)) = length s
system_len (some (array vs)) = text_length (list_of vs)
system_len _ = 0

-- `for !utf8.ValidString(text) { text = text[:len(text)-1] }`; the empty text is valid, so as many
-- rounds as the text has bytes are enough.
unfoldable pub drop_partial : (Str → Bool) → ℕ → Str → Str
drop_partial valid_utf8 zero text = text
drop_partial valid_utf8 (suc n) text =
    let shorter = drop_partial valid_utf8 n (take n text) in
    if valid_utf8 text then text else shorter

unfoldable pub cut_text : (Str → Bool) → ℕ → Str → Str
cut_text valid_utf8 remaining text =
    if ltb remaining (length text)
    then drop_partial valid_utf8 remaining (take remaining text)
    else text

-- The loop of `truncateSystemBlocks`, which ends where nothing remains.
unfoldable pub truncate_system_blocks : (Str → Bool) → List Json → ℕ → List Json
truncate_system_blocks valid_utf8 [] remaining = []
truncate_system_blocks valid_utf8 (b ∷ bs) remaining =
    let text = cut_text valid_utf8 remaining (block_text b) in
    let left = remaining - length text in
    let rest = truncate_system_blocks valid_utf8 bs left in
    let more = if left == 0 then [] else rest in
    if is_empty text then more else text_block text ∷ more

-- The messages that stay, and the blocks of those with the role `system`.
abbrev pub is_system : Json → Bool
is_system (object fs) = elim (field_of (str "role") fs) [
  | some (string s) ↦ s == str "system"
  | _ ↦ false
]
is_system _ = false

abbrev pub message_content : Json → Option Json
message_content (object fs) = field_of (str "content") fs
message_content _ = none

unfoldable pub kept_messages : List Json → List Json
kept_messages [] = []
kept_messages (v ∷ vs) = if is_system v then kept_messages vs else v ∷ kept_messages vs

unfoldable pub hoisted_blocks : List Json → List Json
hoisted_blocks [] = []
hoisted_blocks (v ∷ vs) =
    if is_system v
    then content_blocks (message_content v) ++ hoisted_blocks vs
    else hoisted_blocks vs

-- A body with what was done to it.
abbrev pub Rewritten : Type 0
Rewritten = Fields × List Str

abbrev pub is_nil : List Json → Bool
is_nil [] = true
is_nil (v ∷ vs) = false

-- A nil slice is marshalled as null.
abbrev pub array_of : List Json → Json
array_of [] = null
array_of (v ∷ vs) = array (items_of (v ∷ vs))

unfoldable pub hoist_system : Rewritten → Rewritten
hoist_system (m, actions) = elim (field_of (str "messages") m) [
  | some (array vs) ↦ if is_nil (hoisted_blocks (list_of vs)) then (m, actions) else (
    set_field (str "system")
        (array_of (content_blocks (field_of (str "system") m) ++ hoisted_blocks (list_of vs)))
        (set_field (str "messages") (array_of (kept_messages (list_of vs))) m),
    actions ++ str "hoist_system" ∷ [],
  )
  | _ ↦ (m, actions)
]

unfoldable pub strip_top_p : Rewritten → Rewritten
strip_top_p (m, actions) = elim (field_of (str "top_p") m) [
  | none ↦ (m, actions)
  | some v ↦ (delete_field (str "top_p") m, actions ++ str "strip_top_p" ∷ [])
]

unfoldable pub inject_fingerprint : Rewritten → Rewritten
inject_fingerprint (m, actions) =
    if system_has_fingerprint (field_of (str "system") m) then (m, actions) else (
      set_field (str "system")
          (array_of (text_block claude_fingerprint ∷ content_blocks (field_of (str "system") m))) m,
      actions ++ str "inject_fingerprint" ∷ [],
    )

unfoldable pub cloak : (Str → Bool) → (strict : Bool) → Rewritten → Rewritten
cloak valid_utf8 strict (m, actions) =
    if leb (system_len (field_of (str "system") m)) system_byte_limit
    then (m, actions)
    else if strict
    then (
      set_field (str "system") (array_of (text_block claude_fingerprint ∷ [])) m,
      actions ++ str "cloak_strict" ∷ [],
    )
    else (
      set_field (str "system")
          (array_of (
            truncate_system_blocks valid_utf8 (content_blocks (field_of (str "system") m))
              system_byte_limit))
          m,
      actions ++ str "cloak_truncate" ∷ [],
    )

unfoldable pub normalize_messages : (Str → Bool) → Str → (strict : Bool) → Rewritten → Rewritten
normalize_messages valid_utf8 model strict r =
    let r' = strip_top_p (hoist_system r) in
    if not (has_prefix (str "claude") model)
    then r'
    else cloak valid_utf8 strict (inject_fingerprint r')

-- A text as input of `/v1/responses` becomes one message of the user.
unfoldable pub wrap_input : Rewritten → Rewritten
wrap_input (m, actions) = elim (field_of (str "input") m) [
  | some (string s) ↦ (
    set_field (str "input")
        (array (
          item
            (object (
              field (str "role") (string (str "user")) (
                field (str "content")
                  (array (
                    item
                      (object (
                        field (str "type") (string (str "input_text"))
                          (field (str "text") (string s) no_fields)))
                      no_items))
                  no_fields)))
            no_items))
        m,
    actions ++ str "wrap_input" ∷ [],
  )
  | _ ↦ (m, actions)
]

pub record NormResult : Type 0 where
  pub body : Str
  pub model : Str
  pub stream : Bool
  pub prompt_cache_key : Str
  pub affinity_key : Str
  pub actions : List Str

-- `json.Unmarshal` into a map, `json.Marshal`, and the hex of SHA-256.
pub record Codec : Type 0 where
  pub unmarshal : Str → Option Fields
  pub marshal : Json → Str
  pub sha256_hex : Str → Str
  pub valid_utf8 : Str → Bool

-- `writePrefix`: nil writes nothing. (An empty truncation, which Go would write as null, does not
-- arise: the fingerprint stands in the system text.)
unfoldable pub prefix_of : Codec → Option Json → Str
prefix_of codec none = []
prefix_of codec (some null) = []
prefix_of codec (some v) = take 128 (codec.marshal v)

unfoldable pub first_message : Option Json → Option Json
first_message (some (array (item v vs))) = some v
first_message _ = none

unfoldable pub affinity_of : Codec → Str → Str → Fields → Str
affinity_of codec cache_key model m =
    if not (is_empty cache_key)
    then cache_key
    else take 16 (
        codec.sha256_hex (
          model
          ++ prefix_of codec (field_of (str "system") m)
          ++ prefix_of codec (first_message (field_of (str "messages") m))
          ++ prefix_of codec (field_of (str "input") m)))

unfoldable pub strip_prefix : Str → Fields → Str × Rewritten
strip_prefix model m = elim (cut_prefix (str "mirasim/") model) [
  | none ↦ (model, (m, []))
  | some stripped ↦
      (stripped, (set_field (str "model") (string stripped) m, str "strip_prefix" ∷ []))
]

unfoldable pub rewrite_for : (Str → Bool) → Endpoint → Str → (strict : Bool) → Rewritten → Rewritten
rewrite_for valid_utf8 messages model strict r = normalize_messages valid_utf8 model strict r
rewrite_for valid_utf8 responses model strict r = wrap_input r
rewrite_for valid_utf8 chat model strict r = r

-- The normalized request, or the text of the error.
pub data Normalized : Type 0 where
  invalid : Str → Normalized
  normalized : NormResult → Normalized

unfoldable pub finish : Codec → Endpoint → (strict : Bool) → Fields → Str × Rewritten → Normalized
finish codec endpoint strict raw (model, r) =
    let (m, actions) = rewrite_for codec.valid_utf8 endpoint model strict r in
    let cache_key = text_of (field_of (str "prompt_cache_key") raw) in
    normalized (record {
      body = codec.marshal (object m);
      model = model;
      stream = flag_of (field_of (str "stream") raw);
      prompt_cache_key = cache_key;
      affinity_key = affinity_of codec cache_key model m;
      actions = actions;
    })

unfoldable pub normalize : Codec → Endpoint → Str → (strict : Bool) → Normalized
normalize codec endpoint raw strict = elim (codec.unmarshal raw) [
  | none ↦ invalid (str "invalid JSON body")
  | some m ↦
      let model = text_of (field_of (str "model") m) in
      if is_empty model
      then invalid (str "model is required")
      else finish codec endpoint strict m (strip_prefix model m)
]
