-- ===== src/Providers/Anthropic.antt =====
-- The Anthropic plugin, src/infrastructure/providers/anthropic.rs, without its `extract_calls`.
-- `as_u64` is that of serde_json; the sum of the two token counts is taken modulo 2 ^ 64.
pub mod Alternate
pub mod Unified
use kryneth_oss.Prelude.{
  ℕ, ◌+◌, ◌⊎◌, inl, inr, Bool, true, false, not, ◌&&◌, ◌||◌, Option, none, some, List, [], ◌∷◌,
  ◌++◌, String, Text, codes, text_eq, starts_with, length, drop, trim, decimal, u64, if◌then◌else◌,
  ltb,
}
use kryneth_oss.Errors.{GatewayError, response_build}
use kryneth_oss.Json.{
  Value, null, bool, number, string, array, object, Values, no_value, value, Members, no_member,
  member, get, as_str, as_array, get_str, and_then, values_of,
}
use kryneth_oss.Providers.{
  KrynethRole, system, user, assistant, tool, KrynethContent, text, image_url, tool_call,
  tool_result, KrynethMessage, KrynethConversation, UniversalToolResult, ToolExecutionStatus,
  success, error, Outcome, ok, failed,
}

-- The role of a message, which the source keeps as the text `user` or `assistant`.
pub data AnthropicRole : Type 0 where
  user_role assistant_role : AnthropicRole

pub data AnthropicContent : Type 0 where
  text_block : Text → AnthropicContent
  image_block : Text → AnthropicContent  -- a source of type `url` with media type `image/jpeg`
  tool_use_block : Text → Text → Value → AnthropicContent
  tool_result_block : Text → Text → AnthropicContent

pub record AnthropicMessage : Type 0 where
  pub role : AnthropicRole
  pub content : List AnthropicContent

pub record AnthropicRequest : Type 0 where
  pub system_text : Option Text
  pub messages : List AnthropicMessage
  pub tools : Option (List Value)
  pub temperature : Option Text
  pub top_p : Option Text
  pub max_tokens : Text
  pub stop_sequences : Option (List Text)
  pub stream : Option Bool
  pub model : Option Text

unfoldable pub role_of : KrynethRole → Option AnthropicRole
role_of system = none
role_of user = some user_role
role_of tool = some user_role
role_of assistant = some assistant_role

abbrev pub other_role : AnthropicRole → AnthropicRole
other_role user_role = assistant_role
other_role assistant_role = user_role

unfoldable pub block_of : KrynethContent → AnthropicContent
block_of (text t) = text_block t
block_of (image_url url) = image_block url
block_of (tool_call id name arguments) = tool_use_block id name arguments
block_of (tool_result tool_id content) = tool_result_block tool_id content

unfoldable pub blocks_of : List KrynethContent → List AnthropicContent
unfolding block_of
blocks_of [] = []
blocks_of (c ∷ cs) = block_of c ∷ blocks_of cs

abbrev pub dummy : AnthropicRole → AnthropicMessage
dummy r = record { role = other_role r; content = text_block (codes "<dummy>") ∷ [] }

unfoldable pub repeats : Option AnthropicRole → AnthropicRole → Bool
repeats none r = false
repeats (some user_role) user_role = true
repeats (some assistant_role) assistant_role = true
repeats (some _) _ = false

-- The loop of `from_universal`; of the messages pushed so far it reads the role of the last.
unfoldable pub messages_from : Option AnthropicRole → List KrynethMessage → List AnthropicMessage
unfolding role_of blocks_of repeats
messages_from last [] = []
messages_from last (m ∷ ms) = elim (role_of m.role) [
  | none ↦ messages_from last ms
  | some r ↦
      let msg : AnthropicMessage = record { role = r; content = blocks_of m.content } in
      let rest = messages_from (some r) ms in
      if repeats last r then dummy r ∷ msg ∷ rest else msg ∷ rest
]

abbrev or_value : Option Value → Value → Value
or_value none d = d
or_value (some v) d = v

abbrev or_text : Option Text → Text → Text
or_text none d = d
or_text (some s) d = s

abbrev field : String → Value → Members → Members
field k v ms = member (codes k) v ms

abbrev lit : String → Value
lit s = string (codes s)

-- `json!({"type": "object", "properties": {}})`
abbrev no_parameters : Value
no_parameters =
    object (field "properties" (object no_member) (field "type" (lit "object") no_member))

abbrev is_object : Value → Bool
is_object (object ms) = true
is_object _ = false

-- A tool of the type `function` whose function has a name; the others are left out.
unfoldable pub map_tool : Value → Option Value
unfolding get get_str
map_tool v =
    if text_eq (or_text (get_str (codes "type") v) []) (codes "function")
    then and_then (get (codes "function") v) (λ function.
      and_then (get_str (codes "name") function) (λ name. some (
        object (
          field "description" (string (or_text (get_str (codes "description") function) [])) (
            field "input_schema" (or_value (get (codes "parameters") function) no_parameters)
              (field "name" (string name) no_member))))))
    else none

unfoldable pub map_tools : List Value → List Value
unfolding map_tool
map_tools [] = []
map_tools (v ∷ vs) =
    let rest = map_tools vs in elim (map_tool v) [ none ↦ rest | some w ↦ w ∷ rest ]

abbrev if_any : List Value → Option (List Value)
if_any [] = none
if_any (v ∷ vs) = some (v ∷ vs)

unfoldable pub map_openai_tools_to_anthropic : Option (List Value) → Option (List Value)
unfolding map_tools
map_openai_tools_to_anthropic tools = and_then tools (λ ts. if_any (map_tools ts))

-- The request that `from_universal` builds.
unfoldable pub request_of : KrynethConversation → AnthropicRequest
unfolding messages_from map_openai_tools_to_anthropic
request_of conv = record {
  system_text = conv.system_prompt;
  messages = messages_from none conv.messages;
  tools = map_openai_tools_to_anthropic conv.tools;
  temperature = conv.temperature;
  top_p = conv.top_p;
  max_tokens = or_text conv.max_tokens (codes "4096");
  stop_sequences = conv.stop;
  stream = conv.stream;
  model = conv.model;
}

-- What serde_json's `to_value` gives, or the text of its error.
unfoldable pub serialized : Text ⊎ Value → Outcome Value
serialized (inl e) = failed (response_build (codes "Anthropic serialize error: " ++ e))
serialized (inr v) = ok v

unfoldable pub from_universal :
    (AnthropicRequest → Text ⊎ Value) → KrynethConversation → Outcome Value
unfolding request_of serialized
from_universal to_value conv = serialized (to_value (request_of conv))

unfoldable pub to_universal : Outcome KrynethConversation
to_universal = failed (response_build (codes "Anthropic to_universal not fully implemented"))

unfoldable pub format_result : UniversalToolResult → Value
format_result res = object (
    field "content" (string res.content) (
      field "is_error" (bool (elim res.status [ error ↦ true | success ↦ false ]))
        (field "tool_use_id" (string res.call_id) (field "type" (lit "tool_result") no_member))))

-- A tool call in OpenAI's form.
abbrev pub call_value : Text → Text → Text → Value
call_value id name arguments = object (
    field "function"
      (object (field "arguments" (string arguments) (field "name" (string name) no_member)))
      (field "id" (string id) (field "type" (lit "function") no_member)))

unfoldable pub is_tool_use : Value → Bool
unfolding get_str
is_tool_use block = elim (get_str (codes "type") block) [
  | none ↦ false
  | some t ↦ text_eq t (codes "tool_use")
]

module _ (to_string : Value → Text) where
  -- The OpenAI call of a block, for a `tool_use` with an id, a name and an object as its input.
  unfoldable pub openai_call : Value → Option Value
  unfolding is_tool_use get get_str
  openai_call block =
      if is_tool_use block
      then and_then (get_str (codes "id") block) (λ id.
        and_then (get_str (codes "name") block) (λ name.
          and_then (get (codes "input") block) (λ input.
            if is_object input then some (call_value id name (to_string input)) else none)))
      else none

  unfoldable pub calls_of_blocks : List Value → List Value
  unfolding openai_call
  calls_of_blocks [] = []
  calls_of_blocks (b ∷ bs) =
      let rest = calls_of_blocks bs in elim (openai_call b) [ none ↦ rest | some c ↦ c ∷ rest ]

  unfoldable pub map_anthropic_tool_use_to_openai_calls : List Value → Option (List Value)
  unfolding calls_of_blocks
  map_anthropic_tool_use_to_openai_calls blocks = if_any (calls_of_blocks blocks)

  -- The text of the first block of the type `text`.
  unfoldable pub first_text : List Value → Option Text
  unfolding get_str
  first_text [] = none
  first_text (b ∷ bs) =
      let rest = first_text bs in
      if text_eq (or_text (get_str (codes "type") b) []) (codes "text")
      then get_str (codes "text") b
      else rest

  abbrev message : Text → Option (List Value) → Value
  message content none =
      object (field "content" (string content) (field "role" (lit "assistant") no_member))
  message content (some calls) = object (
      field "content" (string content)
        (field "role" (lit "assistant") (field "tool_calls" (array (values_of calls)) no_member)))

  abbrev finish_reason : Option (List Value) → Value
  finish_reason none = lit "stop"
  finish_reason (some calls) = lit "tool_calls"

  abbrev count : ℕ → Value
  count n = number (decimal n)

  abbrev or_zero : Option ℕ → ℕ
  or_zero none = 0
  or_zero (some n) = n

  abbrev response : Text → Text → Text → Option (List Value) → ℕ → ℕ → Value
  response id model content calls input_tokens output_tokens = object (
      field "choices"
        (array (
          value
            (object (
              field "finish_reason" (finish_reason calls)
                (field "index" (count 0) (field "message" (message content calls) no_member))))
            no_value))
        (field "created" (count 0) (
          field "id" (string id) (
            field "model" (string model) (
              field "object" (lit "chat.completion") (
                field "usage"
                  (object (
                    field "completion_tokens" (count output_tokens) (
                      field "prompt_tokens" (count input_tokens) (
                        field "total_tokens" (count (u64 (input_tokens + output_tokens)))
                          no_member))))
                  no_member))))))

  abbrev usage : (Value → Option ℕ) → String → Value → ℕ
  usage as_u64 k raw =
      or_zero (and_then (and_then (get (codes "usage") raw) (get (codes k))) as_u64)

  unfoldable pub unify_response : (Value → Option ℕ) → Value → Value
  unfolding map_anthropic_tool_use_to_openai_calls first_text get get_str as_array
  unify_response as_u64 raw =
      let blocks = and_then (get (codes "content") raw) as_array in
      response (or_text (get_str (codes "id") raw) (codes "chatcmpl-fallback"))
        (or_text (get_str (codes "model") raw) (codes "claude"))
        (or_text (and_then blocks first_text) [])
        (and_then blocks map_anthropic_tool_use_to_openai_calls) (usage as_u64 "input_tokens" raw)
        (usage as_u64 "output_tokens" raw)
