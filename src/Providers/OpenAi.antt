-- ===== src/Providers/OpenAi.antt =====
-- The OpenAI plugin, src/infrastructure/providers/openai.rs, without its `extract_calls`. A request
-- is what serde reads it into and writes it from; `from_str` and `to_string` are serde_json's parser
-- and printer of a value.
pub mod RoundTrip
use kryneth_oss.Prelude.{
  Bool, true, false, ◌⊎◌, inl, inr, Bytes, Option, none, some, List, [], ◌∷◌, ◌++◌, String, Text,
  codes, text_eq, if◌then◌else◌,
}
use kryneth_oss.Errors.{GatewayError, invalid_json, response_build}
use kryneth_oss.Json.{
  Value, string, object, array, Members, no_member, member, get, as_str, as_array, get_str,
  and_then, values_of,
}
use kryneth_oss.Providers.{
  KrynethRole, system, user, assistant, tool, KrynethContent, text, image_url, tool_call,
  tool_result, KrynethMessage, KrynethConversation, UniversalToolResult, Outcome, ok, failed,
  then_try,
}

-- Its `type` is always `function`.
pub record OpenAiToolCall : Type 0 where
  pub id : Text
  pub name : Text
  pub arguments : Text

pub record OpenAiMessage : Type 0 where
  pub role : Text
  pub content : Option Value
  pub tool_calls : Option (List OpenAiToolCall)
  pub tool_call_id : Option Text

pub record OpenAiChatRequest : Type 0 where
  pub messages : List OpenAiMessage
  pub tools : Option (List Value)
  pub temperature : Option Text
  pub top_p : Option Text
  pub max_tokens : Option Text
  pub stop : Option (List Text)
  pub stream : Option Bool
  pub model : Option Text

abbrev pub role_text : KrynethRole → Text
role_text system = codes "system"
role_text user = codes "user"
role_text assistant = codes "assistant"
role_text tool = codes "tool"

-- The state of the loop over a message's contents.
pub record Parts : Type 0 where
  pub text_content : Text
  pub tool_calls : List OpenAiToolCall
  pub tool_call_id : Option Text

-- `push('\n')` where there is text already, and the text.
unfoldable pub push_text : Text → Text → Text
push_text [] t = t
push_text (c ∷ cs) t = (c ∷ cs) ++ (10 ∷ t)

abbrev if_any {ℓ} : {A : Type ℓ} → List A → Option (List A)
if_any [] = none
if_any (x ∷ xs) = some (x ∷ xs)

abbrev text_or_none : Text → Option Value
text_or_none [] = none
text_or_none (c ∷ cs) = some (string (c ∷ cs))

module _ (to_string : Value → Text) where
  unfoldable pub add_content : Parts → KrynethContent → Parts
  unfolding push_text
  add_content p (text t) = record p { text_content = push_text p.text_content t }
  add_content p (image_url url) = p
  add_content p (tool_call id name arguments) = record p {
    tool_calls =
        p.tool_calls ++ (record { id = id; name = name; arguments = to_string arguments } ∷ []);
  }
  add_content p (tool_result tool_id content) = record p {
    tool_call_id = some tool_id;
    text_content = push_text p.text_content content;
  }

  unfoldable pub parts_from : Parts → List KrynethContent → Parts
  unfolding add_content
  parts_from p [] = p
  parts_from p (c ∷ cs) = parts_from (add_content p c) cs

  abbrev no_parts : Parts
  no_parts = record { text_content = []; tool_calls = []; tool_call_id = none }

  unfoldable pub message_of : KrynethMessage → OpenAiMessage
  unfolding parts_from
  message_of m =
      let p = parts_from no_parts m.content in
      record {
        role = role_text m.role;
        content = text_or_none p.text_content;
        tool_calls = if_any p.tool_calls;
        tool_call_id = p.tool_call_id;
      }

  unfoldable pub messages_of : List KrynethMessage → List OpenAiMessage
  unfolding message_of
  messages_of [] = []
  messages_of (m ∷ ms) = message_of m ∷ messages_of ms

  abbrev system_message : Text → OpenAiMessage
  system_message sp = record {
    role = codes "system";
    content = some (string sp);
    tool_calls = none;
    tool_call_id = none;
  }

  abbrev pub with_system : Option Text → List OpenAiMessage → List OpenAiMessage
  with_system none ms = ms
  with_system (some sp) ms = system_message sp ∷ ms

  -- The request that `from_universal` builds.
  unfoldable pub request_of : KrynethConversation → OpenAiChatRequest
  unfolding messages_of
  request_of conv = record {
    messages = with_system conv.system_prompt (messages_of conv.messages);
    tools = conv.tools;
    temperature = conv.temperature;
    top_p = conv.top_p;
    max_tokens = conv.max_tokens;
    stop = conv.stop;
    stream = conv.stream;
    model = conv.model;
  }

  -- `to_value` is serde_json's, which fails with a text.
  unfoldable pub from_universal :
      (OpenAiChatRequest → Text ⊎ Value) → KrynethConversation → Outcome Value
  unfolding request_of
  from_universal to_value conv = elim (to_value (request_of conv)) [
    | inl e ↦ failed (response_build (codes "OpenAI serialize error: " ++ e))
    | inr v ↦ ok v
  ]

abbrev is_type : String → Value → Bool
is_type t part = elim (get_str (codes "type") part) [ none ↦ false | some s ↦ text_eq s (codes t) ]

-- The text of a system message: a string, or the first text among its parts.
unfoldable pub first_text : List Value → Option Text
unfolding get_str
first_text [] = none
first_text (p ∷ ps) =
    let rest = first_text ps in
    if is_type "text" p
    then elim (get_str (codes "text") p) [ none ↦ rest | some s ↦ some s ]
    else rest

unfoldable pub system_text : Option Value → Option Text
unfolding first_text as_str as_array
system_text none = none
system_text (some v) = elim (as_str v) [ some s ↦ some s | none ↦ and_then (as_array v) first_text ]

-- A part of a message: a text, or an image with a URL.
unfoldable pub part_content : Value → Option KrynethContent
unfolding get_str get
part_content part =
    if is_type "text" part
    then and_then (get_str (codes "text") part) (λ t. some (text t))
    else if is_type "image_url" part
    then and_then (and_then (get (codes "image_url") part) (get_str (codes "url")))
        (λ u. some (image_url u))
    else none

unfoldable pub parts_contents : List Value → List KrynethContent
unfolding part_content
parts_contents [] = []
parts_contents (p ∷ ps) =
    let rest = parts_contents ps in elim (part_content p) [ none ↦ rest | some c ↦ c ∷ rest ]

abbrev text_contents : Text → List KrynethContent
text_contents [] = []
text_contents (c ∷ cs) = text (c ∷ cs) ∷ []

unfoldable pub content_contents : Option Value → List KrynethContent
unfolding parts_contents as_str as_array
content_contents none = []
content_contents (some v) = elim (as_str v) [
  | some s ↦ text_contents s
  | none ↦ elim (as_array v) [ none ↦ [] | some ps ↦ parts_contents ps ]
]

-- The texts of a tool's message, one behind the other.
unfoldable pub result_text : List KrynethContent → Text
result_text [] = []
result_text (text t ∷ cs) = t ++ result_text cs
result_text (_ ∷ cs) = result_text cs

-- A message's role; the system's messages are taken out before.
unfoldable pub role_from : Text → Outcome KrynethRole
role_from r =
    if text_eq r (codes "user")
    then ok user
    else if text_eq r (codes "assistant")
    then ok assistant
    else if text_eq r (codes "tool")
    then ok tool
    else if text_eq r (codes "function")
    then ok tool
    else failed (invalid_json (codes "Unknown OpenAI role: " ++ r))

abbrev as_result : KrynethRole → Option Text → List KrynethContent → List KrynethContent
as_result tool (some tool_id) cs = tool_result tool_id (result_text cs) ∷ []
as_result _ _ cs = cs

abbrev unless_empty : KrynethRole → List KrynethContent → Option KrynethMessage
unless_empty role [] = none
unless_empty role (c ∷ cs) = some (record { role = role; content = c ∷ cs })

abbrev and_rest : Option KrynethMessage → List KrynethMessage → List KrynethMessage
and_rest none ms = ms
and_rest (some m) ms = m ∷ ms

abbrev or_later : Option Text → Option Text → Option Text
or_later none earlier = earlier
or_later (some s) _ = some s

-- The system prompt and the messages that the loop has collected.
pub record Read : Type 0 where
  pub system_prompt : Option Text
  pub messages : List KrynethMessage

module _ (from_str : Text → Option Value) where
  unfoldable pub call_contents : List OpenAiToolCall → Outcome (List KrynethContent)
  call_contents [] = ok []
  call_contents (c ∷ cs) = elim (from_str c.arguments) [
    | none ↦ failed (invalid_json (codes "Invalid tool arguments JSON"))
    | some args ↦ then_try (call_contents cs) (λ rest. ok (tool_call c.id c.name args ∷ rest))
  ]

  abbrev calls_in : Option (List OpenAiToolCall) → List OpenAiToolCall
  calls_in none = []
  calls_in (some cs) = cs

  -- The message that stands for one of the request's, or none for an empty one.
  unfoldable pub read_message : OpenAiMessage → Outcome (Option KrynethMessage)
  unfolding role_from content_contents call_contents result_text
  read_message m = then_try (role_from m.role) (λ role.
      then_try (call_contents (calls_in m.tool_calls)) (λ calls.
        ok (
          unless_empty role (as_result role m.tool_call_id (content_contents m.content ++ calls)))))

  -- The loop of `to_universal`; a later system prompt stands in for an earlier one.
  unfoldable pub read_messages : Option Text → List OpenAiMessage → Outcome Read
  unfolding system_text read_message
  read_messages sp [] = ok (record { system_prompt = sp; messages = [] })
  read_messages sp (m ∷ ms) =
      let after_system = read_messages (or_later (system_text m.content) sp) ms in
      let after = read_messages sp ms in
      if text_eq m.role (codes "system")
      then after_system
      else then_try (read_message m) (λ found. then_try after (λ r.
        ok (record { system_prompt = r.system_prompt; messages = and_rest found r.messages })))

  -- The conversation that `to_universal` makes of the request.
  unfoldable pub conversation_of : OpenAiChatRequest → Outcome KrynethConversation
  unfolding read_messages
  conversation_of req = then_try (read_messages none req.messages) (λ r. ok (record {
    system_prompt = r.system_prompt;
    messages = r.messages;
    tools = req.tools;
    temperature = req.temperature;
    top_p = req.top_p;
    max_tokens = req.max_tokens;
    stop = req.stop;
    stream = req.stream;
    model = req.model;
  }))

  -- `from_slice` is serde_json's, which fails with a text.
  unfoldable pub to_universal :
      (Bytes → Text ⊎ OpenAiChatRequest) → Bytes → Outcome KrynethConversation
  unfolding conversation_of
  to_universal from_slice payload = elim (from_slice payload) [
    | inl e ↦ failed (invalid_json (codes "OpenAI parse error: " ++ e))
    | inr req ↦ conversation_of req
  ]

abbrev field : String → Value → Members → Members
field k v ms = member (codes k) v ms

unfoldable pub format_result : UniversalToolResult → Value
format_result res = object (
    field "content" (string res.content)
      (field "role" (string (codes "tool")) (field "tool_call_id" (string res.call_id) no_member)))
