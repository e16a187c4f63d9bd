-- ===== src/Providers/Gemini.antt =====
-- The plugins for Gemini and Cohere, src/infrastructure/providers/gemini.rs and cohere.rs, without
-- their `extract_calls`.
use kryneth_oss.Prelude.{
  ◌≡◌, refl, ap, Option, none, some, List, [], ◌∷◌, String, Text, codes, map, starts_with,
  if◌then◌else◌,
}
use kryneth_oss.Errors.{response_build}
use kryneth_oss.Json.{
  Value, number, string, object, array, Members, no_member, member, put, values_of,
}
use kryneth_oss.Providers.{
  KrynethRole, system, user, assistant, tool, KrynethContent, text, image_url, tool_call,
  tool_result, KrynethMessage, KrynethConversation, UniversalToolResult, Outcome, failed,
}

abbrev field : String → Value → Members → Members
field k v ms = member (codes k) v ms

abbrev single : String → Value → Value
single k v = object (field k v no_member)

unfoldable pub format_result : UniversalToolResult → Value
format_result res = single "functionResponse" (
    object (
      field "name" (string res.call_id) (
        field "response"
          (object
            (field "content" (string res.content) (field "name" (string res.call_id) no_member)))
          no_member)))

unfoldable pub cohere_format_result : UniversalToolResult → Value
cohere_format_result res = object (
    field "call"
      (object (field "name" (string res.call_id) (field "parameters" (object no_member) no_member)))
      (field "outputs" (array (values_of (single "result" (string res.content) ∷ []))) no_member))

unfoldable pub to_universal : Outcome KrynethConversation
to_universal = failed (response_build (codes "Gemini to_universal not fully implemented"))

unfoldable pub cohere_to_universal : Outcome KrynethConversation
cohere_to_universal = failed (response_build (codes "Cohere to_universal not implemented"))

unfoldable pub cohere_from_universal : KrynethConversation → Outcome Value
cohere_from_universal conv = failed (response_build (codes "Cohere from_universal not implemented"))

abbrev pub role_text : KrynethRole → Value
role_text system = string (codes "user")
role_text user = string (codes "user")
role_text assistant = string (codes "model")
role_text tool = string (codes "model")

-- Only texts become parts.
unfoldable pub parts_of : List KrynethContent → List Value
parts_of [] = []
parts_of (text t ∷ cs) = single "text" (string t) ∷ parts_of cs
parts_of (image_url url ∷ cs) = parts_of cs
parts_of (tool_call id name arguments ∷ cs) = parts_of cs
parts_of (tool_result tool_id content ∷ cs) = parts_of cs

unfoldable pub content_of : KrynethMessage → Value
unfolding parts_of
content_of m = object (
    field "parts" (array (values_of (parts_of m.content)))
      (field "role" (role_text m.role) no_member))

abbrev set_some : {A : Type 0} → String → (A → Value) → Option A → Members → Members
set_some k f none ms = ms
set_some k f (some a) ms = put (codes k) (f a) ms

-- The settings; a number keeps its text.
unfoldable pub generation_config : KrynethConversation → Members
unfolding put
generation_config conv =
    set_some "stopSequences" (λ ts. array (values_of (map string ts))) conv.stop
      (set_some "maxOutputTokens" number conv.max_tokens (
        set_some "topP" number conv.top_p
          (set_some "temperature" number conv.temperature no_member)))

abbrev if_any : Members → Members → Members
if_any no_member ms = ms
if_any (member k v cs) ms = put (codes "generationConfig") (object (member k v cs)) ms

unfoldable pub from_universal : KrynethConversation → Value
unfolding content_of generation_config put
from_universal conv = object (
    if_any (generation_config conv) (
      set_some "systemInstruction"
        (λ sp. single "parts" (array (values_of (single "text" (string sp) ∷ []))))
        conv.system_prompt
        (field "contents" (array (values_of (map content_of conv.messages))) no_member)))

unfoldable pub unify_stream_chunk : Text → Text
unify_stream_chunk chunk = if starts_with (codes "data: ") chunk then chunk else []

-- A conversation without its tools, its images, and its tools' calls and results.
unfoldable pub only_texts : List KrynethContent → List KrynethContent
only_texts [] = []
only_texts (text t ∷ cs) = text t ∷ only_texts cs
only_texts (_ ∷ cs) = only_texts cs

abbrev pub message_texts : KrynethMessage → KrynethMessage
message_texts m = record m { content = only_texts m.content }

abbrev pub texts_of : KrynethConversation → KrynethConversation
texts_of conv = record conv { messages = map message_texts conv.messages; tools = none }

parts_of-only_texts : (cs : List KrynethContent) → parts_of (only_texts cs) ≡ parts_of cs
unfolding parts_of only_texts
parts_of-only_texts [] = refl
parts_of-only_texts (text t ∷ cs) = ap (λ r. single "text" (string t) ∷ r) (parts_of-only_texts cs)
parts_of-only_texts (image_url url ∷ cs) = parts_of-only_texts cs
parts_of-only_texts (tool_call id name arguments ∷ cs) = parts_of-only_texts cs
parts_of-only_texts (tool_result tool_id content ∷ cs) = parts_of-only_texts cs

content_of-message_texts : (m : KrynethMessage) → content_of (message_texts m) ≡ content_of m
unfolding content_of
content_of-message_texts m = rw (parts_of-only_texts m.content) refl

contents_same :
    (ms : List KrynethMessage) → map content_of (map message_texts ms) ≡ map content_of ms
contents_same [] = refl
contents_same (m ∷ ms) = cc (content_of-message_texts m, contents_same ms)

-- Gemini is never told of tools: a conversation's request is the same without its tools, its tool
-- calls, the results of the tools and its images, of which nothing is sent.
pub from_universal-texts_of :
    (conv : KrynethConversation) → from_universal (texts_of conv) ≡ from_universal conv
unfolding from_universal generation_config
from_universal-texts_of conv = rw (contents_same conv.messages) refl
