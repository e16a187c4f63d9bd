-- ===== src/Providers/Examples.antt =====
-- The theorems about the provider plugins at a short conversation and a response with a tool call.
use kryneth_oss.Prelude.{
  ℕ, ◌≡◌, ◌⊎◌, Bytes, refl, inr, Option, none, some, List, [], ◌∷◌, String, Text, codes, text_eq,
}
use kryneth_oss.Json.{
  Value, string, array, object, no_value, value, Members, no_member, member, get, find, as_array,
  values_list,
}
use kryneth_oss.Providers.{
  user, assistant, tool, text, tool_call, tool_result, KrynethMessage, KrynethConversation, ok,
}
use kryneth_oss.Providers.Anthropic
use kryneth_oss.Providers.Anthropic.{
  openai_call, calls_of_blocks, call_value, map_anthropic_tool_use_to_openai_calls, unify_response,
}
use kryneth_oss.Providers.Anthropic.Unified.{Stands, listed, tool_calls_of, unify_response-Stands}
use kryneth_oss.Providers.OpenAi
use kryneth_oss.Providers.OpenAi.{OpenAiChatRequest}
use kryneth_oss.Providers.OpenAi.RoundTrip.{
  Call, said, called, returned, to_universal-from_universal,
}

abbrev print : Value → Text
print v = codes "{}"

abbrev location : Value
location = object no_member

abbrev talk : List KrynethMessage
talk =
    record { role = user; content = text (codes "Hi") ∷ [] }
    ∷ record { role = user; content = text (codes "Weather?") ∷ [] }
    ∷ record { role = assistant; content = text (codes "Sunny") ∷ [] }
    ∷ []

abbrev conversation : List KrynethMessage → KrynethConversation
conversation ms = record {
  system_prompt = some (codes "S");
  messages = ms;
  tools = none;
  temperature = none;
  top_p = none;
  max_tokens = none;
  stop = none;
  stream = none;
  model = none;
}

abbrev pair : String → Value → Members
pair k v = member (codes k) v no_member

abbrev block : Value
block = object (
    member (codes "id") (string (codes "c1")) (
      member (codes "input") location (
        member (codes "name") (string (codes "weather"))
          (pair "type" (string (codes "tool_use"))))))

abbrev raw : Members
raw = pair "content" (array (value block no_value))

abbrev no_count : Value → Option ℕ
no_count v = none

unify_response-Stands_example :
    Stands print
      (block ∷ [])
      (listed print (tool_calls_of (unify_response print no_count (object raw))))
unfolding get find as_array values_list text_eq
unify_response-Stands_example = unify_response-Stands print no_count (object raw) (block ∷ []) refl

abbrev read : Text → Option Value
read s = some location

abbrev plain_talk : List KrynethMessage
plain_talk =
    record { role = user; content = text (codes "Hi") ∷ [] }
    ∷ record { role = assistant; content = tool_call (codes "c1") (codes "weather") location ∷ [] }
    ∷ record { role = tool; content = tool_result (codes "c1") (codes "Sunny") ∷ [] }
    ∷ []

abbrev weather : Call
weather = record { id = codes "c1"; name = codes "weather"; arguments = location }

abbrev request : OpenAiChatRequest
request = OpenAi.request_of print (conversation plain_talk)

abbrev to_value : OpenAiChatRequest → Text ⊎ Value
to_value r = inr (string (codes "request"))

abbrev from_slice : Bytes → Text ⊎ OpenAiChatRequest
from_slice b = inr request

to_universal-from_universal_example :
    (OpenAi.from_universal print to_value (conversation plain_talk) ≡ ok (string (codes "request")))
    × (OpenAi.to_universal read from_slice [] ≡ ok (conversation plain_talk))
to_universal-from_universal_example =
    to_universal-from_universal print read to_value from_slice (λ v. []) (conversation plain_talk)
      (string (codes "request")) refl refl
      (
        said 72 (codes "i"),
        (called weather [] refl tt, (returned (codes "c1") 83 (codes "unny"), tt)),
      )
