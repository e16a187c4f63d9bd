-- ===== src/Tools/Phantom.antt =====
-- `intercept_phantom_call`, and the index that it looks a tool up by.
pub mod Index
pub mod Answer
use kryneth_oss.Prelude.{
  ℕ, zero, suc, Bool, true, false, not, Option, none, some, List, [], ◌∷◌, ◌++◌, String, Text,
  Bytes, codes, text_eq, contains, if◌then◌else◌,
}
use kryneth_oss.Json.{
  Value, string, number, array, object, Members, member, no_member, value, no_value, get, as_str,
  as_array, get_str, and_then,
}
use kryneth_oss.Tools.{
  phantom_tool_name, ToolDescriptor, ToolRegistry, Found, absent, panicked, found, lookup_tool,
  descriptor_of,
}

abbrev pub head : List Value → Option Value
head [] = none
head (v ∷ vs) = some v

-- `/choices/0/message/tool_calls/0`
unfoldable pub first_call : Value → Option Value
unfolding get as_array
first_call val =
    and_then
      (and_then
        (and_then
          (and_then (and_then (and_then (get (codes "choices") val) as_array) head)
            (get (codes "message")))
          (get (codes "tool_calls")))
        as_array)
      head

unfoldable pub call_function : Value → Option Value
unfolding first_call get
call_function val = and_then (first_call val) (get (codes "function"))

abbrev or_text : Option Text → Text → Text
or_text none d = d
or_text (some s) d = s

abbrev or_value : Option Value → Value → Value
or_value none d = d
or_value (some v) d = v

-- The schema's text, or the summary in an object; the summary's quotes are not escaped.
unfoldable pub schema_content : (Value → Text) → ToolDescriptor → Text
schema_content to_string d = elim d.schema [
  | none ↦ codes "{\"summary\":\"" ++ (d.summary ++ codes "\"}")
  | some s ↦ to_string s
]

abbrev field : String → Value → Members → Members
field k v ms = member (codes k) v ms

abbrev zero_count : Value
zero_count = number (codes "0")

-- The answer; the members stand in the order of their keys.
unfoldable pub synthetic : Value → Text → Text → Value
synthetic id call_id content = object (
    field "choices"
      (array (
        value
          (object (
            field "finish_reason" (string (codes "stop")) (
              field "index" zero_count (
                field "message"
                  (object (
                    field "content" (string content) (
                      field "role" (string (codes "tool"))
                        (field "tool_call_id" (string call_id) no_member))))
                  no_member))))
          no_value))
      (field "id" id (
        field "object" (string (codes "chat.completion")) (
          field "usage"
            (object (
              field "completion_tokens" zero_count
                (field "prompt_tokens" zero_count (field "total_tokens" zero_count no_member))))
            no_member))))

-- The tool that the call asks for, and the answer to it; `from_str` is serde_json's parser of a text.
unfoldable pub requested_tool : (Text → Option Value) → Value → Option Text
unfolding call_function get_str
requested_tool from_str val =
    and_then
      (from_str (or_text (and_then (call_function val) (get_str (codes "arguments"))) (codes "{}")))
      (get_str (codes "tool_name"))

unfoldable pub intercept_value :
    (Text → Option Value) → (Value → Text) → ToolRegistry → Value → Option Value
unfolding call_function requested_tool descriptor_of schema_content synthetic get_str first_call
intercept_value from_str to_string r val =
    elim (and_then (call_function val) (get_str (codes "name"))) [
      | none ↦ none
      | some called ↦
          if text_eq called phantom_tool_name
          then elim (requested_tool from_str val) [
            | none ↦ none
            | some name ↦ elim (descriptor_of r name) [
              | none ↦ none
              | some d ↦ some (
                  synthetic (or_value (get (codes "id") val) (string (codes "phantom-resp")))
                    (or_text (and_then (first_call val) (get_str (codes "id")))
                      (codes "call_phantom"))
                    (schema_content to_string d))
            ]
          ]
          else none
    ]

unfoldable pub intercept_phantom_call :
    (Bytes → Option Value)
    → (Text → Option Value)
    → (Value → Text)
    → (Value → Option Bytes)
    → ToolRegistry
    → Bytes
    → Option Bytes
unfolding intercept_value
intercept_phantom_call from_slice from_str to_string to_vec r response =
    if contains phantom_tool_name response
    then and_then (and_then (from_slice response) (intercept_value from_str to_string r)) to_vec
    else none
