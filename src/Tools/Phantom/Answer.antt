-- ===== src/Tools/Phantom/Answer.antt =====
-- What the answer to a call of the phantom tool says.
use kryneth_oss.Prelude.{
  ◌≡◌, refl, inl, inr, Option, none, some, Text, codes, text_eq, text_eq_sound, Bool-cases,
  Option-cases,
}
use mathlib.Core.Path.{subst}
use kryneth_oss.Json.{Value, get, find, as_str, as_array, values_list, get_str, and_then, string}
use kryneth_oss.Tools.{phantom_tool_name, ToolDescriptor, ToolRegistry, descriptor_of}
use kryneth_oss.Tools.Phantom.{
  head, first_call, call_function, or_text, or_value, schema_content, synthetic, requested_tool,
  intercept_value,
}

-- `/choices/0/message/content` and `/choices/0/message/tool_call_id`
unfoldable pub message_field : Text → Value → Option Text
message_field k v =
    and_then
      (and_then (and_then (and_then (get (codes "choices") v) as_array) head)
        (get (codes "message")))
      (get_str k)

message_field-synthetic :
    (id : Value) (call_id content : Text)
    → (message_field (codes "content") (synthetic id call_id content) ≡ some content)
      × (message_field (codes "tool_call_id") (synthetic id call_id content) ≡ some call_id)
unfolding message_field synthetic get find as_array values_list get_str as_str text_eq
message_field-synthetic id call_id content = (refl, refl)

-- An answer is given only to a response whose first tool call is one of the phantom tool, for a
-- registered tool that its arguments name; the answer's content is that tool's schema, and it
-- answers the id of the call, where the call has one.
pub intercept_value_lem :
    (from_str : Text → Option Value) (to_string : Value → Text) (r : ToolRegistry) (val out : Value)
    → intercept_value from_str to_string r val ≡ some out
    → (name : Text) × (d : ToolDescriptor) × (and_then (call_function val) (get_str (codes "name"))
        ≡ some phantom_tool_name)
      × (requested_tool from_str val ≡ some name)
      × (descriptor_of r name ≡ some d)
      × (message_field (codes "content") out ≡ some (schema_content to_string d))
      × (message_field (codes "tool_call_id") out
          ≡ some
              (or_text (and_then (first_call val) (get_str (codes "id"))) (codes "call_phantom")))
unfolding intercept_value
intercept_value_lem from_str to_string r val out h =
    elim (Option-cases (and_then (call_function val) (get_str (codes "name")))) [
      | inl e ↦ let stop : none ≡ some out = rw (intercept_value, e) at h in cc
      | inr (called, e) ↦ elim (Bool-cases (text_eq called phantom_tool_name)) [
        | inr ep ↦ let stop : none ≡ some out = rw (intercept_value, e, ep) at h in cc
        | inl ep ↦ elim (Option-cases (requested_tool from_str val)) [
          | inl er ↦ let stop : none ≡ some out = rw (intercept_value, e, ep, er) at h in cc
          | inr (name, er) ↦ elim (Option-cases (descriptor_of r name)) [
            | inl ed ↦ let stop : none ≡ some out = rw (intercept_value, e, ep, er, ed) at h in cc
            | inr (d, ed) ↦
                let id = or_value (get (codes "id") val) (string (codes "phantom-resp")) in
                let call_id =
                  or_text (and_then (first_call val) (get_str (codes "id")))
                    (codes "call_phantom") in
                let made = synthetic id call_id (schema_content to_string d) in
                let same : some made ≡ some out = rw (intercept_value, e, ep, er, ed) at h in
                let eq : made ≡ out = cc in
                let (content, answered) =
                  message_field-synthetic id call_id (schema_content to_string d) in
                (
                  name,
                  d,
                  rw (← text_eq_sound called phantom_tool_name ep) e,
                  er,
                  ed,
                  subst
                      (λ (v : Value).
                        message_field (codes "content") v ≡ some (schema_content to_string d))
                      eq content,
                  subst (λ (v : Value). message_field (codes "tool_call_id") v ≡ some call_id) eq
                      answered,
                )
          ]
        ]
      ]
    ]
