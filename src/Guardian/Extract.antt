-- ===== src/Guardian/Extract.antt =====
-- `extract_tool_calls_from_request`: the tool calls of a request body, in the formats of several
-- providers.
use kryneth_oss.Prelude.{
  Bool, false, ◌&&◌, none, some, List, [], ◌∷◌, ◌++◌, Text, codes, text_eq, if◌then◌else◌,
}
use mathlib.Core.List.{flat_map}
use kryneth_oss.Guardian.Json.{BorrowedValue, get, as_str, as_array, is_object}

-- `value.get(key).and_then(|v| v.as_array())`, and what an absent one amounts to for a loop.
unfoldable pub array_at : Text → BorrowedValue → List BorrowedValue
array_at k v = elim (get k v) [
  | none ↦ []
  | some a ↦ elim (as_array a) [ none ↦ [] | some vs ↦ vs ]
]

-- `value.get("type").and_then(|t| t.as_str()) == Some("tool_use")`
unfoldable pub is_tool_use : BorrowedValue → Bool
is_tool_use v = elim (get (codes "type") v) [
  | none ↦ false
  | some t ↦ elim (as_str t) [ none ↦ false | some s ↦ text_eq s (codes "tool_use") ]
]

unfoldable pub when : Bool → BorrowedValue → List BorrowedValue
when c v = if c then v ∷ [] else []

unfoldable pub tool_uses : BorrowedValue → List BorrowedValue
unfolding is_tool_use when
tool_uses content = elim (as_array content) [
  | some blocks ↦ flat_map (λ b. when (is_tool_use b) b) blocks
  | none ↦ when (is_object content && is_tool_use content) content
]

unfoldable pub message_calls : BorrowedValue → List BorrowedValue
unfolding array_at tool_uses
message_calls msg =
    array_at (codes "tool_calls") msg
    ++ elim (get (codes "content") msg) [ none ↦ [] | some content ↦ tool_uses content ]

unfoldable pub content_calls : BorrowedValue → List BorrowedValue
unfolding array_at when
content_calls content =
    flat_map (λ part. elim (get (codes "functionCall") part) [ none ↦ [] | some f ↦ part ∷ [] ])
      (array_at (codes "parts") content)

unfoldable pub choice_calls : BorrowedValue → List BorrowedValue
unfolding array_at
choice_calls choice = elim (get (codes "message") choice) [
  | some msg ↦ array_at (codes "tool_calls") msg
  | none ↦ elim (get (codes "delta") choice) [
    | some delta ↦ array_at (codes "tool_calls") delta
    | none ↦ []
  ]
]

unfoldable pub extract_tool_calls_from_request : BorrowedValue → List BorrowedValue
unfolding message_calls content_calls choice_calls array_at
extract_tool_calls_from_request parsed =
    flat_map message_calls (array_at (codes "messages") parsed)
    ++ (flat_map content_calls (array_at (codes "contents") parsed)
        ++ (array_at (codes "tool_calls") parsed
            ++ flat_map choice_calls (array_at (codes "choices") parsed)))
