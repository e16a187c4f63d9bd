-- ===== src/Tools/Inject.antt =====
-- `full_schema_requested_set` and `inject_lazy_summaries`.
pub mod Kept
use kryneth_oss.Prelude.{
  ℕ, Bool, true, false, not, ◌&&◌, ◌||◌, Option, none, some, List, [], ◌∷◌, ◌++◌, Text, Bytes,
  codes, text_eq, contains, any, if◌then◌else◌, Unicode,
}
use mathlib.Core.List.{reverse}
use kryneth_oss.Json.{
  Value, null, bool, number, string, array, object, Members, get, put, as_str, as_array, get_str,
  and_then, values_of,
}
use kryneth_oss.Tools.{
  phantom_tool_name, phantom_tool_descriptor, ToolDescriptor, ToolRegistry, is_empty, descriptor_of,
  strip_non_essential_metadata, tool_name,
}

-- The text of a message of the assistant, if it is not empty.
unfoldable pub assistant_text : Value → Option Text
unfolding get_str
assistant_text m = elim (get_str (codes "role") m) [
  | none ↦ none
  | some role ↦
      if text_eq role (codes "assistant")
      then elim (get_str (codes "content") m) [
        | none ↦ none
        | some s ↦ elim s [ [] ↦ none | c ∷ cs ↦ some (c ∷ cs) ]
      ]
      else none
]

unfoldable pub first_text : List Value → Option Text
unfolding assistant_text
first_text [] = none
first_text (m ∷ ms) =
    let rest = first_text ms in elim (assistant_text m) [ none ↦ rest | some s ↦ some s ]

unfoldable pub mentions_schema : Text → Bool
mentions_schema content =
    any (λ kw. contains kw content)
      (codes "parameter"
        ∷ codes "schema"
        ∷ codes "details"
        ∷ codes "definition"
        ∷ codes "arguments"
        ∷ codes "inputs"
        ∷ codes "how to use"
        ∷ codes "what does"
        ∷ [])

unfoldable pub similar_names :
    (Text → ToolDescriptor → Bool) → Text → List ToolDescriptor → List Text
similar_names similar content [] = []
similar_names similar content (d ∷ ds) =
    let rest = similar_names similar content ds in if similar content d then d.name ∷ rest else rest

unfoldable pub full_schema_requested_set :
    Unicode → (Text → ToolDescriptor → Bool) → ToolRegistry → Value → List Text
unfolding first_text mentions_schema similar_names get
full_schema_requested_set u similar r body =
    elim (and_then (and_then (get (codes "messages") body) as_array)
      (λ ms. first_text (reverse ms))) [
        | none ↦ []
        | some s ↦
            let content = u.to_lowercase s in
            if mentions_schema content then similar_names similar content r.tools else []
      ]

-- `func_obj.insert(key, value)` on a member of the object, which stays what it is otherwise.
unfoldable pub set_member : Text → Value → Value → Value
set_member k v (object ms) = object (put k v ms)
set_member k v w = w

-- What becomes of a tool, and whether the body counts as modified by it.
pub record Processed : Type 0 where
  pub tool : Value
  pub modified : Bool

abbrev kept : Value → Processed
kept tool = record { tool = tool; modified = false }

abbrev pub summary_of : Text → ToolDescriptor → Value
summary_of name d = string (codes "Available Tool: " ++ (name ++ (codes " — " ++ d.summary)))

-- The schema is put back where the descriptor has one.
unfoldable pub with_schema : ToolDescriptor → Value → Value
unfolding set_member
with_schema d func = elim d.schema [
  | none ↦ func
  | some schema ↦ set_member (codes "parameters") schema func
]

-- The parameters are stripped, and the summary is the description.
unfoldable pub with_summary : Text → ToolDescriptor → Value → Value × Bool
unfolding set_member get
with_summary name d func = elim (get (codes "parameters") func) [
  | none ↦ (set_member (codes "description") (summary_of name d) func, false)
  | some params ↦ (
    set_member (codes "description") (summary_of name d)
        (set_member (codes "parameters") (strip_non_essential_metadata params) func),
    true,
  )
]

-- One round of the loop over the tools. Only an object has a member `name`, so `as_object_mut`
-- succeeds.
unfoldable pub process : ToolRegistry → List Text → Value → Processed
unfolding descriptor_of with_schema with_summary set_member get
process r full tool = elim (get (codes "function") tool) [
  | none ↦ kept tool
  | some func ↦ elim (get_str (codes "name") func) [
    | none ↦ kept tool
    | some name ↦ elim (descriptor_of r name) [
      | none ↦ kept tool
      | some d ↦
          if any (text_eq name) full
          then record {
            tool = set_member (codes "function") (with_schema d func) tool;
            modified = true;
          }
          else record {
            tool = set_member (codes "function") (with_summary name d func).0 tool;
            modified = (with_summary name d func).1;
          }
    ]
  ]
]

unfoldable pub process_all : ToolRegistry → List Text → List Value → List Value × Bool
unfolding process
process_all r full [] = ([], false)
process_all r full (t ∷ ts) =
    let p = process r full t in
    let rest = process_all r full ts in (p.tool ∷ rest.0, p.modified || rest.1)

-- Whether a tool is the phantom, and the list with it.
unfoldable pub is_phantom : Value → Bool
unfolding tool_name
is_phantom t = elim (tool_name t) [ none ↦ false | some n ↦ text_eq n phantom_tool_name ]

unfoldable pub with_phantom : List Value → List Value
unfolding is_phantom phantom_tool_descriptor
with_phantom ts = if any is_phantom ts then ts else ts ++ phantom_tool_descriptor ∷ []

-- The mutation of the parsed body.
unfoldable pub inject : ToolRegistry → List Text → Value → Option Value
unfolding process_all with_phantom set_member get
inject r full body = elim (and_then (get (codes "tools") body) as_array) [
  | none ↦ none
  | some tools ↦
      let (tools', modified) = process_all r full tools in
      if modified
      then some (set_member (codes "tools") (array (values_of (with_phantom tools'))) body)
      else none
]

unfoldable pub inject_lazy_summaries :
    Unicode
    → (Text → ToolDescriptor → Bool)
    → (Bytes → Option Value)
    → (Value → Option Bytes)
    → ToolRegistry
    → Bytes
    → Bool
    → Option Bytes
unfolding is_empty full_schema_requested_set inject
inject_lazy_summaries u similar from_slice to_writer r body_bytes enable_compression =
    if not enable_compression || is_empty r
    then none
    else and_then (from_slice body_bytes)
        (λ body. and_then (inject r (full_schema_requested_set u similar r body) body) to_writer)
