-- ===== src/Tools.antt =====
-- The tool router, src/usecases/tool_router.rs: the registry of tool descriptors, the injection of
-- one-line summaries into a request, and the answer to a call of the phantom tool. Parameters:
-- `from_slice` and `to_vec` are serde_json's parser and printer; `similar` is whether the embedding
-- of a text (`compute_embedding`, in `f32`) is near enough to a descriptor's.
mod Examples
pub mod Strip
pub mod Inject
pub mod Phantom
use kryneth_oss.Prelude.{
  ℕ, zero, suc, ◌+◌, Bool, true, false, not, ◌&&◌, ◌||◌, Option, none, some, List, [], ◌∷◌, ◌++◌,
  String, Text, Bytes, Map, take, codes, lookup, insert, text_eq, contains, any, if◌then◌else◌,
}
use kryneth_oss.Json.{
  Value, null, bool, number, string, array, object, Values, no_value, value, Members, no_member,
  member, get, put, as_str, as_array, get_str, and_then, values_of,
}

abbrev pub phantom_tool_name : Text
phantom_tool_name = codes "get_tool_details"

abbrev text_value : String → Value
text_value s = string (codes s)

abbrev one : String → Value → Members
one k v = member (codes k) v no_member

-- The members stand in the order of their keys.
unfoldable pub phantom_tool_descriptor : Value
phantom_tool_descriptor = object (
    member (codes "function")
      (object (
        member (codes "description")
          (text_value
            "Returns the complete parameter schema for an MCP tool. Call this when you need exact parameter types and required fields.")
          (member (codes "name") (string phantom_tool_name) (
            one "parameters" (
              object (
                member (codes "properties")
                  (object (
                    one "tool_name" (
                      object (
                        member (codes "description") (text_value "Exact name of the MCP tool")
                          (one "type" (text_value "string"))))))
                  (member (codes "required") (array (value (text_value "tool_name") no_value))
                    (one "type" (text_value "object")))))))))
      (one "type" (text_value "function")))

pub record ToolDescriptor : Type 0 where
  pub name : Text
  pub summary : Text
  pub schema : Option Value

pub record ToolRegistry : Type 0 where
  pub tools : List ToolDescriptor
  pub index : Map ℕ

abbrev pub empty : ToolRegistry
empty = record { tools = []; index = [] }

-- The loop of `from_env`, at the descriptor with the number `i`.
unfoldable pub index_from : ℕ → List ToolDescriptor → Map ℕ → Map ℕ
index_from i [] m = m
index_from i (d ∷ ds) m = index_from (i + 1) ds (insert d.name i m)

unfoldable pub registry_of : List ToolDescriptor → ToolRegistry
unfolding index_from
registry_of ds = record { tools = ds; index = index_from 0 ds [] }

-- `from_env`, on `MCP_TOOL_SCHEMA_REGISTRY`.
unfoldable pub from_env : (Text → Option (List ToolDescriptor)) → Option Text → ToolRegistry
unfolding registry_of
from_env from_str none = empty
from_env from_str (some raw) = elim (from_str raw) [ none ↦ empty | some ds ↦ registry_of ds ]

unfoldable pub is_empty : ToolRegistry → Bool
is_empty r = elim r.tools [ [] ↦ true | _ ∷ _ ↦ false ]

-- `tools[i]`; out of range it panics, which is `none` here.
unfoldable pub nth : ℕ → List ToolDescriptor → Option ToolDescriptor
nth i [] = none
nth zero (d ∷ ds) = some d
nth (suc i) (d ∷ ds) = nth i ds

-- What `lookup` does: it finds nothing, it finds a descriptor, or it panics.
pub data Found : Type 0 where
  absent panicked : Found
  found : ToolDescriptor → Found

unfoldable pub lookup_tool : ToolRegistry → Text → Found
unfolding nth
lookup_tool r name = elim (lookup name r.index) [
  | none ↦ absent
  | some i ↦ elim (nth i r.tools) [ none ↦ panicked | some d ↦ found d ]
]

unfoldable pub descriptor_of : ToolRegistry → Text → Option ToolDescriptor
unfolding lookup_tool
descriptor_of r name = elim (lookup_tool r name) [ found d ↦ some d | _ ↦ none ]

-- `strip_non_essential_metadata`: of an object the three keys are removed, and what is left is
-- stripped.
unfoldable pub is_metadata : Text → Bool
is_metadata k =
    text_eq k (codes "description") || text_eq k (codes "title") || text_eq k (codes "examples")

unfoldable mutual
  unfolding is_metadata

  pub strip_non_essential_metadata : Value → Value
  strip_non_essential_metadata (object ms) = object (strip_members ms)
  strip_non_essential_metadata (array vs) = array (strip_values vs)
  strip_non_essential_metadata null = null
  strip_non_essential_metadata (bool b) = bool b
  strip_non_essential_metadata (number n) = number n
  strip_non_essential_metadata (string s) = string s

  pub strip_values : Values → Values
  strip_values no_value = no_value
  strip_values (value v vs) = value (strip_non_essential_metadata v) (strip_values vs)

  pub strip_members : Members → Members
  strip_members no_member = no_member
  strip_members (member k v ms) =
      let rest = strip_members ms in
      let kept = strip_non_essential_metadata v in
      if is_metadata k then rest else member k kept rest

-- `tool.function.name`
unfoldable pub tool_name : Value → Option Text
unfolding get get_str
tool_name tool = and_then (get (codes "function") tool) (get_str (codes "name"))

-- `find_any_registered`, where `to_borrowed_value` is simd_json's parser.
unfoldable pub find_any_registered : (Bytes → Option Value) → ToolRegistry → Bytes → Bool
unfolding is_empty tool_name get as_array lookup_tool
find_any_registered to_borrowed_value r body =
    not (is_empty r)
    && contains (codes "tools") body
    && elim (and_then (and_then (to_borrowed_value (take 8192 body)) (get (codes "tools")))
        as_array) [
          | none ↦ false
          | some tools ↦
              any
                (λ t. elim (tool_name t) [
                  | none ↦ false
                  | some name ↦ elim (lookup name r.index) [ none ↦ false | some _ ↦ true ]
                ])
                tools
        ]
