-- ===== src/Mcp/Client.antt =====
-- The MCP client, src/infrastructure/mcp_client.rs: one call of a tool over HTTP, what is read of
-- its answer, and the two ends of a fan-out. The network is the argument `post`; serde_json's parser
-- and printer are `from_str` and `to_string`, and `sha256` gives the hex text of a hash. How the
-- calls of a fan-out run together is src/usecases/execution_service.rs.
pub mod Calls
use kryneth_oss.Prelude.{
  ℕ, ◌+◌, Bool, true, false, not, ◌&&◌, ◌||◌, Option, none, some, List, [], ◌∷◌, ◌++◌, String, Text,
  Map, codes, map, text_eq, length, decimal, leb, ltb, ◌==◌, if◌then◌else◌,
}
use mathlib.Core.List.{reverse}
use kryneth_oss.Json.{
  Value, null, bool, number, string, array, object, Values, no_value, value, Members, no_member,
  member, find, get, as_str, as_array, get_str, and_then, values_list,
}
use kryneth_oss.Providers.{
  UniversalToolCall, UniversalToolResult, success, error, Outcome, ok, failed,
}
use kryneth_oss.Mcp.Registry.{McpConnectionRegistry, get_url, record_tool_call}

-- `canonicalize_json`: its values keep their members in the order of their keys already.
unfoldable mutual
  pub canonicalize_json : Value → Value
  canonicalize_json (object ms) = object (canonicalize_members ms)
  canonicalize_json (array vs) = array (canonicalize_values vs)
  canonicalize_json null = null
  canonicalize_json (bool b) = bool b
  canonicalize_json (number n) = number n
  canonicalize_json (string s) = string s

  pub canonicalize_values : Values → Values
  canonicalize_values no_value = no_value
  canonicalize_values (value v vs) = value (canonicalize_json v) (canonicalize_values vs)

  pub canonicalize_members : Members → Members
  canonicalize_members no_member = no_member
  canonicalize_members (member k v ms) = member k (canonicalize_json v) (canonicalize_members ms)

pub record ToolCall : Type 0 where
  pub id : Text
  pub name : Text
  pub arguments : Text

pub record ToolResult : Type 0 where
  pub tool_call_id : Text
  pub name : Text
  pub content : Text
  pub latency_ms : ℕ
  pub success : Bool

unfoldable pub tool_call_of : UniversalToolCall → ToolCall
tool_call_of c = record { id = c.call_id; name = c.tool_name; arguments = c.arguments }

-- `extract_tool_calls`, on what the adapter extracts.
unfoldable pub extract_tool_calls : Outcome (List UniversalToolCall) → List ToolCall
unfolding tool_call_of
extract_tool_calls (ok calls) = map tool_call_of calls
extract_tool_calls (failed e) = []

unfoldable pub universal_result : ToolResult → UniversalToolResult
universal_result r = record {
  call_id = r.tool_call_id;
  status = if r.success then success else error;
  content = r.content;
  latency_ms = r.latency_ms;
}

-- `merge_results`, with the form that the adapter gives to a result.
unfoldable pub merge_results : (UniversalToolResult → Value) → List ToolResult → List Value
unfolding universal_result
merge_results format results = map (λ r. format (universal_result r)) results

-- `trim_end_matches('/')`
unfoldable pub drop_slashes : Text → Text
drop_slashes [] = []
drop_slashes (c ∷ s) = let rest = drop_slashes s in if c == 47 then rest else c ∷ s

abbrev trim_slashes : Text → Text
trim_slashes s = reverse (drop_slashes (reverse s))

-- An answer: its status, its body as JSON or the error of reading it so, and its body as a text, if
-- it can be read; or the error of the request.
pub data JsonBody : Type 0 where
  unreadable : Text → JsonBody
  json : Value → JsonBody

pub data Reply : Type 0 where
  answered : ℕ → JsonBody → Option Text → Reply
  unreachable : Text → Reply

abbrev field : String → Value → Members → Members
field k v ms = member (codes k) v ms

module _ (from_str : Text → Option Value) (to_string : Value → Text) where
  -- `generate_idempotency_key`
  unfoldable pub generate_idempotency_key : (Text → Text) → Text → Text → Text → Text
  unfolding canonicalize_json
  generate_idempotency_key sha256 tenant_id tool_name raw_args =
      let canonical_args : Text = elim (from_str raw_args) [
        | none ↦ raw_args
        | some v ↦ to_string (canonicalize_json v)
      ] in
      sha256 (tenant_id ++ (codes "::" ++ (tool_name ++ (codes "::" ++ canonical_args))))

  unfoldable pub parse_arguments : Text → Value
  parse_arguments arguments = elim (from_str arguments) [ none ↦ object no_member | some v ↦ v ]

  unfoldable pub mcp_body : ToolCall → Value
  unfolding parse_arguments
  mcp_body tc = object (
      field "id" (number (codes "1")) (
        field "jsonrpc" (string (codes "2.0")) (
          field "method" (string (codes "tools/call")) (
            field "params"
              (object (
                field "arguments" (parse_arguments tc.arguments)
                  (field "name" (string tc.name) no_member)))
              no_member))))

  unfoldable pub keys_of : Members → List Text
  keys_of no_member = []
  keys_of (member k v ms) = k ∷ keys_of ms

  -- An object with as many members as there are keys, and with every key.
  unfoldable pub has_keys : List Text → Members → Bool
  unfolding find
  has_keys [] ms = true
  has_keys (k ∷ ks) ms =
      let rest = has_keys ks ms in elim (find k ms) [ none ↦ false | some _ ↦ rest ]

  unfoldable pub is_uniform : List Text → List Value → Bool
  unfolding has_keys keys_of
  is_uniform ks [] = true
  is_uniform ks (object ms ∷ vs) =
      length (keys_of ms) == length ks && has_keys ks ms && is_uniform ks vs
  is_uniform ks (_ ∷ vs) = false

  unfoldable pub cell : Option Value → Text
  cell (some (string s)) = s
  cell (some null) = codes "null"
  cell (some v) = to_string v
  cell none = []

  unfoldable pub join : Text → List Text → Text
  join by [] = []
  join by (s ∷ []) = s
  join by (s ∷ t ∷ ss) = s ++ (by ++ join by (t ∷ ss))

  unfoldable pub row : List Text → Value → Text
  unfolding join cell get
  row ks v = join (codes ",") (map (λ k. cell (get k v)) ks)

  -- `convert_to_toon`; its errors are dropped by the caller.
  unfoldable pub convert_to_toon : List Value → Option Text
  unfolding is_uniform keys_of row join
  convert_to_toon [] = some (codes "array[0]{}:")
  convert_to_toon (object ms ∷ vs) =
      let ks = keys_of ms in
      if is_uniform ks vs
      then some (
          codes "array["
          ++ (decimal (length (object ms ∷ vs))
              ++ (codes "]{"
                  ++ (join (codes ",") ks
                      ++ (codes "}: \n " ++ join (codes " \n ") (map (row ks) (object ms ∷ vs)))))))
      else none
  convert_to_toon (_ ∷ vs) = none

  abbrev first : List Value → Option Value
  first [] = none
  first (v ∷ vs) = some v

  -- `/result/content/0/text`, or the result, or the whole body.
  unfoldable pub raw_content : Value → Text
  unfolding get as_array get_str
  raw_content body =
      let result = get (codes "result") body in
      elim (and_then (and_then (and_then (and_then result (get (codes "content"))) as_array) first)
        (get_str (codes "text"))) [
          | some t ↦ t
          | none ↦ elim result [ some r ↦ to_string r | none ↦ to_string body ]
        ]

  unfoldable pub extract_mcp_result : Bool → JsonBody → Text
  unfolding raw_content convert_to_toon as_array
  extract_mcp_result enable_compression (unreadable e) =
      codes "<failed to parse MCP response: " ++ (e ++ codes ">")
  extract_mcp_result enable_compression (json body) =
      let raw = raw_content body in
      if enable_compression
      then elim (and_then (and_then (from_str raw) as_array) convert_to_toon) [
        | none ↦ raw
        | some toon ↦ toon
      ]
      else raw

  abbrev or_unreadable : Option Text → Text
  or_unreadable none = codes "<unreadable>"
  or_unreadable (some t) = t

  abbrev pub is_success : ℕ → Bool
  is_success status = leb 200 status && ltb status 300

  abbrev result_for : ToolCall → ℕ → Bool → Text → ToolResult
  result_for tc latency_ms ok_flag content = record {
    tool_call_id = tc.id;
    name = tc.name;
    content = content;
    latency_ms = latency_ms;
    success = ok_flag;
  }

  -- The result that an answer gives.
  unfoldable pub result_of : Bool → ToolCall → ℕ → Reply → ToolResult
  unfolding extract_mcp_result
  result_of enable_compression tc latency_ms (unreachable e) =
      result_for tc latency_ms false
        (codes "MCP tool '" ++ (tc.name ++ (codes "' unreachable: " ++ e)))
  result_of enable_compression tc latency_ms (answered status body text) =
      if is_success status
      then result_for tc latency_ms true (extract_mcp_result enable_compression body)
      else result_for tc latency_ms false (
          codes "MCP tool '"
          ++ (tc.name
              ++ (codes "' returned HTTP "
                  ++ (decimal status ++ (codes ": " ++ or_unreadable text)))))

  -- `execute_single_tool_call`, which took `latency_ms`: its result and the registry afterwards.
  unfoldable pub execute_single_tool_call :
      (Text → Value → Option Text → Reply)
      → Text
      → Bool
      → Option Text
      → ℕ
      → ToolCall
      → McpConnectionRegistry
      → ToolResult × McpConnectionRegistry
  unfolding mcp_body result_of drop_slashes
  execute_single_tool_call post tenant_id enable_compression test_scenario latency_ms tc r =
      elim (get_url tc.name r) [
        | none ↦
            (result_for tc latency_ms false (codes "MCP endpoint not configured for this tool."), r)
        | some sse_url ↦ (
          result_of enable_compression tc latency_ms
              (post (trim_slashes sse_url ++ codes "/messages") (mcp_body tc) test_scenario),
          record_tool_call tenant_id tc.name latency_ms r,
        )
      ]
