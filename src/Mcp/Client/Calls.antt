-- ===== src/Mcp/Client/Calls.antt =====
-- What a call of a tool gives, and what it counts.
use kryneth_oss.Prelude.{
  ℕ, ◌≡◌, refl, Bool, true, false, inl, inr, Option, none, some, [], ◌∷◌, ◌++◌, Text, codes,
  NoColon, if◌then◌else◌, Bool-cases, Option-cases, text_eq_refl,
}
use kryneth_oss.Json.{Value, null, string, object, no_member, member, find, get}
use kryneth_oss.Mcp.Registry.{McpConnectionRegistry, get_url, get_metrics}
use kryneth_oss.Mcp.Registry.Metrics.{Call, is_call, count, get_metrics-record_tool_call}
use kryneth_oss.Mcp.Client.{
  ToolCall, ToolResult, JsonBody, Reply, answered, unreachable, is_success, keys_of, is_uniform,
  cell, join, row, convert_to_toon, mcp_body, trim_slashes, result_of, execute_single_tool_call,
}

abbrev reply_success : (Text → Option Value) → (Value → Text) → Reply → Bool
reply_success from_str to_string (answered status body text) = is_success from_str to_string status
reply_success from_str to_string (unreachable e) = false

module _ (from_str : Text → Option Value) (to_string : Value → Text)
    (post : Text → Value → Option Text → Reply) (tenant_id : Text) (compress : Bool)
    (scenario : Option Text) (latency_ms : ℕ) (tc : ToolCall) (r : McpConnectionRegistry) where
  abbrev run : ToolResult × McpConnectionRegistry
  run = execute_single_tool_call from_str to_string post tenant_id compress scenario latency_ms tc r

  abbrev call : Call
  call = record { tenant_id = tenant_id; tool_name = tc.name; latency_ms = latency_ms }

  abbrev reply_to : Text → Reply
  reply_to url =
      post (trim_slashes url ++ codes "/messages") (mcp_body from_str to_string tc) scenario

  result_of_lem :
      (reply : Reply)
      → ((result_of from_str to_string compress tc latency_ms reply).tool_call_id ≡ tc.id)
        × ((result_of from_str to_string compress tc latency_ms reply).name ≡ tc.name)
        × ((result_of from_str to_string compress tc latency_ms reply).success
            ≡ reply_success from_str to_string reply)
  unfolding result_of
  result_of_lem (unreachable e) = (refl, refl, refl)
  result_of_lem (answered status body text) =
      elim (Bool-cases (is_success from_str to_string status)) [
        | inl e ↦ rw (result_of, e) (refl, refl, refl)
        | inr e ↦ rw (result_of, e) (refl, refl, refl)
      ]

  -- A call of a tool answers the id and the name that it was called by, whatever the network does,
  -- and counts exactly where the tool has an endpoint: then once for its own tenant and tool, with
  -- its latency, and for no other tenant or tool.
  pub execute_single_tool_call_lem :
      (t n : Text)
      → NoColon tenant_id
      → NoColon t
      → (run.0.tool_call_id ≡ tc.id)
        × (run.0.name ≡ tc.name)
        × (get_metrics t n run.1 ≡ elim (get_url tc.name r) [
          | none ↦ get_metrics t n r
          | some url ↦
              if is_call t n call
              then some (count latency_ms (get_metrics t n r))
              else get_metrics t n r
        ])
  unfolding execute_single_tool_call
  execute_single_tool_call_lem t n h h' = elim (Option-cases (get_url tc.name r)) [
    | inl e ↦ rw (execute_single_tool_call, e) (refl, refl, refl)
    | inr (url, e) ↦
        rw (execute_single_tool_call, e)
          (
            (result_of_lem (reply_to url)).0,
            (result_of_lem (reply_to url)).1,
            get_metrics-record_tool_call call r t n h h',
          )
  ]

  -- A call whose server answers with a status from 200 to 299 counts as a success whatever the body
  -- says: also where it is no JSON, and where it says by `isError` that the tool failed.
  pub execute_single_tool_call-success :
      (url : Text) (status : ℕ) (body : JsonBody) (text : Option Text)
      → get_url tc.name r ≡ some url
      → is_success from_str to_string status ≡ true
      → ((u : Text) (v : Value) (s : Option Text) → post u v s ≡ answered status body text)
      → run.0.success ≡ true
  unfolding execute_single_tool_call result_of
  execute_single_tool_call-success url status body text e good replies =
      rw (execute_single_tool_call, e, replies _ _ scenario, result_of, good) refl

-- TOON does not keep the types of the values: an object whose member is null and one whose member is
-- the text `null` are written alike.
pub convert_to_toon-null :
    (from_str : Text → Option Value) (to_string : Value → Text) (k : Text)
    → convert_to_toon from_str to_string (object (member k null no_member) ∷ [])
      ≡ convert_to_toon from_str to_string
          (object (member k (string (codes "null")) no_member) ∷ [])
unfolding convert_to_toon is_uniform keys_of row join cell get find
convert_to_toon-null from_str to_string k = rw (text_eq_refl k) refl
