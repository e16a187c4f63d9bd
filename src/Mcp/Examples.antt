-- ===== src/Mcp/Examples.antt =====
-- The theorems about the MCP registry at a small body and a short history.
use kryneth_oss.Prelude.{
  ℕ, ◌≡◌, refl, some, [], ◌∷◌, Text, Bytes, codes, lookup, contains_key, text_eq, as_bytes, arith,
}
use kryneth_oss.Mcp.Scan.{feed, feed_byte, matches_at, from_utf8, decode, are_chars}
use kryneth_oss.Mcp.Scan.Capture.{escape}
use kryneth_oss.Mcp.Registry.{McpConnectionRegistry, empty, registered, find_tool_hint, get_metrics}
use kryneth_oss.Mcp.Registry.Hint.{find_tool_hint-field}
use kryneth_oss.Mcp.Registry.Metrics.{Call, record_all, summary, get_metrics-record_all}

abbrev tools : McpConnectionRegistry
tools = record empty { registry = (codes "jira", (codes "http://j", [])) ∷ [] }

abbrev body : Bytes
body = codes "{\"name\" : \"jira\"}"

find_tool_hint-field_example : find_tool_hint body tools ≡ some (codes "jira")
unfolding feed feed_byte matches_at escape registered from_utf8 decode are_chars as_bytes text_eq
    contains_key lookup
find_tool_hint-field_example =
    find_tool_hint-field tools (codes "{") [] (codes " ") (codes " ") (codes "jira") (codes "}")
      (codes "jira") body refl (omega arith) refl (refl, tt) (refl, tt) refl

abbrev call : Text → ℕ → Call
call t l = record { tenant_id = t; tool_name = codes "jira"; latency_ms = l }

get_metrics-record_all_example :
    get_metrics
      (codes "t")
      (codes "jira")
      (record_all (call (codes "u") 5 ∷ call (codes "t") 7 ∷ []) empty)
    ≡ summary (codes "t") (codes "jira") (call (codes "u") 5 ∷ call (codes "t") 7 ∷ [])
get_metrics-record_all_example =
    get_metrics-record_all (call (codes "u") 5 ∷ call (codes "t") 7 ∷ []) (codes "t") (codes "jira")
      (ground arith) (ground arith)
