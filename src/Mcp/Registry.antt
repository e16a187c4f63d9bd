-- ===== src/Mcp/Registry.antt =====
-- `McpConnectionRegistry`. Times are in milliseconds. The semaphore is its number of free permits.
pub mod Hint
pub mod Metrics
use kryneth_oss.Prelude.{
  ℕ, zero, suc, ◌+◌, ◌-◌, ◌/◌, Bool, true, false, Option, none, some, List, [], ◌∷◌, ◌++◌, Text,
  Bytes, Map, codes, lookup, insert, remove, contains_key, length, take, drop, map, ltb,
  if◌then◌else◌, u64,
}
use kryneth_oss.Mcp.Scan.{NameScanFsm, new, pending, captured, feed, from_utf8}

unfoldable pub mcp_warmed_key : Text → Text → Text
mcp_warmed_key tenant_id tool_name = tenant_id ++ (codes "::" ++ tool_name)

pub record PreWarmedConnection : Type 0 where
  pub tool_name : Text
  pub sse_url : Text
  pub warmed_at : ℕ
  pub success : Bool

unfoldable pub is_fresh : ℕ → PreWarmedConnection → Bool
is_fresh now c = ltb ((now - c.warmed_at) / 1000) 30

pub record ToolMetrics : Type 0 where
  pub call_count : ℕ
  pub total_latency_ms : ℕ

pub record McpConnectionRegistry : Type 0 where
  pub registry : Map (Text × Map Text)
  pub warmed : Map PreWarmedConnection
  pub prefetch_sem : ℕ
  pub tool_metrics : Map ToolMetrics

abbrev pub empty : McpConnectionRegistry
empty = record { registry = []; warmed = []; prefetch_sem = 20; tool_metrics = [] }

-- The loop of `from_env` over the parsed map.
unfoldable pub insert_all : Map Text → Map (Text × Map Text) → Map (Text × Map Text)
insert_all [] m = m
insert_all ((k, v) ∷ kvs) m = insert_all kvs (insert k (v, []) m)

-- `from_env`, on the value of `MCP_TOOL_REGISTRY`; `from_str` is serde_json's parser.
unfoldable pub from_env : (Text → Option (Map Text)) → Option Text → McpConnectionRegistry
unfolding insert_all
from_env from_str none = empty
from_env from_str (some raw) = elim (from_str raw) [
  | none ↦ empty
  | some kvs ↦ record empty { registry = insert_all kvs [] }
]

abbrev pub recorded : ℕ → Option ToolMetrics → ToolMetrics
recorded latency_ms (some m) = record {
  call_count = u64 (m.call_count + 1);
  total_latency_ms = u64 (m.total_latency_ms + latency_ms);
}
recorded latency_ms none = record { call_count = 1; total_latency_ms = latency_ms }

unfoldable pub record_tool_call : Text → Text → ℕ → McpConnectionRegistry → McpConnectionRegistry
record_tool_call tenant_id tool_name latency_ms r =
    let key = mcp_warmed_key tenant_id tool_name in
    record r {
      tool_metrics = insert key (recorded latency_ms (lookup key r.tool_metrics)) r.tool_metrics;
    }

unfoldable pub get_metrics : Text → Text → McpConnectionRegistry → Option (ℕ × ℕ)
get_metrics tenant_id tool_name r =
    elim (lookup (mcp_warmed_key tenant_id tool_name) r.tool_metrics) [
      | none ↦ none
      | some m ↦ some (m.call_count, m.total_latency_ms)
    ]

unfoldable pub update_server :
    Text → Text → Map Text → McpConnectionRegistry → McpConnectionRegistry
update_server name url env_vars r = record r { registry = insert name (url, env_vars) r.registry }

unfoldable pub remove_server : Text → McpConnectionRegistry → McpConnectionRegistry
remove_server name r = record r { registry = remove name r.registry }

unfoldable pub is_empty : McpConnectionRegistry → Bool
is_empty r = elim r.registry [ [] ↦ true | _ ∷ _ ↦ false ]

unfoldable pub get_url : Text → McpConnectionRegistry → Option Text
get_url tool_name r = elim (lookup tool_name r.registry) [ none ↦ none | some e ↦ some e.0 ]

unfoldable pub get_env_vars : Text → McpConnectionRegistry → Option (Map Text)
get_env_vars tool_name r = elim (lookup tool_name r.registry) [ none ↦ none | some e ↦ some e.1 ]

unfoldable pub all_endpoints : McpConnectionRegistry → Map Text
all_endpoints r = map (λ (kv : Text × (Text × Map Text)). (kv.0, kv.1.0)) r.registry

-- `chunks(64)`; there are at most as many chunks as there are bytes.
unfoldable pub chunks_from : ℕ → Bytes → List Bytes
chunks_from zero body = []
chunks_from (suc fuel) [] = []
chunks_from (suc fuel) (b ∷ body) = take 64 (b ∷ body) ∷ chunks_from fuel (drop 64 (b ∷ body))

unfoldable pub chunks : Bytes → List Bytes
unfolding chunks_from
chunks body = chunks_from (length body) body

-- The name that the value in the machine's buffer stands for, if it is registered.
unfoldable pub registered : Map (Text × Map Text) → Bytes → Option Text
registered tools value = elim (from_utf8 value) [
  | none ↦ none
  | some name ↦ if contains_key name tools then some name else none
]

-- The loop of `find_tool_hint`.
unfoldable pub scan_chunks : Map (Text × Map Text) → NameScanFsm → List Bytes → Option Text
unfolding registered
scan_chunks tools f [] = none
scan_chunks tools f (c ∷ cs) = elim (feed f c) [
  | pending g ↦ scan_chunks tools g cs
  | captured g value ↦ elim (registered tools value) [
    | none ↦ scan_chunks tools g cs
    | some name ↦ some name
  ]
]

unfoldable pub find_tool_hint : Bytes → McpConnectionRegistry → Option Text
unfolding is_empty scan_chunks
find_tool_hint body r =
    if is_empty r then none else scan_chunks r.registry new (chunks (take 16384 body))

-- `try_acquire_owned`: a permit is taken, where one is free.
unfoldable pub try_acquire : McpConnectionRegistry → Option McpConnectionRegistry
try_acquire r = elim r.prefetch_sem [ zero ↦ none | suc n ↦ some (record r { prefetch_sem = n }) ]

-- `warm_connection`: `reached` is whether the HEAD request was answered, and `now` the time at which
-- it ended. Its permit is given back.
unfoldable pub warm_connection :
    Text → Text → Text → Bool → ℕ → McpConnectionRegistry → McpConnectionRegistry
warm_connection tenant_id tool_name sse_url reached now r = record r {
  warmed =
      insert (mcp_warmed_key tenant_id tool_name)
        (record { tool_name = tool_name; sse_url = sse_url; warmed_at = now; success = reached })
        r.warmed;
  prefetch_sem = r.prefetch_sem + 1;
}
