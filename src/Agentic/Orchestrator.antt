-- ===== src/Agentic/Orchestrator.antt =====
-- `orchestrate`, with the budget of the OSS build, `enforce_agentic_loop_budget`. The tasks that it
-- spawns are a list of warm-ups under way, and the events that it logs are a list, the last one first.
-- Of an event the constant fields, the timestamp and the fresh id are left out. The step that starts a
-- warm-up is one step, of which the semaphore is the only part that another task can use up.
pub mod Prefetch
pub mod Served
use kryneth_oss.Prelude.{
  ℕ, zero, suc, ◌+◌, Bool, true, false, Option, none, some, List, [], ◌∷◌, Text, Bytes, Map,
  Unicode, u64, if◌then◌else◌,
}
use kryneth_oss.Json.{Value}
use kryneth_oss.Execution.{TraceContext}
use kryneth_oss.Errors.{GatewayError, display}
use kryneth_oss.Tools
use kryneth_oss.Tools.{ToolDescriptor, ToolRegistry}
use kryneth_oss.Tools.Inject.{inject_lazy_summaries}
use kryneth_oss.Mcp.Registry
use kryneth_oss.Mcp.Registry.{
  McpConnectionRegistry, find_tool_hint, get_url, try_acquire, warm_connection, update_server,
  remove_server, record_tool_call,
}
use kryneth_oss.Agentic.Session.{resolve_session_id}

pub record AgenticContext : Type 0 where
  pub loop_count : Option ℕ
  pub body_bytes : Bytes

pub data Reply : Type 0 where
  failed : GatewayError → Reply
  served : AgenticContext → Reply

pub data Budget : Type 0 where
  exceeded : GatewayError → Budget
  spent : ℕ → Budget

-- The guard of the OSS build: a no-op.
unfoldable pub enforce_agentic_loop_budget : Text → Budget
enforce_agentic_loop_budget session_id = spent 0

pub data Event : Type 0 where
  loop_detection : Text → Text → ℕ → Event
  loop_blocked : Text → ℕ → Event
  loop_blocked_trace : Text → Text → Option Text → Text → ℕ → Text → Text → Event

pub record WarmUp : Type 0 where
  pub tenant_id : Text
  pub tool_name : Text
  pub sse_url : Text

pub record Gateway : Type 0 where
  pub mcp_registry : McpConnectionRegistry
  pub warm_ups : List WarmUp
  pub total_latency_ms : ℕ
  pub events : List Event

-- The arguments of `orchestrate`, and the readings of the clock: the seconds for the session id, and
-- how long the check of the budget took.
pub record Call : Type 0 where
  pub body_bytes : Bytes
  pub tenant_id : Text
  pub api_key : Text
  pub session_id : Option Text
  pub idempotency_key : Option Text
  pub is_agentic : Bool
  pub trace_ctx : TraceContext
  pub enable_compression : Bool
  pub seconds : ℕ
  pub latency_ms : ℕ

abbrev log_event : Event → Gateway → Gateway
log_event e g = record g { events = e ∷ g.events }

abbrev or_empty : Option Text → Text
or_empty none = []
or_empty (some t) = t

-- The speculative warm-up, dropped where no permit is free.
unfoldable pub prefetch : Text → Bytes → Gateway → Gateway
prefetch tenant_id body_bytes g =
    if Registry.is_empty g.mcp_registry
    then g
    else elim (find_tool_hint body_bytes g.mcp_registry) [
      | none ↦ g
      | some tool_name ↦ elim (get_url tool_name g.mcp_registry) [
        | none ↦ g
        | some sse_url ↦ elim (try_acquire g.mcp_registry) [
          | none ↦ g
          | some r ↦ record g {
            mcp_registry = r;
            warm_ups =
                record { tenant_id = tenant_id; tool_name = tool_name; sse_url = sse_url }
                ∷ g.warm_ups;
          }
        ]
      ]
    ]

-- What the session's budget leads to: the event and the count, or the metrics, both events and the
-- error. `from_utf8` is that of `str`.
unfoldable pub on_budget :
    (Bytes → Option Text)
    → Call
    → Text
    → Budget
    → Gateway
    → (Option GatewayError × Option ℕ) × Gateway
on_budget from_utf8 q session_id (spent c) g =
    ((none, some c), log_event (loop_detection session_id q.tenant_id q.latency_ms) g)
on_budget from_utf8 q session_id (exceeded e) g = (
  (some e, none),
  log_event
      (loop_blocked_trace q.trace_ctx.trace_id session_id q.trace_ctx.parent_trace_id q.tenant_id
        q.latency_ms (or_empty (from_utf8 q.body_bytes)) (display e))
      (log_event (loop_blocked q.tenant_id q.latency_ms)
        (record g { total_latency_ms = u64 (g.total_latency_ms + q.latency_ms) })),
)

-- What the orchestrator calls of other crates: the hash, the parser and printer of JSON, the
-- similarity of texts, and the tables of Unicode.
pub record Crates : Type 0 where
  pub unicode : Unicode
  pub digest : Bytes → Text
  pub from_utf8 : Bytes → Option Text
  pub from_slice : Bytes → Option Value
  pub to_writer : Value → Option Bytes
  pub similar : Text → ToolDescriptor → Bool

unfoldable pub check_budget : Crates → Call → Gateway → (Option GatewayError × Option ℕ) × Gateway
check_budget k q g =
    let session_id : Text =
      resolve_session_id k.unicode k.digest q.session_id q.idempotency_key q.tenant_id q.api_key
        q.seconds q.body_bytes in
    if q.is_agentic
    then on_budget k.from_utf8 q session_id (enforce_agentic_loop_budget session_id) g
    else ((none, none), g)

-- The body for the model.
unfoldable pub lazy_body : Crates → ToolRegistry → Call → Bytes
lazy_body k tools q =
    if Tools.is_empty tools
    then q.body_bytes
    else elim (inject_lazy_summaries k.unicode k.similar k.from_slice k.to_writer tools q.body_bytes
        q.enable_compression) [ none ↦ q.body_bytes | some modified ↦ modified ]

unfoldable pub orchestrate : Crates → ToolRegistry → Call → Gateway → Reply × Gateway
orchestrate k tools q g =
    let ((refusal, loop_count), g') = check_budget k q g in
    elim refusal [
      | some e ↦ (failed e, g')
      | none ↦ (
        served (record { loop_count = loop_count; body_bytes = lazy_body k tools q }),
        prefetch q.tenant_id q.body_bytes g',
      )
    ]

-- The `n`th of the warm-ups, and the others.
unfoldable pub take_out : ℕ → List WarmUp → Option (WarmUp × List WarmUp)
take_out n [] = none
take_out zero (w ∷ ws) = some (w, ws)
take_out (suc n) (w ∷ ws) = elim (take_out n ws) [ none ↦ none | some (v, vs) ↦ some (v, w ∷ vs) ]

-- What happens at a gateway: a request, the end of a warm-up, and what the dashboard and the tool
-- calls do to the registry.
pub data Happening : Type 0 where
  request : Call → Happening
  finished : ℕ → Bool → ℕ → Happening
  server_updated : Text → Text → Map Text → Happening
  server_removed : Text → Happening
  tool_called : Text → Text → ℕ → Happening

abbrev on_registry : (McpConnectionRegistry → McpConnectionRegistry) → Gateway → Gateway
on_registry f g = record g { mcp_registry = f g.mcp_registry }

unfoldable pub happen : Crates → ToolRegistry → Happening → Gateway → Gateway
happen k tools (request q) g = (orchestrate k tools q g).1
happen k tools (finished n reached now) g = elim (take_out n g.warm_ups) [
  | none ↦ g
  | some (w, ws) ↦ record g {
    mcp_registry = warm_connection w.tenant_id w.tool_name w.sse_url reached now g.mcp_registry;
    warm_ups = ws;
  }
]
happen k tools (server_updated name url env_vars) g =
    on_registry (update_server name url env_vars) g
happen k tools (server_removed name) g = on_registry (remove_server name) g
happen k tools (tool_called tenant_id tool_name latency_ms) g =
    on_registry (record_tool_call tenant_id tool_name latency_ms) g

unfoldable pub run : Crates → ToolRegistry → List Happening → Gateway → Gateway
run k tools [] g = g
run k tools (h ∷ hs) g = run k tools hs (happen k tools h g)
