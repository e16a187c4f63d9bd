-- ===== src/Api/Context.antt =====
-- The other middlewares and the routes of src/api: trace_context.rs, billing_guard.rs and routes.rs.
pub mod Routes
use kryneth_oss.Prelude.{
  ℕ, Bool, true, false, ◌||◌, Option, none, some, List, [], ◌∷◌, Text, Bytes, Map, codes, insert,
  text_eq, trim, if◌then◌else◌,
}
use kryneth_oss.Errors.{GatewayError}
use kryneth_oss.Api.{Http, Claims, Request, header, trimmed_header}
use kryneth_oss.Api.Auth.{Outcome, refused, next, Surroundings, auth_middleware, require_admin}

pub record TraceContext : Type 0 where
  pub trace_id : Text
  pub session_id : Text
  pub parent_trace_id : Option Text
  pub workflow_id : Option Text
  pub agent_id : Option Text
  pub execution_id : Option Text
  pub operation_id : Option Text
  pub idempotency_key : Option Text
  pub test_scenario : Option Text

abbrev or_new : Option Text → Text → Text
or_new none fresh = fresh
or_new (some s) fresh = s

-- `session_uuid` and `trace_uuid` are what `Uuid::new_v4` gives.
unfoldable pub trace_context : Http → Text → Text → Request → TraceContext
trace_context http session_uuid trace_uuid q = record {
  trace_id = trace_uuid;
  session_id = or_new (header http (codes "x-session-id") q) session_uuid;
  parent_trace_id = header http (codes "x-parent-trace-id") q;
  workflow_id = header http (codes "x-workflow-id") q;
  agent_id = header http (codes "x-agent-id") q;
  execution_id = header http (codes "x-execution-id") q;
  operation_id = header http (codes "x-operation-id") q;
  idempotency_key = header http (codes "x-idempotency-key") q;
  test_scenario = header http (codes "x-test-scenario") q;
}

-- `if let Ok(val) = HeaderValue::from_str(&value) { headers.insert(name, val); }`
unfoldable pub answer_header : Http → Text → Text → Map Bytes → Map Bytes
answer_header http name value headers = elim (http.from_str value) [
  | none ↦ headers
  | some v ↦ insert name v headers
]

-- The headers of the answer; `run` is the rest, which sees the context.
unfoldable pub trace_context_middleware :
    Http → Text → Text → (TraceContext → Request → Map Bytes) → Request → Map Bytes
unfolding trace_context answer_header
trace_context_middleware http session_uuid trace_uuid run q =
    let ctx = trace_context http session_uuid trace_uuid q in
    answer_header http (codes "x-session-id") ctx.session_id
      (answer_header http (codes "x-trace-id") ctx.trace_id (run ctx q))

-- `billing_guard_middleware`: the request goes on, with the balance that was looked up, if any; `B`
-- is the type of the balances.
pub data Guarded (B : Type 0) : Type 0 where
  rejected : GatewayError → Guarded B
  passed : Option B → Guarded B

pub data Balance (B : Type 0) : Type 0 where
  unavailable : GatewayError → Balance B
  balance : B → Balance B

unfoldable pub billing_guard_middleware :
    {B : Type 0} → Http → (Text → Balance B) → Request → Guarded B
billing_guard_middleware http check_balance q = elim (trimmed_header http (codes "x-tenant-id") q) [
  | none ↦ passed none
  | some tid ↦
      if text_eq tid (codes "anonymous") || text_eq q.path (codes "/health")
      then passed none
      else elim (check_balance tid) [ unavailable e ↦ rejected e | balance b ↦ passed (some b) ]
]

-- The extractor `Extension<Claims>` in front of `require_admin`, which answers 500 without claims.
unfoldable pub admin_layer : Request → Outcome
admin_layer q = elim q.claims [ none ↦ refused 500 | some c ↦ require_admin c q ]

-- The layers of the admin routes.
unfoldable pub admin_route : Surroundings → Request → Outcome
unfolding admin_layer
admin_route s q = elim (auth_middleware s q) [
  | refused status ↦ refused status
  | next q' ↦ admin_layer q'
]

-- The layers of the proxy routes, up to the rate limiter.
pub data Entry (B : Type 0) : Type 0 where
  unauthorised : ℕ → Entry B
  unfunded : GatewayError → Entry B
  entered : Request → Option B → Entry B

unfoldable pub proxy_route : {B : Type 0} → Surroundings → (Text → Balance B) → Request → Entry B
unfolding billing_guard_middleware
proxy_route s check_balance q = elim (auth_middleware s q) [
  | refused status ↦ unauthorised status
  | next q' ↦ elim (billing_guard_middleware s.http check_balance q') [
    | rejected e ↦ unfunded e
    | passed b ↦ entered q' b
  ]
]
