-- ===== src/Execution.antt =====
-- The execution domain: src/domain/execution.rs, src/domain/execution_policy.rs, the cache entry of
-- src/domain/models.rs and the port types of src/domain/ports.rs and
-- src/infrastructure/mcp_client.rs. The one-field id types are their texts; a UTC time or an
-- `Instant` is a number of milliseconds.
pub mod Store
pub mod Policy
pub mod Identity
pub mod Service
mod Examples
use kryneth_oss.Prelude.{ℕ, Text, Bool, Option}

abbrev pub ExecutionId : Type 0
ExecutionId = Text

abbrev pub OperationId : Type 0
OperationId = Text

abbrev pub WorkflowId : Type 0
WorkflowId = Text

abbrev pub AgentId : Type 0
AgentId = Text

abbrev pub IdempotencyKey : Type 0
IdempotencyKey = Text

abbrev pub TenantId : Type 0
TenantId = Text

abbrev pub SessionId : Type 0
SessionId = Text

pub data ExecutionState : Type 0 where
  pending claimed running succeeded failed unknown reconciling : ExecutionState

pub record ToolExecution : Type 0 where
  pub execution_id : ExecutionId
  pub operation_id : OperationId
  pub workflow_id : Option WorkflowId
  pub agent_id : Option AgentId
  pub tenant_id : TenantId
  pub session_id : Option SessionId
  pub tool_name : Text
  pub arguments_hash : Text
  pub idempotency_key : IdempotencyKey
  pub attempt : ℕ  -- u32
  pub state : ExecutionState
  pub created_at : ℕ
  pub updated_at : ℕ

pub record ExecutionContext : Type 0 where
  pub result_content : Option Text
  pub latency_ms : Option ℕ
  pub error_message : Option Text
  pub lease_until : Option ℕ
  pub version : ℕ  -- u64

pub record OperationCacheEntry : Type 0 where
  pub state : ExecutionState
  pub context : ExecutionContext
  pub execution : ToolExecution

pub data RetryPolicy : Type 0 where
  safe unsafe conditional : RetryPolicy

pub data SideEffectClass : Type 0 where
  read_only reversible irreversible : SideEffectClass

pub data IdempotencyRequirement : Type 0 where
  none recommended required : IdempotencyRequirement

pub record ToolExecutionPolicy : Type 0 where
  pub retry_policy : RetryPolicy
  pub side_effect_class : SideEffectClass
  pub idempotency_requirement : IdempotencyRequirement
  pub timeout_seconds : ℕ

pub record ToolCall : Type 0 where
  pub id : Text
  pub name : Text
  pub arguments : Text

pub record ToolResult : Type 0 where
  pub tool_call_id : Text
  pub name : Text
  pub content : Text
  pub latency_ms : ℕ
  pub success : Bool

pub data ReconciliationResult : Type 0 where
  succeeded : Text → ReconciliationResult
  failed : Text → ReconciliationResult
  still_unknown : ReconciliationResult

-- The clock readings of one `create_or_claim`: `Utc::now()`, the `Instant::now()` from which the
-- lease is counted, and the later one that is compared with the stored lease.
pub record Readings : Type 0 where
  pub utc : ℕ
  pub instant : ℕ
  pub checked : ℕ

-- `Result<T, GatewayError>` of a port. The program shows such an error only by its `Debug` text.
pub data Result {ℓ} (A : Type ℓ) : Type ℓ where
  ok : A → Result A
  err : Text → Result A

-- `TraceContext` of src/domain/models.rs.
pub record TraceContext : Type 0 where
  pub trace_id : Text
  pub session_id : Text
  pub parent_trace_id : Option Text
  pub workflow_id : Option Text
  pub agent_id : Option Text
  pub execution_id : Option Text
  pub operation_id : Option Text
  pub idempotency_key : Option Text
  pub test_scenario : Option Text

-- The arguments of `ExecutionService::execute_tool`.
pub record Request : Type 0 where
  pub tool_call : ToolCall
  pub tenant_id : Text
  pub trace_ctx : TraceContext
  pub tool_index : ℕ
  pub tool_calls_len : ℕ
  pub enable_compression : Bool
