-- ===== src/Execution/Identity.antt =====
-- The identities that `execute_tool` of src/usecases/execution_service.rs derives for a call (its
-- part 1). `digest` stands for the hex text of the SHA-256 hash, from the crates sha2 and hex; the
-- hasher's updates are one concatenation of bytes.
pub mod Isolation
use kryneth_oss.Prelude.{
  ℕ, zero, suc, ◌+◌, ◌/◌, ◌%◌, Option, none, some, List, [], ◌∷◌, ◌++◌, Bool, true, false, ltb,
  ◌==◌, if◌then◌else◌, Text, Bytes, codes, as_bytes, decimal,
}
use kryneth_oss.Execution.{ToolCall, TraceContext, Request, ToolExecution, ExecutionState}

abbrev pub separator : Bytes
separator = 58 ∷ 58 ∷ []

-- What is hashed for a caller's idempotency key.
unfoldable pub explicit_preimage : Text → Text → ℕ → ToolCall → Bytes
unfolding as_bytes decimal
explicit_preimage tenant_id key tool_index call =
    as_bytes tenant_id
    ++ (separator
        ++ (as_bytes key
            ++ (separator
                ++ (as_bytes (decimal tool_index)
                    ++ (separator
                        ++ (as_bytes call.name ++ (separator ++ as_bytes call.arguments)))))))

-- What is hashed where the caller gives none.
unfoldable pub request_preimage : Text → Text → ToolCall → Bytes
unfolding as_bytes
request_preimage tenant_id exec_id call =
    as_bytes tenant_id ++ (separator ++ (as_bytes exec_id ++ (separator ++ as_bytes call.id)))

unfoldable pub operation_preimage : Text → ToolCall → Bytes
unfolding as_bytes
operation_preimage exec_id call = as_bytes exec_id ++ (separator ++ as_bytes call.id)

abbrev pub or_else : Option Text → Text → Text
or_else none d = d
or_else (some t) d = t

-- `Uuid::new_v4()` is an argument.
unfoldable pub execution_id : Request → Text → Text
execution_id q fresh_uuid = or_else q.trace_ctx.execution_id fresh_uuid

abbrev pub is_some : Option Text → Bool
is_some none = false
is_some (some t) = true

unfoldable pub is_explicit_idem : Request → Bool
is_explicit_idem q = is_some q.trace_ctx.idempotency_key

module _ (digest : Bytes → Text) where
  unfoldable pub operation_id : Request → Text → Text
  unfolding operation_preimage
  operation_id q exec_id =
      let derived = digest (operation_preimage exec_id q.tool_call) in
      if q.tool_calls_len == 1 then or_else q.trace_ctx.operation_id derived else derived

  unfoldable pub idempotency_key : Request → Text → Text
  unfolding explicit_preimage request_preimage
  idempotency_key q exec_id = elim q.trace_ctx.idempotency_key [
    | some key ↦ digest (explicit_preimage q.tenant_id key q.tool_index q.tool_call)
    | none ↦ digest (request_preimage q.tenant_id exec_id q.tool_call)
  ]

  -- `initial_execution`, from the execution id and two readings of `Utc::now()`.
  unfoldable pub initial_execution : Request → Text → ℕ → ℕ → ToolExecution
  unfolding operation_id idempotency_key
  initial_execution q exec_id created updated = record {
    execution_id = exec_id;
    operation_id = operation_id q exec_id;
    workflow_id = q.trace_ctx.workflow_id;
    agent_id = q.trace_ctx.agent_id;
    tenant_id = q.tenant_id;
    session_id = some q.trace_ctx.session_id;
    tool_name = q.tool_call.name;
    arguments_hash = idempotency_key q exec_id;
    idempotency_key = idempotency_key q exec_id;
    attempt = 1;
    state = ExecutionState.pending;
    created_at = created;
    updated_at = updated;
  }
