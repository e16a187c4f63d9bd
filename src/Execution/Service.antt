-- ===== src/Execution/Service.antt =====
-- `ExecutionService::execute_tool` of src/usecases/execution_service.rs, over any execution store.
-- The clock, the fresh UUID, the reconciler's answer and what becomes of the spawned task come from
-- the environment, as the fields of `Environment`. The task of a call whose wait has timed out goes
-- on by itself: its end is `complete_task`, at any later moment.
pub mod Replay
pub mod Outcome
pub mod Unknown
pub mod Confined
pub mod Lifecycle
pub mod Race
use kryneth_oss.Prelude.{
  ℕ, ◌+◌, Bool, true, false, not, ◌&&◌, ◌||◌, Option, none, some, List, [], ◌∷◌, ◌++◌, Text, Bytes,
  codes, contains, Unicode, if◌then◌else◌, u32, u64, any,
}
use kryneth_oss.Execution.{
  ExecutionState, ToolExecution, ExecutionContext, OperationCacheEntry, ToolExecutionPolicy,
  ToolCall, ToolResult, ReconciliationResult, Readings, Result, ok, err, Request, IdempotencyKey,
}
use kryneth_oss.Execution.Store.{Claim}
use kryneth_oss.Execution.Store
use kryneth_oss.Execution.Policy.{resolve_tool_policy, is_unsafe}
use kryneth_oss.Execution.Identity.{execution_id, initial_execution, is_explicit_idem}

-- The `ExecutionStore` port of src/domain/ports.rs over a store of type `S`. Callers drop the
-- result of a mark, so a mark gives the store alone.
pub record ExecutionStore (S : Type 0) : Type 0 where
  pub create_or_claim : Readings → ToolExecution → ℕ → S → Result Claim × S
  pub mark_running : IdempotencyKey → ℕ → ℕ → S → S
  pub mark_succeeded : IdempotencyKey → ℕ → Text → ℕ → ℕ → S → S
  pub mark_failed : IdempotencyKey → ℕ → Text → ℕ → S → S
  pub mark_unknown : IdempotencyKey → ℕ → ℕ → S → S

-- The adapter of the OSS build, which never fails.
abbrev pub moka : ExecutionStore Store.Store
moka = record {
  create_or_claim = λ r x lease s.
      (ok (Store.create_or_claim r x lease s).0, (Store.create_or_claim r x lease s).1);
  mark_running = Store.mark_running;
  mark_succeeded = Store.mark_succeeded;
  mark_failed = Store.mark_failed;
  mark_unknown = Store.mark_unknown;
}

-- How the wait for the spawned task ends: with its result, with a `JoinError` (its `Debug` text),
-- or by the policy's timeout while the task is still running.
pub data Join : Type 0 where
  finished : ToolResult → Join
  panicked : Text → Join
  elapsed : Join

pub record Environment : Type 0 where
  pub fresh_uuid : Text
  pub created_at : ℕ
  pub updated_at : ℕ
  pub claim_clock : Readings
  pub claim_elapsed : ℕ
  pub reconciliation : Result ReconciliationResult
  pub reconciled_elapsed : ℕ
  pub reconciled_at : ℕ
  pub reclaim_clock : Readings
  pub running_at : ℕ
  pub join : Join
  pub marked_at : ℕ
  pub join_elapsed : ℕ
  pub final_elapsed : ℕ
  pub completed_at : ℕ

-- A call of the tool transport.
pub record TransportCall : Type 0 where
  pub tool_call : ToolCall
  pub tenant_id : Text
  pub enable_compression : Bool
  pub test_scenario : Option Text

pub record TelemetryEvent : Type 0 where
  pub execution_id : Text
  pub operation_id : Text
  pub tenant_id : Text
  pub workflow_id : Option Text
  pub agent_id : Option Text
  pub tool_name : Text
  pub attempt : ℕ
  pub state : ExecutionState
  pub idempotency_key_hash : Text
  pub policy : ToolExecutionPolicy
  pub started_at : ℕ
  pub completed_at : ℕ
  pub latency_ms : ℕ
  pub error_category : Option Text
  pub reconciliation_state : ReconciliationResult

-- What the call reads and changes of `AppState`.
pub record World (S : Type 0) : Type 0 where
  pub store : S
  pub calls : List TransportCall
  pub already_in_flight_blocked : ℕ
  pub previous_attempt_unknown_blocked : ℕ
  pub telemetry : List TelemetryEvent

pub data Decision : Type 0 where
  done : ToolResult → Decision
  proceed : ℕ → Decision

abbrev pub lease_duration : ℕ
lease_duration = 10000

abbrev pub timeout_words : List Text
timeout_words =
    codes "MCP_TIMEOUT"
    ∷ codes "unreachable"
    ∷ codes "not configured"
    ∷ codes "timed out"
    ∷ codes "timeout"
    ∷ []

-- The chain of `content.contains(…)`.
unfoldable pub is_timeout : Text → Bool
is_timeout content = any (λ w. contains w content) timeout_words

unfoldable pub final_state : ToolResult → ExecutionState
unfolding is_timeout
final_state res =
    if res.success
    then ExecutionState.succeeded
    else if is_timeout res.content
    then ExecutionState.unknown
    else ExecutionState.failed

abbrev pub refusal : Request → Text → ℕ → ToolResult
refusal q content latency_ms = record {
  tool_call_id = q.tool_call.id;
  name = q.tool_call.name;
  content = content;
  latency_ms = latency_ms;
  success = false;
}

abbrev pub replay : Request → ExecutionContext → ToolResult
replay q c = record {
  tool_call_id = q.tool_call.id;
  name = q.tool_call.name;
  content = elim c.result_content [ none ↦ [] | some content ↦ content ];
  latency_ms = elim c.latency_ms [ none ↦ 0 | some ms ↦ ms ];
  success = true;
}

abbrev pub resolved : Request → Text → ℕ → ToolResult
resolved q content latency_ms = record {
  tool_call_id = q.tool_call.id;
  name = q.tool_call.name;
  content = content;
  latency_ms = latency_ms;
  success = true;
}

abbrev pub claim_failed : Text → Text
claim_failed e = codes "{\"error\":\"CLAIM_FAILED\",\"message\":\"" ++ (e ++ codes "\"}")

abbrev pub already_in_flight : Text
already_in_flight = codes "{\"error\":\"ALREADY_IN_FLIGHT\"}"

abbrev pub reconciliation_failed : Text → Text
reconciliation_failed reason =
    codes "{\"error\":\"RECONCILIATION_FAILED\",\"reason\":\"" ++ (reason ++ codes "\"}")

abbrev pub previous_attempt_unknown : Text
previous_attempt_unknown = codes "{\"error\":\"PREVIOUS_ATTEMPT_UNKNOWN\"}"

abbrev pub reclaim_failed : Text
reclaim_failed = codes "{\"error\":\"RECLAIM_FAILED\"}"

abbrev pub task_failed : Text → Text
task_failed message =
    codes "{\"error\":\"MCP_TASK_FAILED\",\"message\":\"" ++ (message ++ codes "\"}")

abbrev pub mcp_timeout : Text
mcp_timeout = codes "{\"error\":\"MCP_TIMEOUT\"}"

-- The record with which a call claims its operation.
abbrev pub initial_of : (Bytes → Text) → Request → Environment → ToolExecution
initial_of digest q env =
    initial_execution digest q (execution_id q env.fresh_uuid) env.created_at env.updated_at

-- The key under which the operation is recorded.
abbrev pub call_key : (Bytes → Text) → Request → Environment → IdempotencyKey
call_key digest q env = (initial_of digest q env).idempotency_key

module _ {S : Type 0} (port : ExecutionStore S) where
  -- The end of the spawned task: the transport's result is written under the claim's version.
  unfoldable pub complete_task : IdempotencyKey → ℕ → ToolResult → ℕ → S → S
  unfolding is_timeout
  complete_task key version res utc s =
      if res.success
      then port.mark_succeeded key version res.content res.latency_ms utc s
      else if is_timeout res.content
      then port.mark_unknown key version utc s
      else port.mark_failed key version res.content utc s

  -- An unknown outcome that must not be retried: the reconciler is asked.
  unfoldable pub reconcile :
      Request
      → Environment
      → IdempotencyKey
      → ℕ
      → Result ReconciliationResult
      → World S
      → Decision × World S
  reconcile q env key version (ok (ReconciliationResult.succeeded content)) w = (
    done (resolved q content (u64 env.reconciled_elapsed)),
    record w {
      store =
          port.mark_succeeded key version content (u64 env.reconciled_elapsed) env.reconciled_at
            w.store;
    },
  )
  reconcile q env key version (ok (ReconciliationResult.failed reason)) w = (
    done (refusal q (reconciliation_failed reason) (u64 env.reconciled_elapsed)),
    record w { store = port.mark_failed key version reason env.reconciled_at w.store },
  )
  reconcile q env key version _ w = (
    done (refusal q previous_attempt_unknown 0),
    record w { previous_attempt_unknown_blocked = w.previous_attempt_unknown_blocked + 1 },
  )

  -- An unknown outcome that may be retried: the operation is claimed once more.
  abbrev second_claim : Request → Result Claim × S → World S → Decision × World S
  second_claim q (ok (state, context), s) w = (proceed context.version, record w { store = s })
  second_claim q (err e, s) w = (done (refusal q reclaim_failed 0), record w { store = s })

  unfoldable pub reclaim_unknown :
      Request → Environment → ToolExecution → World S → Decision × World S
  reclaim_unknown q env initial w =
      second_claim q
        (port.create_or_claim env.reclaim_clock
          (record initial { attempt = u32 (initial.attempt + 1) }) lease_duration w.store)
        w

module _ {S : Type 0} (unicode : Unicode) (digest : Bytes → Text) (port : ExecutionStore S) where
  -- Part 3: what the claimed operation's state means for this call.
  unfoldable pub after_claim :
      Request
      → Environment
      → ToolExecution
      → ExecutionState
      → ExecutionContext
      → World S
      → Decision × World S
  unfolding reconcile reclaim_unknown
  after_claim q env initial ExecutionState.succeeded c w = (done (replay q c), w)
  after_claim q env initial ExecutionState.running c w = (
    done (refusal q already_in_flight 0),
    record w { already_in_flight_blocked = w.already_in_flight_blocked + 1 },
  )
  after_claim q env initial ExecutionState.unknown c w =
      if is_unsafe (resolve_tool_policy unicode q.tool_call.name).retry_policy && is_explicit_idem q
      then reconcile port q env initial.idempotency_key c.version env.reconciliation w
      else reclaim_unknown port q env initial w
  after_claim q env initial _ c w = (proceed c.version, w)

  -- The `match exec_res`, with the marks that the task or the waiting call makes by then.
  unfoldable pub await_task : Request → Environment → IdempotencyKey → ℕ → Join → S → ToolResult × S
  unfolding complete_task
  await_task q env key version (finished res) s =
      (res, complete_task port key version res env.marked_at s)
  await_task q env key version (panicked message) s = (
    refusal q (task_failed message) (u64 env.join_elapsed),
    port.mark_unknown key version env.marked_at s,
  )
  await_task q env key version elapsed s =
      (refusal q mcp_timeout (u64 env.join_elapsed), port.mark_unknown key version env.marked_at s)

  unfoldable pub telemetry_event :
      Request → Environment → ToolExecution → ToolResult → TelemetryEvent
  unfolding final_state
  telemetry_event q env initial res = record {
    execution_id = initial.execution_id;
    operation_id = initial.operation_id;
    tenant_id = q.tenant_id;
    workflow_id = initial.workflow_id;
    agent_id = initial.agent_id;
    tool_name = q.tool_call.name;
    attempt = initial.attempt;
    state = final_state res;
    idempotency_key_hash = initial.idempotency_key;
    policy = resolve_tool_policy unicode q.tool_call.name;
    started_at = initial.created_at;
    completed_at = env.completed_at;
    latency_ms = u64 env.final_elapsed;
    error_category =
        if res.success
        then none
        else some (
            if contains (codes "TIMEOUT") res.content
            then codes "timeout"
            else codes "execution_error");
    reconciliation_state = elim (final_state res) [
      | ExecutionState.unknown ↦ ReconciliationResult.still_unknown
      | _ ↦ ReconciliationResult.succeeded []
    ];
  }

  -- Parts 4 and 5: mark running, run the tool, report.
  unfoldable pub run_tool :
      Request → Environment → ToolExecution → ℕ → World S → ToolResult × World S
  unfolding await_task telemetry_event
  run_tool q env initial version w =
      let key = initial.idempotency_key in
      let running = port.mark_running key version env.running_at w.store in
      let (result, s) = await_task q env key version env.join running in
      (
        result,
        record w {
          store = s;
          calls =
              w.calls
              ++ record {
                tool_call = q.tool_call;
                tenant_id = q.tenant_id;
                enable_compression = q.enable_compression;
                test_scenario = q.trace_ctx.test_scenario;
              }
                ∷ [];
          telemetry = w.telemetry ++ telemetry_event q env initial result ∷ [];
        },
      )

  abbrev carry_out :
      Request → Environment → ToolExecution → Decision × World S → ToolResult × World S
  carry_out q env initial (done res, w) = (res, w)
  carry_out q env initial (proceed version, w) = run_tool q env initial version w

  claimed :
      Request → Environment → ToolExecution → Result Claim × S → World S → ToolResult × World S
  unfolding after_claim run_tool
  claimed q env initial (err e, s) w =
      (refusal q (claim_failed e) (u64 env.claim_elapsed), record w { store = s })
  claimed q env initial (ok (state, context), s) w =
      carry_out q env initial (after_claim q env initial state context (record w { store = s }))

  unfoldable pub execute_tool : Request → Environment → World S → ToolResult × World S
  unfolding claimed execution_id initial_execution
  execute_tool q env w =
      let initial = initial_of digest q env in
      claimed q env initial (port.create_or_claim env.claim_clock initial lease_duration w.store) w
