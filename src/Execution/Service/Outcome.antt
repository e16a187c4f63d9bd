-- ===== src/Execution/Service/Outcome.antt =====
-- What a run of a tool leaves in the store and reports.
use kryneth_oss.Prelude.{
  ℕ, ◌≡◌, refl, false, none, some, [], ◌∷◌, ◌++◌, Text, Bytes, arith, u64, lookup,
  lookup-insert_self, Unicode, if◌then◌else◌,
}
use kryneth_oss.Execution.{
  ExecutionState, ToolExecution, OperationCacheEntry, ToolResult, Request, IdempotencyKey,
}
use kryneth_oss.Execution.Store.{Store, Mark, mark, marked, new_entry}
use kryneth_oss.Execution.Store.History.{mark_current}
use kryneth_oss.Execution.Service.{
  moka, Environment, World, Join, finished, panicked, elapsed, TransportCall, TelemetryEvent,
  execute_tool, lease_duration, call_key, initial_of, run_tool, await_task, complete_task,
  is_timeout, final_state, refusal, task_failed, telemetry_event,
}
use kryneth_oss.Execution.Service.Replay.{execute_tool-fresh}

-- What is recorded of a run: its success with the content, a definite failure with its message, or
-- that the outcome is not known.
unfoldable pub result_mark : ToolResult → Mark
result_mark res =
    if res.success
    then Mark.succeeded res.content res.latency_ms
    else if is_timeout res.content
    then Mark.unknown
    else Mark.failed res.content

unfoldable pub join_mark : Join → Mark
unfolding result_mark
join_mark (finished res) = result_mark res
join_mark (panicked message) = Mark.unknown
join_mark elapsed = Mark.unknown

pub complete_task_lem :
    (key : IdempotencyKey) (version : ℕ) (res : ToolResult) (utc : ℕ) (s : Store)
    → complete_task moka key version res utc s ≡ mark (result_mark res) key version utc s
unfolding complete_task result_mark
complete_task_lem key version res utc s = ground arith

final_state-failed :
    (res : ToolResult)
    → res.success ≡ false
    → is_timeout res.content ≡ false
    → final_state res ≡ ExecutionState.failed
unfolding final_state
final_state-failed res h k = ground (arith, k)

module _ (u : Unicode) (digest : Bytes → Text) (q : Request) (env : Environment) where
  pub await_task_lem :
      (key : IdempotencyKey) (version : ℕ) (j : Join) (s : Store)
      → (await_task u digest moka q env key version j s).1
        ≡ mark (join_mark j) key version env.marked_at s
  unfolding await_task join_mark
  await_task_lem key version (finished res) s = complete_task_lem key version res env.marked_at s
  await_task_lem key version (panicked message) s = refl
  await_task_lem key version elapsed s = refl

  pub calls-run_tool :
      (initial : ToolExecution) (version : ℕ) (w : World Store)
      → (call : TransportCall) × ((run_tool u digest moka q env initial version w).1.calls
          ≡ w.calls ++ call ∷ [])
  unfolding run_tool
  calls-run_tool initial version w = (_, refl)

  -- A run under the entry's own version leaves the entry that the end of its task calls for.
  pub store-run_tool :
      (initial : ToolExecution) (version : ℕ) (w : World Store) (e : OperationCacheEntry)
      → lookup initial.idempotency_key w.store ≡ some e
      → e.context.version ≡ version
      → lookup initial.idempotency_key (run_tool u digest moka q env initial version w).1.store
        ≡ some (marked (join_mark env.join) env.marked_at (marked Mark.running env.running_at e))
  unfolding run_tool
  store-run_tool initial version w e found same =
      rw (await_task_lem initial.idempotency_key version env.join) (
        mark_current (join_mark env.join) initial.idempotency_key version env.marked_at
          (mark Mark.running initial.idempotency_key version env.running_at w.store)
          (marked Mark.running env.running_at e)
          (mark_current Mark.running initial.idempotency_key version env.running_at w.store e found
            same)
          (unfold marked in same))

  -- The first call of an operation calls the tool once and leaves, under version 1, the entry that
  -- the end of the task calls for: succeeded with its content, failed with its message, or unknown
  -- where the result speaks of a timeout, the wait timed out or the task panicked.
  pub execute_tool-first :
      (w : World Store)
      → lookup (call_key digest q env) w.store ≡ none
      → let w' = (execute_tool u digest moka q env w).1 in
        let started = new_entry env.claim_clock (initial_of digest q env) lease_duration in
        (lookup (call_key digest q env) w'.store
          ≡ some (
              marked
                (join_mark env.join)
                env.marked_at
                (marked Mark.running env.running_at started)))
        × ((call : TransportCall) × (w'.calls ≡ w.calls ++ call ∷ []))
  unfolding new_entry
  execute_tool-first w h = rw (execute_tool-fresh u digest q env w h) (
    store-run_tool (initial_of digest q env) 1 _ _
        (lookup-insert_self (call_key digest q env) _ w.store) refl,
    calls-run_tool (initial_of digest q env) 1 _,
  )

  -- The state that is reported of a task that finished is the state that is recorded of it.
  pub telemetry-finished :
      (initial : ToolExecution) (res : ToolResult) (e : OperationCacheEntry) (utc : ℕ)
      → (marked (result_mark res) utc e).state
        ≡ (telemetry_event u digest moka q env initial res).state
  unfolding telemetry_event result_mark marked
  telemetry-finished initial res e utc = ground arith

  panicked_event :
      (initial : ToolExecution) (version : ℕ) (w : World Store) (message : Text)
      → env.join ≡ panicked message
      → is_timeout (task_failed message) ≡ false
      → (event : TelemetryEvent) × ((run_tool u digest moka q env initial version w).1.telemetry
          ≡ w.telemetry ++ event ∷ [])
        × (event.state ≡ ExecutionState.failed)
  unfolding run_tool
  panicked_event initial version w message how words = (
    _,
    refl,
    rw how (final_state-failed (refusal q (task_failed message) (u64 env.join_elapsed)) refl words),
  )

  -- Of a task that panicked, run under the version of the entry of its key, the store records an
  -- unknown outcome, and unless the panic's message speaks of a timeout the telemetry reports a
  -- definite failure.
  pub telemetry-panicked :
      (initial : ToolExecution) (version : ℕ) (w : World Store) (e : OperationCacheEntry)
      (message : Text)
      → env.join ≡ panicked message
      → is_timeout (task_failed message) ≡ false
      → lookup initial.idempotency_key w.store ≡ some e
      → e.context.version ≡ version
      → let w' = (run_tool u digest moka q env initial version w).1 in
        ((e' : OperationCacheEntry) × (lookup initial.idempotency_key w'.store ≡ some e')
          × (e'.state ≡ ExecutionState.unknown))
        × ((event : TelemetryEvent) × (w'.telemetry ≡ w.telemetry ++ event ∷ [])
            × (event.state ≡ ExecutionState.failed))
  telemetry-panicked initial version w e message how words found same = (
    (
      marked (join_mark env.join) env.marked_at (marked Mark.running env.running_at e),
      store-run_tool initial version w e found same,
      rw how (unfold join_mark marked in refl),
    ),
    panicked_event initial version w message how words,
  )
