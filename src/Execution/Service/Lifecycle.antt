-- ===== src/Execution/Service/Lifecycle.antt =====
-- Several calls on one operation, one after the other, with other tasks in between.
use kryneth_oss.Prelude.{
  ℕ, ◌+◌, ◌≡◌, refl, ◌∙◌, true, none, some, List, [], ◌∷◌, ◌++◌, Text, Bytes, lookup, remove,
  lookup-remove, text_eq_refl, Unicode, All, inl,
}
use kryneth_oss.Execution.{
  ExecutionState, OperationCacheEntry, ToolResult, Request, ok, ReconciliationResult,
}
use kryneth_oss.Execution.Store.{Store, Mark, marked, new_entry}
use kryneth_oss.Execution.Store.History.{mark_current, version-marked}
use kryneth_oss.Execution.Store.Interleaved.{Write, expires, perform, perform_all}
use kryneth_oss.Execution.Store.Fencing.{HasSeen, succeeded_final}
use kryneth_oss.Execution.Service.{
  moka, Environment, World, finished, elapsed, execute_tool, lease_duration, call_key, initial_of,
  resolved, replay, refusal, previous_attempt_unknown, complete_task, TransportCall,
}
use kryneth_oss.Execution.Service.Replay.{execute_tool-replay}
use kryneth_oss.Execution.Service.Outcome.{
  result_mark, join_mark, complete_task_lem, execute_tool-first,
}
use kryneth_oss.Execution.Service.Unknown.{ForbidsRetry, reconcile-unresolved}

-- The entry that the first call of an operation leaves.
abbrev pub ended : (Bytes → Text) → Request → Environment → OperationCacheEntry
ended digest q env = marked (join_mark env.join) env.marked_at (
    marked Mark.running env.running_at
      (new_entry env.claim_clock (initial_of digest q env) lease_duration))

-- An entry with a result to replay.
record Replayable (e : OperationCacheEntry) (body : Text) (ms : ℕ) : Type 0 where
  succeeded : e.state ≡ ExecutionState.succeeded
  content : e.context.result_content ≡ some body
  latency : e.context.latency_ms ≡ some ms

replay-resolved :
    (q : Request) (e : OperationCacheEntry) (content : Text) (latency_ms : ℕ)
    → Replayable e content latency_ms
    → replay q e.context ≡ resolved q content latency_ms
replay-resolved q e content latency_ms r = rw (r.content, r.latency)

Replayable-marked :
    (res : ToolResult) (utc : ℕ) (e : OperationCacheEntry)
    → res.success ≡ true
    → Replayable (marked (result_mark res) utc e) res.content res.latency_ms
unfolding marked result_mark
Replayable-marked res utc e h = rw h (record { succeeded = refl; content = refl; latency = refl })

module _ (digest : Bytes → Text) (q : Request) (env : Environment) where
  Replayable-ended :
      (res : ToolResult)
      → env.join ≡ finished res
      → res.success ≡ true
      → Replayable (ended digest q env) res.content res.latency_ms
  unfolding join_mark
  Replayable-ended res j h = rw (j, join_mark) (Replayable-marked res env.marked_at _ h)

  version-ended : (ended digest q env).context.version ≡ 1
  unfolding new_entry
  version-ended =
      version-marked (join_mark env.join) env.marked_at _
      ∙ version-marked Mark.running env.running_at
          (new_entry env.claim_clock (initial_of digest q env) lease_duration)

module _ (u : Unicode) (digest : Bytes → Text) where
  -- Once the first call of an operation has succeeded, every later call on the same key gets that
  -- call's content and latency, calls no tool and changes nothing, whatever other tasks do to the
  -- store between the two and however their reads and writes fall, as long as the entry does not
  -- expire, no task with its version writes to the operation again, and none writes over it that
  -- read the operation before it had succeeded.
  pub executed_once :
      (q q' : Request) (env env' : Environment) (w : World Store) (res : ToolResult)
      (ws : List Write)
      → lookup (call_key digest q env) w.store ≡ none
      → env.join ≡ finished res
      → res.success ≡ true
      → All (HasSeen (call_key digest q env) (ended digest q env)) ws
      → call_key digest q' env' ≡ call_key digest q env
      → let w' = (execute_tool u digest moka q env w).1 in
        let later = record w' { store = perform_all ws w'.store } in
        execute_tool u digest moka q' env' later ≡ (resolved q' res.content res.latency_ms, later)
  executed_once q q' env env' w res ws h j success n same =
      let e = ended digest q env in
      let r = Replayable-ended digest q env res j success in
      execute_tool-replay u digest q' env' _ e
        (rw same (
          succeeded_final (call_key digest q env) ws _ (execute_tool-first u digest q env w h).0
            r.succeeded n))
        r.succeeded
      ∙ rw (replay-resolved q' e res.content res.latency_ms r)

  -- If the entry does expire, the operation is done again: whatever was there, a later call on the
  -- same key calls the tool once more, and leaves its own outcome.
  pub expired_again :
      (q q' : Request) (env env' : Environment) (w : World Store)
      → call_key digest q' env' ≡ call_key digest q env
      → let later = record w { store = perform (expires (call_key digest q env)) w.store } in
        let w' = (execute_tool u digest moka q' env' later).1 in
        (lookup (call_key digest q' env') w'.store ≡ some (ended digest q' env'))
        × ((call : TransportCall) × (w'.calls ≡ w.calls ++ call ∷ []))
  unfolding perform
  expired_again q q' env env' w same =
      let key = call_key digest q env in
      execute_tool-first u digest q' env' (record w { store = remove key w.store })
        (rw (same, lookup-remove key key w.store, text_eq_refl key) refl)

  -- A first call whose wait timed out leaves an unknown outcome, and then a call on the same key
  -- that forbids a retry is refused and calls no tool, as long as the reconciler cannot tell.
  pub timeout_blocks_retry :
      (q q' : Request) (env env' : Environment) (w : World Store)
      → lookup (call_key digest q env) w.store ≡ none
      → env.join ≡ elapsed
      → call_key digest q' env' ≡ call_key digest q env
      → ForbidsRetry u q'
      → env'.reconciliation ≡ ok ReconciliationResult.still_unknown
      → let w' = (execute_tool u digest moka q env w).1 in
        execute_tool u digest moka q' env' w' ≡ (
          refusal q' previous_attempt_unknown 0,
          record w' { previous_attempt_unknown_blocked = w'.previous_attempt_unknown_blocked + 1 },
        )
  unfolding marked join_mark
  timeout_blocks_retry q q' env env' w h j same forbidden r =
      reconcile-unresolved u digest q' env' (execute_tool u digest moka q env w).1
        (ended digest q env) (rw same (execute_tool-first u digest q env w h).0) (rw j refl)
        forbidden (inl r)

  -- The task of such a timed-out call may still end: if it succeeds before anything else happens to
  -- the operation, its late completion is recorded, and a later call on the same key gets it.
  pub late_success_recovers :
      (q q' : Request) (env env' : Environment) (w : World Store) (res : ToolResult) (utc : ℕ)
      → lookup (call_key digest q env) w.store ≡ none
      → env.join ≡ elapsed
      → res.success ≡ true
      → call_key digest q' env' ≡ call_key digest q env
      → let w' = (execute_tool u digest moka q env w).1 in
        let later = record w' {
          store = complete_task moka (call_key digest q env) 1 res utc w'.store;
        } in
        execute_tool u digest moka q' env' later ≡ (resolved q' res.content res.latency_ms, later)
  late_success_recovers q q' env env' w res utc h j success same =
      let e = ended digest q env in
      let r = Replayable-marked res utc e success in
      execute_tool-replay u digest q' env' _ (marked (result_mark res) utc e)
        (rw (same, complete_task_lem (call_key digest q env) 1 res utc)
          (mark_current (result_mark res) (call_key digest q env) 1 utc _ e
            (execute_tool-first u digest q env w h).0 (version-ended digest q env)))
        r.succeeded
      ∙ rw (replay-resolved q' (marked (result_mark res) utc e) res.content res.latency_ms r)
