-- ===== src/Execution/Service/Replay.antt =====
-- Calls on operations that are finished or in flight.
use kryneth_oss.Prelude.{◌+◌, ◌≡◌, false, none, some, Text, Bytes, arith, lookup, insert, Unicode}
use kryneth_oss.Execution.{ExecutionState, ToolExecution, OperationCacheEntry, Request}
use kryneth_oss.Execution.Store.{Store, new_entry, is_lease_expired}
use kryneth_oss.Execution.Store.Claims.{IsFree, claim_refused, claim_fresh}
use kryneth_oss.Execution.Service.{
  moka, Environment, World, execute_tool, replay, refusal, already_in_flight, lease_duration,
  call_key, initial_of, after_claim, carry_out, run_tool,
}

module _ (u : Unicode) (digest : Bytes → Text) (q : Request) (env : Environment)
    (w : World Store) where
  abbrev initial : ToolExecution
  initial = initial_of digest q env

  -- A call whose claim takes nothing over goes by the state that it found.
  pub execute_tool-seen :
      (e : OperationCacheEntry)
      → lookup (call_key digest q env) w.store ≡ some e
      → ¬ (IsFree e env.claim_clock.checked)
      → execute_tool u digest moka q env w
        ≡ carry_out u digest moka q env initial
            (after_claim u digest moka q env initial e.state e.context w)
  unfolding execute_tool
  execute_tool-seen e found held =
      rw (claim_refused env.claim_clock initial lease_duration w.store e found held)

  -- The first call of an operation runs the tool under version 1.
  pub execute_tool-fresh :
      lookup (call_key digest q env) w.store ≡ none
      → execute_tool u digest moka q env w
        ≡ run_tool u digest moka q env initial 1 (record w {
          store =
              insert
                (call_key digest q env)
                (new_entry env.claim_clock initial lease_duration)
                w.store;
        })
  unfolding execute_tool new_entry
  execute_tool-fresh h = rw (claim_fresh env.claim_clock initial lease_duration w.store h)

  -- A call on a succeeded operation returns the stored content and latency, calls no tool and
  -- changes nothing.
  pub execute_tool-replay :
      (e : OperationCacheEntry)
      → lookup (call_key digest q env) w.store ≡ some e
      → e.state ≡ ExecutionState.succeeded
      → execute_tool u digest moka q env w ≡ (replay q e.context, w)
  unfolding after_claim
  execute_tool-replay e found state =
      rw (execute_tool-seen e found (λ f. ground arith)) (rw (state, after_claim))

  -- A call on a running operation whose lease has not run out is refused: it calls no tool and
  -- changes only the counter of such refusals.
  pub execute_tool-in_flight :
      (e : OperationCacheEntry)
      → lookup (call_key digest q env) w.store ≡ some e
      → e.state ≡ ExecutionState.running
      → is_lease_expired e.context env.claim_clock.checked ≡ false
      → execute_tool u digest moka q env w ≡ (
        refusal q already_in_flight 0,
        record w { already_in_flight_blocked = w.already_in_flight_blocked + 1 },
      )
  unfolding after_claim
  execute_tool-in_flight e found state held =
      rw (execute_tool-seen e found (λ f. ground arith)) (rw (state, after_claim))

  -- A call that finds another call's live claim, before that one has marked the operation running,
  -- runs the tool as well, under the same version.
  pub execute_tool-claimed :
      (e : OperationCacheEntry)
      → lookup (call_key digest q env) w.store ≡ some e
      → e.state ≡ ExecutionState.claimed
      → is_lease_expired e.context env.claim_clock.checked ≡ false
      → execute_tool u digest moka q env w
        ≡ run_tool u digest moka q env initial e.context.version w
  unfolding after_claim
  execute_tool-claimed e found state held =
      rw (execute_tool-seen e found (λ f. ground arith)) (rw (state, after_claim))
