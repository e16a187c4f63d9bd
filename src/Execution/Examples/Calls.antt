-- ===== src/Execution/Examples/Calls.antt =====
-- The theorems about calls, at the data of Execution/Examples.antt.
use kryneth_oss.Prelude.{
  arith, ◌+◌, ◌≡◌, ◌≢◌, ◌↔◌, refl, false, inl, inr, none, some, List, All, text_eq, [], ◌∷◌, ◌++◌,
  codes, lookup, starts_with, contains,
}
use kryneth_oss.Execution.{ExecutionState, OperationCacheEntry, RetryPolicy}
use kryneth_oss.Execution.Store.{Store}
use kryneth_oss.Execution.Store.Interleaved.{Write, claim_writes, expires, perform, perform_all}
use kryneth_oss.Execution.Store.Fencing.{HasSeen}
use kryneth_oss.Execution.Store.Invariant.{StoreIsWellFormed}
use kryneth_oss.Execution.Policy.{resolve_tool_policy, reads}
use kryneth_oss.Execution.Identity.{initial_execution, idempotency_key}
use kryneth_oss.Execution.Service.{
  initial_of, lease_duration, complete_task, moka, World, Join, finished, elapsed, execute_tool,
  resolved, refusal, previous_attempt_unknown, TransportCall, is_timeout, task_failed,
}
use kryneth_oss.Execution.Service.Race.{just_claimed, claim_race_calls}
use kryneth_oss.Execution.Service.Confined.{execute_tool-IsWellFormed, lookup-execute_tool}
use kryneth_oss.Execution.Service.Unknown.{ForbidsRetry, unknown_calls_iff}
use kryneth_oss.Execution.Service.Lifecycle.{
  ended, expired_again, late_success_recovers, executed_once, timeout_blocks_retry,
}
use kryneth_oss.Execution.Examples.{
  ascii, plain, charge, get_price, paid, call_at, at, idle, first, key, entry, storing, stored,
}

idle_empty : lookup key idle.store ≡ none
unfolding lookup
idle_empty = refl

-- The first call of the operation, whose task ends as `j`, and the world after it.
abbrev after_first : Join → World Store
after_first j = (execute_tool ascii plain moka charge (call_at 0 j) idle).1

abbrev unknown_entry : OperationCacheEntry
unknown_entry = entry ExecutionState.unknown

abbrev in_doubt : World Store
in_doubt = storing charge unknown_entry

in_doubt_found : lookup key in_doubt.store ≡ some unknown_entry
in_doubt_found = stored key unknown_entry []

charge-ForbidsRetry : ForbidsRetry ascii charge
unfolding resolve_tool_policy reads starts_with
charge-ForbidsRetry = (λ e. cc, λ e. cc)

get_price_may_retry : ¬ ForbidsRetry ascii get_price
unfolding resolve_tool_policy reads starts_with
get_price_may_retry f = f.0 refl

-- A claim that found nothing before the first call's, a claim of a task that has seen its result, and
-- the end of another entry.
abbrev between : List Write
between =
    claim_writes (at 3) (initial_of plain charge first) lease_duration none
    ∷ claim_writes (at 20000) (initial_of plain charge first) lease_duration
        (some (ended plain charge first))
    ∷ expires (codes "other")
    ∷ []

between-HasSeen : All (HasSeen key (ended plain charge first)) between
unfolding text_eq initial_execution
between-HasSeen = ((λ t. (inl refl, λ e. cc)), ((λ t. (inr refl, λ e. cc)), (refl, tt)))

executed_once_example :
    let later = record (after_first (finished paid)) {
      store = perform_all between (after_first (finished paid)).store;
    } in
    execute_tool ascii plain moka charge (call_at 9 elapsed) later
    ≡ (resolved charge (codes "ok") 3, later)
unfolding initial_execution
executed_once_example =
    executed_once ascii plain charge charge first (call_at 9 elapsed) idle paid between idle_empty
      refl refl between-HasSeen refl

expired_again_example :
    let later = record (after_first (finished paid)) {
      store = perform (expires key) (after_first (finished paid)).store;
    } in
    let w' = (execute_tool ascii plain moka charge (call_at 9 elapsed) later).1 in
    (lookup key w'.store ≡ some (ended plain charge (call_at 9 elapsed)))
    × ((call : TransportCall) × (w'.calls ≡ (after_first (finished paid)).calls ++ call ∷ []))
unfolding initial_execution
expired_again_example =
    expired_again ascii plain charge charge first (call_at 9 elapsed) (after_first (finished paid))
      refl

late_success_recovers_example :
    let later = record (after_first elapsed) {
      store = complete_task moka key 1 paid 30 (after_first elapsed).store;
    } in
    execute_tool ascii plain moka charge (call_at 9 elapsed) later
    ≡ (resolved charge (codes "ok") 3, later)
unfolding initial_execution
late_success_recovers_example =
    late_success_recovers ascii plain charge charge (call_at 0 elapsed) (call_at 9 elapsed) idle
      paid 30 idle_empty refl refl refl

timeout_blocks_retry_example :
    execute_tool ascii plain moka charge (call_at 9 elapsed) (after_first elapsed) ≡ (
      refusal charge previous_attempt_unknown 0,
      record (after_first elapsed) {
        previous_attempt_unknown_blocked =
            (after_first elapsed).previous_attempt_unknown_blocked + 1;
      },
    )
unfolding initial_execution
timeout_blocks_retry_example =
    timeout_blocks_retry ascii plain charge charge (call_at 0 elapsed) (call_at 9 elapsed) idle
      idle_empty refl refl charge-ForbidsRetry refl

unknown_calls_iff_example : ((execute_tool ascii plain moka charge first in_doubt).1.calls ≡ []) ↔ (
    ((resolve_tool_policy ascii (codes "charge")).retry_policy ≢ RetryPolicy.safe)
    × (some (codes "k") ≢ none))
unknown_calls_iff_example =
    unknown_calls_iff ascii plain charge first in_doubt unknown_entry in_doubt_found refl

abbrev busy : World Store
busy = storing charge (entry ExecutionState.running)

claim_race_calls_example :
    (call : TransportCall) × ((execute_tool ascii plain moka charge
        (call_at 9 elapsed)
        (just_claimed ascii plain charge first idle)).1.calls
      ≡ [] ++ call ∷ [])
unfolding initial_execution
claim_race_calls_example =
    claim_race_calls ascii plain charge charge first (call_at 9 elapsed) idle idle_empty refl
      (omega arith)

idle-IsWellFormed : StoreIsWellFormed idle.store
unfolding lookup
idle-IsWellFormed k e h = cc

execute_tool-IsWellFormed_example : StoreIsWellFormed (after_first (finished paid)).store
execute_tool-IsWellFormed_example =
    execute_tool-IsWellFormed ascii plain charge first idle idle-IsWellFormed

key_ne_other : key ≢ codes "other"
unfolding initial_execution idempotency_key
key_ne_other e = cc

lookup-execute_tool_example :
    lookup (codes "other") (execute_tool ascii plain moka charge first busy).1.store
    ≡ lookup (codes "other") busy.store
lookup-execute_tool_example =
    lookup-execute_tool ascii plain charge first busy (codes "other") key_ne_other

boom_is_no_timeout : is_timeout (task_failed (codes "boom")) ≡ false
unfolding is_timeout contains starts_with
boom_is_no_timeout = refl
