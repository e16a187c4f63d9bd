-- ===== src/Execution/Service/Unknown.antt =====
-- Calls on an operation whose earlier attempt has an unknown outcome.
use kryneth_oss.Prelude.{
  ℕ, ◌+◌, ◌≡◌, ◌≢◌, ◌↔◌, ◌⊎◌, refl, sym, ap, ◌∙◌, Option-cases, Bool, true, false, ◌&&◌, none, some,
  Text, Bytes, arith, lookup, Unicode, append_ne, u32, u64, Bool-cases, inl, inr,
}
use kryneth_oss.Execution.{
  ExecutionState, ToolExecution, OperationCacheEntry, ToolResult, Request, Result, ok, err,
  RetryPolicy, ReconciliationResult,
}
use kryneth_oss.Execution.Store.{Store, Mark, marked}
use kryneth_oss.Execution.Store.Claims.{claim_refused}
use kryneth_oss.Execution.Store.History.{mark_current, version-marked}
use kryneth_oss.Execution.Policy.{resolve_tool_policy, is_unsafe}
use kryneth_oss.Execution.Identity.{is_explicit_idem}
use kryneth_oss.Execution.Service.{
  moka, Environment, World, execute_tool, lease_duration, call_key, initial_of, run_tool,
  after_claim, carry_out, reconcile, refusal, resolved, previous_attempt_unknown,
  reconciliation_failed, complete_task,
}
use kryneth_oss.Execution.Service.Replay.{execute_tool-seen}
use kryneth_oss.Execution.Service.Outcome.{
  calls-run_tool, store-run_tool, result_mark, join_mark, complete_task_lem,
}

-- The tool is not safe to retry, and the caller gave an idempotency key.
abbrev pub ForbidsRetry : Unicode → Request → Type 0
ForbidsRetry u q =
    ((resolve_tool_policy u q.tool_call.name).retry_policy ≢ RetryPolicy.safe)
    × (q.trace_ctx.idempotency_key ≢ none)

must_not_retry : Unicode → Request → Bool
must_not_retry u q =
    is_unsafe (resolve_tool_policy u q.tool_call.name).retry_policy && is_explicit_idem q

is_unsafe_iff : (p : RetryPolicy) → (is_unsafe p ≡ true) ↔ (p ≢ RetryPolicy.safe)
unfolding is_unsafe
is_unsafe_iff RetryPolicy.safe = (λ h. cc, λ n. absurd (n refl))
is_unsafe_iff RetryPolicy.unsafe = (λ h e. cc, λ n. refl)
is_unsafe_iff RetryPolicy.conditional = (λ h e. cc, λ n. refl)

is_explicit_idem_iff :
    (q : Request) → (is_explicit_idem q ≡ true) ↔ (q.trace_ctx.idempotency_key ≢ none)
unfolding is_explicit_idem
is_explicit_idem_iff q = elim (Option-cases q.trace_ctx.idempotency_key) [
  | inl h ↦ (λ t. ground arith, λ n. absurd (n h))
  | inr (key, h) ↦ (λ t e. cc, λ n. rw h)
]

must_not_retry_iff : (u : Unicode) (q : Request) → (must_not_retry u q ≡ true) ↔ ForbidsRetry u q
unfolding must_not_retry
must_not_retry_iff u q = (
  λ h. ((is_unsafe_iff _).0 (ground arith), (is_explicit_idem_iff q).0 (ground arith)),
  λ f. rw ((is_unsafe_iff _).1 f.0, (is_explicit_idem_iff q).1 f.1),
)

module _ (u : Unicode) (digest : Bytes → Text) (q : Request) (env : Environment) (w : World Store)
    (e : OperationCacheEntry) (found : lookup (call_key digest q env) w.store ≡ some e)
    (state : e.state ≡ ExecutionState.unknown) where
  seen_unknown :
      execute_tool u digest moka q env w
      ≡ carry_out u digest moka q env (initial_of digest q env) (
          after_claim u digest moka q env
            (initial_of digest q env)
            ExecutionState.unknown
            e.context
            w)
  seen_unknown = execute_tool-seen u digest q env w e found (λ f. ground arith) ∙ rw state

  -- The guard fails: the operation is claimed again, which changes nothing, and the tool is run
  -- under the version that the earlier attempt still holds.
  unknown_retried :
      must_not_retry u q ≡ false
      → execute_tool u digest moka q env w
        ≡ run_tool u digest moka q env (initial_of digest q env) e.context.version w
  unfolding must_not_retry after_claim
  unknown_retried retry =
      seen_unknown
      ∙ rw (retry, after_claim)
          (rw (
            claim_refused env.reclaim_clock (record initial { attempt = u32 (initial.attempt + 1) })
              lease_duration w.store e found (λ f. ground arith)))
    where
      initial : ToolExecution
      initial = initial_of digest q env

  -- Where a retry is not forbidden, the tool is run again under the version that the earlier
  -- attempt still holds.
  pub unknown_rerun :
      ¬ ForbidsRetry u q
      → execute_tool u digest moka q env w
        ≡ run_tool u digest moka q env (initial_of digest q env) e.context.version w
  unknown_rerun n = elim (Bool-cases (must_not_retry u q)) [
    | inl h ↦ absurd (n ((must_not_retry_iff u q).0 h))
    | inr h ↦ unknown_retried h
  ]

  -- A call on an operation with an unknown outcome, where a retry is not forbidden, does not fence
  -- the earlier attempt out: if the task of that attempt ends after the retry has ended, in
  -- whatever way, its result is written over the retry's.
  pub unknown_retry_not_fenced :
      (late : ToolResult) (utc : ℕ)
      → ¬ ForbidsRetry u q
      → let w' = (execute_tool u digest moka q env w).1 in
        let ran =
          marked (join_mark env.join) env.marked_at (marked Mark.running env.running_at e) in
        (lookup (call_key digest q env) w'.store ≡ some ran)
        × (lookup
              (call_key digest q env)
              (complete_task moka (call_key digest q env) e.context.version late utc w'.store)
            ≡ some (marked (result_mark late) utc ran))
  unknown_retry_not_fenced late utc n =
      let running = marked Mark.running env.running_at e in
      let ran = marked (join_mark env.join) env.marked_at running in
      let stored =
        store-run_tool u digest q env (initial_of digest q env) e.context.version w e found refl in
      let kept =
        version-marked (join_mark env.join) env.marked_at running
        ∙ version-marked Mark.running env.running_at e in
      rw (unknown_rerun n, complete_task_lem (call_key digest q env) e.context.version late utc)
        (
          stored,
          mark_current (result_mark late) (call_key digest q env) e.context.version utc _ ran stored
              kept,
        )

  unknown_reconciled :
      must_not_retry u q ≡ true
      → execute_tool u digest moka q env w
        ≡ carry_out u digest moka q env
            (initial_of digest q env)
            (reconcile moka q env (call_key digest q env) e.context.version env.reconciliation w)
  unfolding must_not_retry after_claim
  unknown_reconciled h = seen_unknown ∙ rw (h, after_claim)

  calls-reconciled :
      (r : Result ReconciliationResult)
      → (carry_out u digest moka q env
          (initial_of digest q env)
          (reconcile moka q env (call_key digest q env) e.context.version r w)).1.calls
        ≡ w.calls
  unfolding reconcile
  calls-reconciled (ok (ReconciliationResult.succeeded content)) = refl
  calls-reconciled (ok (ReconciliationResult.failed reason)) = refl
  calls-reconciled (ok ReconciliationResult.still_unknown) = refl
  calls-reconciled (err x) = refl

  -- A call on an operation with an unknown outcome leaves the tool alone exactly when the tool is
  -- not safe to retry and the caller gave an idempotency key.
  pub unknown_calls_iff : ((execute_tool u digest moka q env w).1.calls ≡ w.calls) ↔ (
      ((resolve_tool_policy u q.tool_call.name).retry_policy ≢ RetryPolicy.safe)
      × (q.trace_ctx.idempotency_key ≢ none))
  unknown_calls_iff = elim (Bool-cases (must_not_retry u q)) [
    | inl h ↦ (
      λ same. (must_not_retry_iff u q).0 h,
      λ f. rw (unknown_reconciled h) (calls-reconciled env.reconciliation),
    )
    | inr h ↦
        let (call, more) =
          calls-run_tool u digest q env (initial_of digest q env) e.context.version w in
        (
          λ same. absurd (
              append_ne w.calls call (
                sym more
                ∙ sym (ap (λ (r : ToolResult × World Store). r.1.calls) (unknown_retried h))
                ∙ same)),
          λ f. cc (h, (must_not_retry_iff u q).1 f),
        )
  ]

  module _ (forbidden : ForbidsRetry u q) where
    guarded :
        (r : Result ReconciliationResult)
        → env.reconciliation ≡ r
        → execute_tool u digest moka q env w
          ≡ carry_out u digest moka q env
              (initial_of digest q env)
              (reconcile moka q env (call_key digest q env) e.context.version r w)
    guarded r h = unknown_reconciled ((must_not_retry_iff u q).1 forbidden) ∙ rw h

    -- On an operation with an unknown outcome and a forbidden retry, the reconciler's answer that
    -- the earlier attempt succeeded is recorded and returned.
    pub reconcile-succeeded :
        (content : Text)
        → env.reconciliation ≡ ok (ReconciliationResult.succeeded content)
        → let (result, w') = execute_tool u digest moka q env w in
          (result ≡ resolved q content (u64 env.reconciled_elapsed))
          × (lookup (call_key digest q env) w'.store
              ≡ some (
                  marked (Mark.succeeded content (u64 env.reconciled_elapsed)) env.reconciled_at e))
    unfolding reconcile
    reconcile-succeeded content r = rw (guarded (ok (ReconciliationResult.succeeded content)) r) (
      refl,
      mark_current _ (call_key digest q env) e.context.version env.reconciled_at w.store e found
          refl,
    )

    -- On an operation with an unknown outcome and a forbidden retry, the reconciler's answer that
    -- the earlier attempt failed is recorded and reported.
    pub reconcile-failed :
        (reason : Text)
        → env.reconciliation ≡ ok (ReconciliationResult.failed reason)
        → let (result, w') = execute_tool u digest moka q env w in
          (result ≡ refusal q (reconciliation_failed reason) (u64 env.reconciled_elapsed))
          × (lookup (call_key digest q env) w'.store
              ≡ some (marked (Mark.failed reason) env.reconciled_at e))
    unfolding reconcile
    reconcile-failed reason r = rw (guarded (ok (ReconciliationResult.failed reason)) r) (
      refl,
      mark_current _ (call_key digest q env) e.context.version env.reconciled_at w.store e found
          refl,
    )

    abbrev blocked : ToolResult × World Store
    blocked = (
      refusal q previous_attempt_unknown 0,
      record w { previous_attempt_unknown_blocked = w.previous_attempt_unknown_blocked + 1 },
    )

    -- On an operation with an unknown outcome and a forbidden retry, if the reconciler cannot tell,
    -- or fails itself, the call is refused: no tool is called and only the counter of such refusals
    -- changes.
    pub reconcile-unresolved :
        (env.reconciliation ≡ ok ReconciliationResult.still_unknown)
          ⊎ ((x : Text) × (env.reconciliation ≡ err x))
        → execute_tool u digest moka q env w ≡ blocked
    unfolding reconcile
    reconcile-unresolved (inl r) = guarded (ok ReconciliationResult.still_unknown) r
    reconcile-unresolved (inr (x, r)) = guarded (err x) r
