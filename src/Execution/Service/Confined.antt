-- ===== src/Execution/Service/Confined.antt =====
-- Which part of the store a call can touch: its changes are a history of operations on its own key.
use kryneth_oss.Prelude.{
  ℕ, ◌≡◌, refl, sym, ap, ◌∙◌, List, [], ◌∷◌, ◌++◌, Text, Bytes, lookup, text_eq, ◌≢◌, ◌+◌, u32,
  ◌&&◌, text_eq_sound, Unicode, All, All-append, All-map, Bool-cases, inl, inr,
}
use kryneth_oss.Execution.{
  ExecutionState, ExecutionContext, ToolExecution, Readings, Request, Result, ok, err,
  ReconciliationResult,
}
use kryneth_oss.Execution.Store.{Store, Mark, mark, create_or_claim}
use kryneth_oss.Execution.Store.History.{
  Cell, Op, claims, marks, op_key, apply, run, run_cell, lookup-run,
}
use kryneth_oss.Execution.Store.Invariant.{KeepsResult, StoreIsWellFormed, run-IsWellFormed}
use kryneth_oss.Execution.Policy.{resolve_tool_policy, is_unsafe}
use kryneth_oss.Execution.Identity.{is_explicit_idem}
use kryneth_oss.Execution.Service.{
  moka, Environment, World, execute_tool, call_key, initial_of, run_tool, after_claim, carry_out,
  reconcile, reclaim_unknown, lease_duration,
}
use kryneth_oss.Execution.Service.Outcome.{join_mark, await_task_lem}

abbrev OwnOp : Text → Op → Type 0
OwnOp key op = (op_key op ≡ key) × KeepsResult op

-- The second store comes from the first by operations of one key.
record Confined (key : Text) (s s' : Store) : Type 0 where
  ops : List Op
  history : s' ≡ run ops s
  own : All (OwnOp key) ops

run-append : (ops ops' : List Op) (s : Store) → run (ops ++ ops') s ≡ run ops' (run ops s)
unfolding run
run-append [] ops' s = refl
run-append (op ∷ ops) ops' s = run-append ops ops' (apply op s)

Confined-refl : (key : Text) (s : Store) → Confined key s s
unfolding run
Confined-refl key s = record { ops = []; history = refl; own = tt }

Confined-trans :
    {key : Text} {s s' s'' : Store} → Confined key s s' → Confined key s' s'' → Confined key s s''
Confined-trans {key} {s} c d = record {
  ops = c.ops ++ d.ops;
  history = d.history ∙ ap (run d.ops) c.history ∙ sym (run-append c.ops d.ops s);
  own = All-append (OwnOp key) c.ops d.ops c.own d.own;
}

Confined-op : (key : Text) (op : Op) (s : Store) → OwnOp key op → Confined key s (apply op s)
unfolding run
Confined-op key op s o = record { ops = op ∷ []; history = refl; own = (o, tt) }

Confined-mark :
    (key : Text) (m : Mark) (version utc : ℕ) (s : Store)
    → Confined key s (mark m key version utc s)
unfolding apply
Confined-mark key m version utc s = Confined-op key (marks m key version utc) s (refl, tt)

Confined-claim :
    (r : Readings) (x : ToolExecution) (lease : ℕ) (s : Store)
    → Confined x.idempotency_key s (create_or_claim r x lease s).1
unfolding apply
Confined-claim r x lease s = Confined-op x.idempotency_key (claims r x lease) s (refl, tt)

run_cell-other :
    (key k : Text) (ops : List Op) (o : Cell) → key ≢ k → All (OwnOp key) ops → run_cell k ops o ≡ o
unfolding run_cell
run_cell-other key k [] o n h = refl
run_cell-other key k (op ∷ ops) o n h = elim (Bool-cases (text_eq (op_key op) k)) [
  | inl same ↦ absurd (n (sym h.0.0 ∙ text_eq_sound (op_key op) k same))
  | inr other ↦ rw other (run_cell-other key k ops o n h.1)
]

module _ (u : Unicode) (digest : Bytes → Text) (q : Request) (env : Environment) where
  run_tool-Confined :
      (initial : ToolExecution) (version : ℕ) (w : World Store)
      → Confined initial.idempotency_key w.store
          (run_tool u digest moka q env initial version w).1.store
  unfolding run_tool
  run_tool-Confined initial version w =
      rw (await_task_lem u digest q env initial.idempotency_key version env.join) (
        Confined-trans
          (Confined-mark initial.idempotency_key Mark.running version env.running_at w.store)
          (Confined-mark initial.idempotency_key (join_mark env.join) version env.marked_at
            (mark Mark.running initial.idempotency_key version env.running_at w.store)))

  reconcile-Confined :
      (initial : ToolExecution) (version : ℕ) (r : Result ReconciliationResult) (w : World Store)
      → Confined initial.idempotency_key w.store
          (carry_out u digest moka q env initial
            (reconcile moka q env initial.idempotency_key version r w)).1.store
  unfolding reconcile
  reconcile-Confined initial version (ok (ReconciliationResult.succeeded content)) w =
      Confined-mark initial.idempotency_key _ version env.reconciled_at w.store
  reconcile-Confined initial version (ok (ReconciliationResult.failed reason)) w =
      Confined-mark initial.idempotency_key _ version env.reconciled_at w.store
  reconcile-Confined initial version (ok ReconciliationResult.still_unknown) w =
      Confined-refl initial.idempotency_key w.store
  reconcile-Confined initial version (err x) w = Confined-refl initial.idempotency_key w.store

  reclaim-Confined :
      (initial : ToolExecution) (w : World Store)
      → Confined initial.idempotency_key w.store
          (carry_out u digest moka q env initial (reclaim_unknown moka q env initial w)).1.store
  unfolding reclaim_unknown
  reclaim-Confined initial w =
      Confined-trans
        (Confined-claim env.reclaim_clock (record initial { attempt = u32 (initial.attempt + 1) })
          lease_duration w.store)
        (run_tool-Confined initial _ _)

  after_claim-Confined :
      (initial : ToolExecution) (t : ExecutionState) (c : ExecutionContext) (w : World Store)
      → Confined initial.idempotency_key w.store
          (carry_out u digest moka q env initial
            (after_claim u digest moka q env initial t c w)).1.store
  unfolding after_claim
  after_claim-Confined initial ExecutionState.succeeded c w =
      Confined-refl initial.idempotency_key w.store
  after_claim-Confined initial ExecutionState.running c w =
      Confined-refl initial.idempotency_key w.store
  after_claim-Confined initial ExecutionState.unknown c w =
      elim (Bool-cases
        (is_unsafe (resolve_tool_policy u q.tool_call.name).retry_policy && is_explicit_idem q)) [
          | inl h ↦ rw h (reconcile-Confined initial c.version env.reconciliation w)
          | inr h ↦ rw h (reclaim-Confined initial w)
        ]
  after_claim-Confined initial _ c w = run_tool-Confined initial c.version w

  execute_tool-Confined :
      (w : World Store)
      → Confined (call_key digest q env) w.store (execute_tool u digest moka q env w).1.store
  unfolding execute_tool
  execute_tool-Confined w =
      Confined-trans
        (Confined-claim env.claim_clock (initial_of digest q env) lease_duration w.store)
        (after_claim-Confined (initial_of digest q env) _ _ _)

  -- A call keeps the store well-formed, on every path and however its task ends.
  pub execute_tool-IsWellFormed :
      (w : World Store)
      → StoreIsWellFormed w.store
      → StoreIsWellFormed (execute_tool u digest moka q env w).1.store
  execute_tool-IsWellFormed w h =
      let c = execute_tool-Confined w in
      rw c.history (
        run-IsWellFormed c.ops w.store
          (All-map (OwnOp (call_key digest q env)) KeepsResult c.ops (λ op o. o.1) c.own) h)

  -- A call touches no entry but that of its own key.
  pub lookup-execute_tool :
      (w : World Store) (k : Text)
      → call_key digest q env ≢ k
      → lookup k (execute_tool u digest moka q env w).1.store ≡ lookup k w.store
  lookup-execute_tool w k other =
      let c = execute_tool-Confined w in
      rw (c.history, lookup-run c.ops w.store k)
        (run_cell-other (call_key digest q env) k c.ops (lookup k w.store) other c.own)
