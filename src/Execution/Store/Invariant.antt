-- ===== src/Execution/Store/Invariant.antt =====
-- What holds of every entry of `MokaExecutionStore` between two operations.
use kryneth_oss.Prelude.{
  ◌≡◌, ◌≢◌, refl, true, none, some, Text, List, [], ◌∷◌, arith, lookup, text_eq, text_eq_iff, All,
  Bool-cases, inl, inr,
}
use kryneth_oss.Execution.{ExecutionState, OperationCacheEntry}
use kryneth_oss.Execution.Store.{Store, Mark, new_entry}
use kryneth_oss.Execution.Store.History.{
  Op, claims, marks, transitions, op_key, run, Cell, op_entry, cell, run_cell, lookup-run,
}

-- An entry of key `k`: it stands under its own key, its two copies of the state agree, and a
-- succeeded operation has its result and latency to be replayed.
pub record IsWellFormed (k : Text) (e : OperationCacheEntry) : Type 0 where
  pub keyed : e.execution.idempotency_key ≡ k
  pub agrees : e.execution.state ≡ e.state
  pub replayable :
      e.state ≡ ExecutionState.succeeded
      → (e.context.result_content ≢ none) × (e.context.latency_ms ≢ none)

abbrev pub CellIsWellFormed : Text → Cell → Type 0
CellIsWellFormed k o = (e : OperationCacheEntry) → o ≡ some e → IsWellFormed k e

abbrev pub StoreIsWellFormed : Store → Type 0
StoreIsWellFormed s = (k : Text) → CellIsWellFormed k (lookup k s)

-- `transition` to `Succeeded` gives no result; the program never asks for it.
abbrev pub KeepsResult : Op → Type 0
KeepsResult (transitions key from to version utc) = to ≢ ExecutionState.succeeded
KeepsResult _ = Unit

op_entry-IsWellFormed :
    (k : Text) (op : Op) (e : OperationCacheEntry)
    → KeepsResult op
    → IsWellFormed k e
    → IsWellFormed k (op_entry op e)
unfolding op_entry
op_entry-IsWellFormed k (claims r x lease) e n h = ground arith
op_entry-IsWellFormed k (marks Mark.running key version utc) e n h = ground arith
op_entry-IsWellFormed k (marks (Mark.succeeded c l) key version utc) e n h = ground arith
op_entry-IsWellFormed k (marks (Mark.failed c) key version utc) e n h = ground arith
op_entry-IsWellFormed k (marks Mark.unknown key version utc) e n h = ground arith
op_entry-IsWellFormed k (transitions key from to version utc) e n h = ground (arith, n)

cell-IsWellFormed :
    (k : Text) (op : Op) (o : Cell)
    → text_eq (op_key op) k ≡ true
    → KeepsResult op
    → CellIsWellFormed k o
    → CellIsWellFormed k (cell op o)
unfolding cell new_entry
cell-IsWellFormed k (claims r x lease) none t n h e p =
    ground (arith, text_eq_iff x.idempotency_key k)
cell-IsWellFormed k (marks m key version utc) none t n h e p = cc
cell-IsWellFormed k (transitions key from to version utc) none t n h e p = cc
cell-IsWellFormed k op (some e0) t n h e p =
    ground (arith, op_entry-IsWellFormed k op e0 n (h e0 refl))

run_cell-IsWellFormed :
    (k : Text) (ops : List Op) (o : Cell)
    → All KeepsResult ops
    → CellIsWellFormed k o
    → CellIsWellFormed k (run_cell k ops o)
unfolding run_cell
run_cell-IsWellFormed k [] o n h = h
run_cell-IsWellFormed k (op ∷ ops) o n h = elim (Bool-cases (text_eq (op_key op) k)) [
  | inl same ↦
      rw same (run_cell-IsWellFormed k ops (cell op o) n.1 (cell-IsWellFormed k op o same n.0 h))
  | inr other ↦ rw other (run_cell-IsWellFormed k ops o n.1 h)
]

-- Every history of claims, marks and transitions, of which none forces the state Succeeded, keeps
-- every entry under its own key, its two states equal, and its result replayable.
pub run-IsWellFormed :
    (ops : List Op) (s : Store)
    → All KeepsResult ops
    → StoreIsWellFormed s
    → StoreIsWellFormed (run ops s)
run-IsWellFormed ops s n h k =
    rw (lookup-run ops s k) (run_cell-IsWellFormed k ops (lookup k s) n (h k))
