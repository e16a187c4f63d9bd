-- ===== src/Execution/Store/History.antt =====
-- Histories of the execution store in which an operation's read and write stand together, and the
-- view of one key's cell, which each operation changes by itself.
use kryneth_oss.Prelude.{
  ℕ, ◌≡◌, refl, ◌&&◌, Option, none, some, Text, List, [], ◌∷◌, arith, lookup, text_eq, text_eq_iff,
  text_eq_refl, lookup-insert, ◌==◌, ==_iff, if◌then◌else◌, codes, Option-cases, inl, inr,
}
use kryneth_oss.Execution.{
  ExecutionState, IdempotencyKey, ToolExecution, OperationCacheEntry, Readings,
}
use kryneth_oss.Execution.Store.{
  Store, Mark, create_or_claim, mark, transition, reclaim, new_entry, marked, set_state, same_state,
  is_lease_expired, claim_existing, claim_write, mark_write, transition_write,
}

pub data Op : Type 0 where
  claims : Readings → ToolExecution → ℕ → Op
  marks : Mark → IdempotencyKey → ℕ → ℕ → Op
  transitions : IdempotencyKey → ExecutionState → ExecutionState → ℕ → ℕ → Op

abbrev pub op_key : Op → IdempotencyKey
op_key (claims r x lease) = x.idempotency_key
op_key (marks m key version utc) = key
op_key (transitions key from to version utc) = key

unfoldable pub apply : Op → Store → Store
apply (claims r x lease) s = (create_or_claim r x lease s).1
apply (marks m key version utc) s = mark m key version utc s
apply (transitions key from to version utc) s = transition key from to version utc s

unfoldable pub run : List Op → Store → Store
run [] s = s
run (op ∷ ops) s = run ops (apply op s)

abbrev pub Cell : Type 0
Cell = Option OperationCacheEntry

-- A claim of an existing operation, as a function of its entry alone.
unfoldable pub claim_entry :
    ExecutionState → Readings → ℕ → OperationCacheEntry → OperationCacheEntry
unfolding is_lease_expired reclaim
claim_entry ExecutionState.claimed r lease e =
    if is_lease_expired e.context r.checked
    then reclaim r lease (some (codes "Lease expired")) e
    else e
claim_entry ExecutionState.running r lease e =
    if is_lease_expired e.context r.checked
    then reclaim r lease (some (codes "Lease expired")) e
    else e
claim_entry ExecutionState.failed r lease e = reclaim r lease e.context.error_message e
claim_entry _ r lease e = e

unfoldable pub op_entry : Op → OperationCacheEntry → OperationCacheEntry
unfolding claim_entry marked same_state set_state
op_entry (claims r x lease) e = claim_entry e.state r lease e
op_entry (marks m key version utc) e = if e.context.version == version then marked m utc e else e
op_entry (transitions key from to version utc) e =
    if same_state e.state from && e.context.version == version then set_state to utc e else e

unfoldable pub cell : Op → Cell → Cell
unfolding op_entry new_entry
cell (claims r x lease) none = some (new_entry r x lease)
cell _ none = none
cell op (some e) = some (op_entry op e)

unfoldable pub run_cell : Text → List Op → Cell → Cell
run_cell k [] o = o
run_cell k (op ∷ ops) o = run_cell k ops (if text_eq (op_key op) k then cell op o else o)

abbrev here : Text → Text → OperationCacheEntry → Cell → Cell
here key k e o = if text_eq key k then some e else o

module _ (r : Readings) (key : IdempotencyKey) (lease : ℕ) (e : OperationCacheEntry) where
  claim_existing-cell :
      (t : ExecutionState) (s : Store) (k : Text)
      → lookup key s ≡ some e
      → lookup k (claim_existing t r key lease e s).1
        ≡ here key k (claim_entry t r lease e) (lookup k s)
  unfolding claim_existing claim_entry
  claim_existing-cell ExecutionState.failed s k h = lookup-insert key k _ s
  claim_existing-cell ExecutionState.claimed s k h = ground (
    arith,
    text_eq_iff key k,
    lookup-insert key k (reclaim r lease (some (codes "Lease expired")) e) s,
  )
  claim_existing-cell ExecutionState.running s k h = ground (
    arith,
    text_eq_iff key k,
    lookup-insert key k (reclaim r lease (some (codes "Lease expired")) e) s,
  )
  claim_existing-cell _ s k h = ground (arith, text_eq_iff key k)

module _ (s : Store) (k : Text) where
  claim-cell :
      (r : Readings) (x : ToolExecution) (lease : ℕ)
      → lookup k (create_or_claim r x lease s).1
        ≡ (if text_eq x.idempotency_key k then cell (claims r x lease) (lookup k s) else lookup k s)
  unfolding create_or_claim cell
  claim-cell r x lease = elim (Option-cases (lookup x.idempotency_key s)) [
    | inl h ↦
        rw (h, claim_write)
          (ground (
            arith,
            h,
            text_eq_iff x.idempotency_key k,
            lookup-insert x.idempotency_key k (new_entry r x lease) s,
          ))
    | inr (e, h) ↦
        rw (h, claim_write)
          (ground (
            arith,
            h,
            text_eq_iff x.idempotency_key k,
            claim_existing-cell r x.idempotency_key lease e e.state s k h,
          ))
  ]

  mark-cell :
      (m : Mark) (key : IdempotencyKey) (version utc : ℕ)
      → lookup k (mark m key version utc s)
        ≡ (if text_eq key k then cell (marks m key version utc) (lookup k s) else lookup k s)
  unfolding mark cell
  mark-cell m key version utc = elim (Option-cases (lookup key s)) [
    | inl h ↦ rw (h, mark_write) (ground (arith, h, text_eq_iff key k))
    | inr (e, h) ↦
        rw (h, mark_write)
          (ground (arith, h, text_eq_iff key k, lookup-insert key k (marked m utc e) s))
  ]

  transition-cell :
      (key : IdempotencyKey) (from to : ExecutionState) (version utc : ℕ)
      → lookup k (transition key from to version utc s) ≡ (
          if text_eq key k
          then cell (transitions key from to version utc) (lookup k s)
          else lookup k s)
  unfolding transition cell
  transition-cell key from to version utc = elim (Option-cases (lookup key s)) [
    | inl h ↦ rw (h, transition_write) (ground (arith, h, text_eq_iff key k))
    | inr (e, h) ↦
        rw (h, transition_write)
          (ground (arith, h, text_eq_iff key k, lookup-insert key k (set_state to utc e) s))
  ]

-- Each operation changes the cell of its own key, as `cell` says, and no other.
pub lookup-apply :
    (op : Op) (s : Store) (k : Text)
    → lookup k (apply op s) ≡ (if text_eq (op_key op) k then cell op (lookup k s) else lookup k s)
unfolding apply
lookup-apply (claims r x lease) s k = claim-cell s k r x lease
lookup-apply (marks m key version utc) s k = mark-cell s k m key version utc
lookup-apply (transitions key from to version utc) s k = transition-cell s k key from to version utc

-- After any history the store holds, at each key, the cell that the history alone computes.
pub lookup-run :
    (ops : List Op) (s : Store) (k : Text) → lookup k (run ops s) ≡ run_cell k ops (lookup k s)
unfolding run run_cell
lookup-run [] s k = refl
lookup-run (op ∷ ops) s k = rw (← lookup-apply op s k) (lookup-run ops (apply op s) k)

-- A mark under the entry's own version is written.
pub mark_current :
    (m : Mark) (key : IdempotencyKey) (version utc : ℕ) (s : Store) (e : OperationCacheEntry)
    → lookup key s ≡ some e
    → e.context.version ≡ version
    → lookup key (mark m key version utc s) ≡ some (marked m utc e)
unfolding cell
mark_current m key version utc s e found same =
    rw (mark-cell s key m key version utc, text_eq_refl key, found)
      (ground (arith, ==_iff e.context.version version))

pub version-marked :
    (m : Mark) (utc : ℕ) (e : OperationCacheEntry)
    → (marked m utc e).context.version ≡ e.context.version
unfolding marked
version-marked Mark.running utc e = refl
version-marked (Mark.succeeded content latency_ms) utc e = refl
version-marked (Mark.failed reason) utc e = refl
version-marked Mark.unknown utc e = refl
