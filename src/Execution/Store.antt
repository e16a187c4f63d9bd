-- ===== src/Execution/Store.antt =====
-- `MokaExecutionStore` of src/infrastructure/oss_adapters.rs. Each operation of the source reads the
-- cache and then writes it in a second step, with other tasks free to run in between; `read` is the
-- first step and the `…_write` function the second, over what the first returned.
-- Expiry (five minutes) and eviction (ten megabytes) take an entry away: a step of the histories of
-- Interleaved.
pub mod History
pub mod Invariant
pub mod Interleaved
pub mod Fencing
pub mod Claims
use kryneth_oss.Prelude.{
  ℕ, ◌+◌, Bool, true, false, ◌&&◌, Option, none, some, Text, codes, Map, lookup, insert, List, [],
  ◌∷◌, ltb, ◌==◌, if◌then◌else◌, not, u32, u64,
}
use kryneth_oss.Execution.{
  ExecutionState, IdempotencyKey, ToolExecution, ExecutionContext, OperationCacheEntry, Readings,
}

abbrev pub Store : Type 0
Store = Map OperationCacheEntry

-- `self.cache.get(&key).await`
abbrev pub read : IdempotencyKey → Store → Option OperationCacheEntry
read = lookup

-- `existing.context.lease_until.map(|t| Instant::now() > t).unwrap_or(true)`
unfoldable pub is_lease_expired : ExecutionContext → ℕ → Bool
is_lease_expired c now = elim c.lease_until [ none ↦ true | some t ↦ ltb t now ]

abbrev pub Claim : Type 0
Claim = ExecutionState × ExecutionContext

-- `Ok((existing.state, existing.context))`
abbrev pub seen : OperationCacheEntry → Claim
seen e = (e.state, e.context)

-- The entry of a claim that takes an existing operation over, with the error message that it keeps.
unfoldable pub reclaim : Readings → ℕ → Option Text → OperationCacheEntry → OperationCacheEntry
reclaim r lease message e = record e {
  state = ExecutionState.claimed;
  context = record context {
    version = u64 (context.version + 1);
    lease_until = some (r.instant + lease);
    error_message = message;
  };
  execution = record execution {
    attempt = u32 (execution.attempt + 1);
    state = ExecutionState.claimed;
    updated_at = r.utc;
  };
}
  where
    open e use {context, execution}

-- The entry of a first claim.
unfoldable pub new_entry : Readings → ToolExecution → ℕ → OperationCacheEntry
new_entry r execution lease = record {
  state = ExecutionState.claimed;
  context = record {
    result_content = none;
    latency_ms = none;
    error_message = none;
    lease_until = some (r.instant + lease);
    version = 1;
  };
  execution = record execution {
    state = ExecutionState.claimed;
    created_at = r.utc;
    updated_at = r.utc;
  };
}

-- `self.cache.insert(key, existing.clone())` and its result.
abbrev take_over : IdempotencyKey → OperationCacheEntry → Store → Claim × Store
take_over key e s = (seen e, insert key e s)

-- The `match existing.state`.
claim_existing :
    ExecutionState → Readings → IdempotencyKey → ℕ → OperationCacheEntry → Store → Claim × Store
unfolding is_lease_expired reclaim
claim_existing ExecutionState.claimed r key lease e s =
    if is_lease_expired e.context r.checked
    then take_over key (reclaim r lease (some (codes "Lease expired")) e) s
    else (seen e, s)
claim_existing ExecutionState.running r key lease e s =
    if is_lease_expired e.context r.checked
    then take_over key (reclaim r lease (some (codes "Lease expired")) e) s
    else (seen e, s)
claim_existing ExecutionState.failed r key lease e s =
    take_over key (reclaim r lease e.context.error_message e) s
claim_existing _ r key lease e s = (seen e, s)

-- `self.cache.get_with(key, async { new_entry })`: an entry that is there by now is returned.
get_with : IdempotencyKey → OperationCacheEntry → Store → Claim × Store
get_with key fresh s = elim (lookup key s) [
  | some e ↦ (seen e, s)
  | none ↦ (seen fresh, insert key fresh s)
]

unfoldable pub claim_write :
    Readings → ToolExecution → ℕ → Option OperationCacheEntry → Store → Claim × Store
unfolding claim_existing get_with new_entry
claim_write r execution lease none s =
    get_with execution.idempotency_key (new_entry r execution lease) s
claim_write r execution lease (some e) s =
    claim_existing e.state r execution.idempotency_key lease e s

-- Both steps of a claim, where no other task comes in between; Interleaved has the other cases.
unfoldable pub create_or_claim : Readings → ToolExecution → ℕ → Store → Claim × Store
unfolding claim_write
create_or_claim r execution lease s =
    claim_write r execution lease (read execution.idempotency_key s) s

-- What a `mark_…` call writes over the entry that it read.
pub data Mark : Type 0 where
  running : Mark
  succeeded : Text → ℕ → Mark
  failed : Text → Mark
  unknown : Mark

unfoldable pub set_state : ExecutionState → ℕ → OperationCacheEntry → OperationCacheEntry
set_state t utc e = record e {
  state = t;
  execution = record execution { state = t; updated_at = utc };
}
  where
    open e use {execution}

unfoldable pub marked : Mark → ℕ → OperationCacheEntry → OperationCacheEntry
unfolding set_state
marked Mark.running utc e = set_state ExecutionState.running utc e
marked (Mark.succeeded content latency_ms) utc e =
    set_state ExecutionState.succeeded utc (record e {
      context = record context { result_content = some content; latency_ms = some latency_ms };
    })
  where
    open e use {context}
marked (Mark.failed reason) utc e =
    set_state ExecutionState.failed utc
      (record e { context = record context { error_message = some reason } })
  where
    open e use {context}
marked Mark.unknown utc e = set_state ExecutionState.unknown utc e

-- The second step of `mark_running`, `mark_succeeded`, `mark_failed` and `mark_unknown`.
unfoldable pub mark_write :
    Mark → IdempotencyKey → ℕ → ℕ → Option OperationCacheEntry → Store → Store
unfolding marked
mark_write m key version utc none s = s
mark_write m key version utc (some e) s =
    if e.context.version == version then insert key (marked m utc e) s else s

-- Both steps, where no other task comes in between.
unfoldable pub mark : Mark → IdempotencyKey → ℕ → ℕ → Store → Store
unfolding mark_write
mark m key version utc s = mark_write m key version utc (read key s) s

abbrev pub mark_running : IdempotencyKey → ℕ → ℕ → Store → Store
mark_running = mark Mark.running

abbrev pub mark_succeeded : IdempotencyKey → ℕ → Text → ℕ → ℕ → Store → Store
mark_succeeded key version content latency_ms = mark (Mark.succeeded content latency_ms) key version

abbrev pub mark_failed : IdempotencyKey → ℕ → Text → ℕ → Store → Store
mark_failed key version reason = mark (Mark.failed reason) key version

abbrev pub mark_unknown : IdempotencyKey → ℕ → ℕ → Store → Store
mark_unknown = mark Mark.unknown

-- `==` of two states.
unfoldable pub same_state : ExecutionState → ExecutionState → Bool
same_state ExecutionState.pending ExecutionState.pending = true
same_state ExecutionState.claimed ExecutionState.claimed = true
same_state ExecutionState.running ExecutionState.running = true
same_state ExecutionState.succeeded ExecutionState.succeeded = true
same_state ExecutionState.failed ExecutionState.failed = true
same_state ExecutionState.unknown ExecutionState.unknown = true
same_state ExecutionState.reconciling ExecutionState.reconciling = true
same_state _ _ = false

-- The second step of `transition`.
unfoldable pub transition_write :
    IdempotencyKey
    → ExecutionState
    → ExecutionState
    → ℕ
    → ℕ
    → Option OperationCacheEntry
    → Store
    → Store
unfolding same_state set_state
transition_write key from to version utc none s = s
transition_write key from to version utc (some e) s =
    if same_state e.state from && e.context.version == version
    then insert key (set_state to utc e) s
    else s

-- Both steps, where no other task comes in between.
unfoldable pub transition : IdempotencyKey → ExecutionState → ExecutionState → ℕ → ℕ → Store → Store
unfolding transition_write
transition key from to version utc s = transition_write key from to version utc (read key s) s
