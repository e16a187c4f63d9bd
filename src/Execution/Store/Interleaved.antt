-- ===== src/Execution/Store/Interleaved.antt =====
-- Histories of the store with the reads and the writes of the operations apart: what happens to the
-- store is a sequence of writes, each with the entry that its operation read at any earlier time, and
-- of expiries, which take an entry away.
use kryneth_oss.Prelude.{
  ℕ, ◌+◌, ◌≡◌, ◌⊎◌, refl, false, Option, none, some, Text, List, [], ◌∷◌, lookup, insert, remove,
  lookup-remove, lookup-insert_ne, ◌&&◌, text_eq, Bool-cases, Option-cases, inl, inr, u64, ◌==◌,
  codes,
}
use kryneth_oss.Execution.{
  ExecutionState, IdempotencyKey, ToolExecution, OperationCacheEntry, Readings,
}
use kryneth_oss.Execution.Store.{
  Store, Mark, claim_write, claim_existing, get_with, new_entry, reclaim, mark_write, marked,
  transition_write, set_state, is_lease_expired, same_state,
}
use kryneth_oss.Execution.Store.History.{version-marked}

pub data Write : Type 0 where
  claim_writes : Readings → ToolExecution → ℕ → Option OperationCacheEntry → Write
  mark_writes : Mark → IdempotencyKey → ℕ → ℕ → Option OperationCacheEntry → Write
  transition_writes :
      IdempotencyKey → ExecutionState → ExecutionState → ℕ → ℕ → Option OperationCacheEntry → Write
  expires : IdempotencyKey → Write

unfoldable pub perform : Write → Store → Store
perform (claim_writes r x lease before) s = (claim_write r x lease before s).1
perform (mark_writes m key version utc before) s = mark_write m key version utc before s
perform (transition_writes key from to version utc before) s =
    transition_write key from to version utc before s
perform (expires key) s = remove key s

unfoldable pub perform_all : List Write → Store → Store
perform_all [] s = s
perform_all (w ∷ ws) s = perform_all ws (perform w s)

abbrev pub write_key : Write → IdempotencyKey
write_key (claim_writes r x lease before) = x.idempotency_key
write_key (mark_writes m key version utc before) = key
write_key (transition_writes key from to version utc before) = key
write_key (expires key) = key

-- What the operation read.
abbrev pub before_of : Write → Option OperationCacheEntry
before_of (claim_writes r x lease before) = before
before_of (mark_writes m key version utc before) = before
before_of (transition_writes key from to version utc before) = before
before_of (expires key) = none

-- What a write does to the store: nothing, or it puts one entry under its own key, of which the
-- version is that of the entry that was read, or one more; or, where nothing was there, a new one.
pub data Effect (w : Write) (s : Store) : Type 0 where
  nothing : perform w s ≡ s → Effect w s
  puts :
      (e b : OperationCacheEntry)
      → perform w s ≡ insert (write_key w) e s
      → before_of w ≡ some b
      → (e.context.version ≡ b.context.version) ⊎ (e.context.version ≡ u64 (b.context.version + 1))
      → Effect w s
  adds :
      (e : OperationCacheEntry)
      → perform w s ≡ insert (write_key w) e s
      → lookup (write_key w) s ≡ none
      → Effect w s
  takes : (key : IdempotencyKey) → w ≡ expires key → Effect w s

claim-Effect :
    (r : Readings) (x : ToolExecution) (lease : ℕ) (b : OperationCacheEntry) (s : Store)
    (t : ExecutionState)
    → b.state ≡ t
    → Effect (claim_writes r x lease (some b)) s
unfolding perform claim_write
claim-Effect r x lease b s ExecutionState.failed h =
    puts (reclaim r lease b.context.error_message b) b
      (rw (h, perform, claim_write, claim_existing) refl) refl (inr refl)
claim-Effect r x lease b s ExecutionState.claimed h =
    elim (Bool-cases (is_lease_expired b.context r.checked)) [
      | inl e ↦
          puts (reclaim r lease (some (codes "Lease expired")) b) b
            (rw (h, e, perform, claim_write, claim_existing) refl) refl (inr refl)
      | inr e ↦ nothing (rw (h, e, perform, claim_write, claim_existing) refl)
    ]
claim-Effect r x lease b s ExecutionState.running h =
    elim (Bool-cases (is_lease_expired b.context r.checked)) [
      | inl e ↦
          puts (reclaim r lease (some (codes "Lease expired")) b) b
            (rw (h, e, perform, claim_write, claim_existing) refl) refl (inr refl)
      | inr e ↦ nothing (rw (h, e, perform, claim_write, claim_existing) refl)
    ]
claim-Effect r x lease b s _ h = nothing (rw (h, perform, claim_write, claim_existing) refl)

pub perform-Effect : (w : Write) (s : Store) → Effect w s
unfolding perform claim_write get_with mark_write transition_write set_state
perform-Effect (claim_writes r x lease none) s = elim (Option-cases (lookup x.idempotency_key s)) [
  | inl e ↦ adds (new_entry r x lease) (rw (perform, claim_write, get_with, e) refl) e
  | inr (b, e) ↦ nothing (rw (perform, claim_write, get_with, e) refl)
]
perform-Effect (claim_writes r x lease (some b)) s = claim-Effect r x lease b s b.state refl
perform-Effect (mark_writes m key version utc none) s = nothing refl
perform-Effect (mark_writes m key version utc (some b)) s =
    elim (Bool-cases (b.context.version == version)) [
      | inl e ↦
          puts (marked m utc b) b (rw (e, perform, mark_write) refl) refl
            (inl (version-marked m utc b))
      | inr e ↦ nothing (rw (e, perform, mark_write) refl)
    ]
perform-Effect (transition_writes key from to version utc none) s = nothing refl
perform-Effect (transition_writes key from to version utc (some b)) s =
    elim (Bool-cases (same_state b.state from && b.context.version == version)) [
      | inl e ↦ puts (set_state to utc b) b (rw (e, perform, transition_write) refl) refl (inl refl)
      | inr e ↦ nothing (rw (e, perform, transition_write) refl)
    ]
perform-Effect (expires key) s = takes key refl

-- A write under another key leaves the entry of `k`.
pub perform-other :
    (w : Write) (s : Store) (k : Text)
    → text_eq (write_key w) k ≡ false
    → lookup k (perform w s) ≡ lookup k s
unfolding perform
perform-other w s k other = elim (perform-Effect w s) [
  | nothing e ↦ rw e refl
  | puts e b p _ _ ↦ rw p (lookup-insert_ne (write_key w) k e s other)
  | adds e p _ ↦ rw p (lookup-insert_ne (write_key w) k e s other)
  | takes key e ↦
      let here : text_eq key k ≡ false = rw e at other in
      rw e (rw (lookup-remove key k s, here) refl)
]
