-- ===== src/Execution/Store/Fencing.antt =====
-- Versions as fencing tokens: what an operation that holds an old version can do, and how versions
-- develop, over any history of `MokaExecutionStore`.
use kryneth_oss.Prelude.{
  ℕ, ◌+◌, ◌≤◌, ◌<◌, ◌≡◌, ◌≢◌, ◌⊎◌, refl, sym, ap, ◌∙◌, true, false, Option, none, some, Text, List,
  [], ◌∷◌, arith, lookup, lookup-insert_self, text_eq, text_eq_iff, length, All, Bool-cases, inl,
  inr,
}
use kryneth_oss.Execution.{ExecutionState, OperationCacheEntry}
use kryneth_oss.Execution.Store.{
  Store, Mark, read, mark, mark_write, claim_write, claim_existing, get_with, transition_write,
}
use kryneth_oss.Execution.Store.History.{
  Op, claims, marks, transitions, op_key, run, Cell, op_entry, cell, run_cell, lookup-run,
}
use kryneth_oss.Execution.Store.Interleaved.{
  Write, claim_writes, mark_writes, transition_writes, expires, perform, perform_all, write_key,
  before_of, nothing, puts, adds, takes, perform-Effect, perform-other,
}

-- The version that the caller of an operation holds; a claim holds none.
abbrev pub write_version : Write → Option ℕ
write_version (mark_writes m key version utc before) = some version
write_version (transition_writes key from to version utc before) = some version
write_version _ = none

-- A write that is not an expiry of `k`, and at `k` is by an operation that does not hold the version
-- of `e` and read, if anything, `e`.
abbrev pub HasSeen : Text → OperationCacheEntry → Write → Type 0
HasSeen k e (expires key) = text_eq key k ≡ false
HasSeen k e w =
    (text_eq (write_key w) k ≡ true)
    → ((before_of w ≡ none) ⊎ (before_of w ≡ some e)) × (write_version w ≢ some e.context.version)

-- Under its own key such a write changes nothing, once the operation has succeeded.
succeeded_stays :
    (k : Text) (w : Write) (s : Store) (e : OperationCacheEntry)
    → lookup k s ≡ some e
    → e.state ≡ ExecutionState.succeeded
    → HasSeen k e w
    → text_eq (write_key w) k ≡ true
    → perform w s ≡ s
unfolding perform claim_write mark_write transition_write get_with
succeeded_stays k (claim_writes r x lease before) s e found h seen same =
    let at_key : lookup x.idempotency_key s ≡ some e =
      ground (arith, text_eq_iff x.idempotency_key k) in
    elim (seen same).0 [
      | inl n ↦ rw (n, perform, claim_write, get_with, at_key) refl
      | inr b ↦ rw (b, perform, claim_write, h, claim_existing) refl
    ]
succeeded_stays k (mark_writes m key version utc before) s e found h seen same =
    elim (seen same).0 [
      | inl n ↦ rw (n, perform, mark_write) refl
      | inr b ↦ rw (b, perform, mark_write) (ground (arith, (seen same).1))
    ]
succeeded_stays k (transition_writes key from to version utc before) s e found h seen same =
    elim (seen same).0 [
      | inl n ↦ rw (n, perform, transition_write) refl
      | inr b ↦ rw (b, perform, transition_write) (ground (arith, (seen same).1))
    ]
succeeded_stays k (expires key) s e found h seen same = cc

-- A succeeded entry stays exactly as it is, whatever claims, marks and transitions other tasks make
-- and however their reads and writes fall between each other, as long as it does not expire, no
-- operation on it comes from a holder of the very version under which it succeeded, and none writes
-- over it that read an earlier entry.
pub succeeded_final :
    (k : Text) (ws : List Write) (s : Store) {e : OperationCacheEntry}
    → lookup k s ≡ some e
    → e.state ≡ ExecutionState.succeeded
    → All (HasSeen k e) ws
    → lookup k (perform_all ws s) ≡ some e
unfolding perform_all
succeeded_final k [] s found h n = found
succeeded_final k (w ∷ ws) s {e} found h n = elim (Bool-cases (text_eq (write_key w) k)) [
  | inl same ↦ rw (succeeded_stays k w s e found h n.0 same) (succeeded_final k ws s found h n.1)
  | inr other ↦ succeeded_final k ws (perform w s) (perform-other w s k other ∙ found) h n.1
]

version-op_entry :
    (op : Op) (e : OperationCacheEntry)
    → e.context.version + 1 < 18446744073709551616
    → (e.context.version ≤ (op_entry op e).context.version)
      × ((op_entry op e).context.version ≤ e.context.version + 1)
unfolding op_entry
version-op_entry (claims r x lease) e h = ground arith
version-op_entry (marks Mark.running key version utc) e h = ground arith
version-op_entry (marks (Mark.succeeded c l) key version utc) e h = ground arith
version-op_entry (marks (Mark.failed c) key version utc) e h = ground arith
version-op_entry (marks Mark.unknown key version utc) e h = ground arith
version-op_entry (transitions key from to version utc) e h = ground arith

abbrev Advanced : ℕ → ℕ → Cell → Type 0
Advanced low high o =
    (e : OperationCacheEntry) × (o ≡ some e)
    × (low ≤ e.context.version)
    × (e.context.version ≤ high)

run_cell-Advanced :
    (k : Text) (ops : List Op) (e : OperationCacheEntry)
    → e.context.version + length ops < 18446744073709551616
    → Advanced e.context.version (e.context.version + length ops) (run_cell k ops (some e))
unfolding run_cell cell
run_cell-Advanced k [] e h = (e, refl, omega arith, omega arith)
run_cell-Advanced k (op ∷ ops) e h = elim (Bool-cases (text_eq (op_key op) k)) [
  | inl same ↦
      let step = version-op_entry op e (omega arith) in
      let (e', found, low, high) = run_cell-Advanced k ops (op_entry op e) (omega arith) in
      rw same (e', found, omega arith, omega arith)
  | inr other ↦
      let (e', found, low, high) = run_cell-Advanced k ops e (omega arith) in
      rw other (e', found, omega arith, omega arith)
]

-- Over any history the entry of a key stays, and its version never decreases and grows by at most
-- one for each operation, as long as it is that far below the end of `u64`.
pub version_monotone :
    (k : Text) (ops : List Op) (s : Store) (e : OperationCacheEntry)
    → lookup k s ≡ some e
    → e.context.version + length ops < 18446744073709551616
    → (e' : OperationCacheEntry) × (lookup k (run ops s) ≡ some e')
      × (e.context.version ≤ e'.context.version)
      × (e'.context.version ≤ e.context.version + length ops)
version_monotone k ops s e found h = rw (lookup-run ops s k, found) (run_cell-Advanced k ops e h)

-- A mark by a caller whose version is not the entry's changes nothing in the store.
pub mark_stale :
    (m : Mark) (k : Text) (v utc : ℕ) (s : Store) (e : OperationCacheEntry)
    → lookup k s ≡ some e
    → v ≢ e.context.version
    → mark m k v utc s ≡ s
unfolding mark
mark_stale m k v utc s e found h = rw (found, mark_write) (ground arith)

-- The entry at `k` has at least the version `v`.
abbrev HasVersion : Text → ℕ → Store → Type 0
HasVersion k v s = (e : OperationCacheEntry) × (lookup k s ≡ some e) × (v ≤ e.context.version)

-- A write that is not an expiry of `k`, and at `k` is by an operation that read nothing or an entry
-- of version `v` at least, which is not the last `u64`.
abbrev pub ReadSince : Text → ℕ → Write → Type 0
ReadSince k v (expires key) = text_eq key k ≡ false
ReadSince k v w =
    (text_eq (write_key w) k ≡ true)
    → (b : OperationCacheEntry) → before_of w ≡ some b
    → (v ≤ b.context.version) × (b.context.version + 1 < 18446744073709551616)

since_key :
    (k : Text) (v : ℕ) (w : Write) (b : OperationCacheEntry)
    → ReadSince k v w
    → text_eq (write_key w) k ≡ true
    → before_of w ≡ some b
    → (v ≤ b.context.version) × (b.context.version + 1 < 18446744073709551616)
since_key k v (claim_writes r x lease before) b h t e = h t b e
since_key k v (mark_writes m key version utc before) b h t e = h t b e
since_key k v (transition_writes key from to version utc before) b h t e = h t b e
since_key k v (expires key) b h t e = cc

version_kept :
    (k : Text) (v : ℕ) (w : Write) (s : Store)
    → ReadSince k v w
    → HasVersion k v s
    → HasVersion k v (perform w s)
version_kept k v w s since (e, found, high) = elim (Bool-cases (text_eq (write_key w) k)) [
  | inr other ↦ (e, perform-other w s k other ∙ found, high)
  | inl same ↦
      let at_key : write_key w ≡ k = (text_eq_iff (write_key w) k).0 same in
      elim (perform-Effect w s) [
        | nothing p ↦ rw p (e, found, high)
        | puts e' b p read_b version ↦
            let (low, top) = since_key k v w b since same read_b in
            rw (p, at_key) (e', lookup-insert_self k e' s, ground (arith, version, low, top))
        | adds e' p missing ↦
            let stop : none ≡ some e = sym missing ∙ (ap (λ j. lookup j s) at_key ∙ found) in cc
        | takes key p ↦
            let here : text_eq key k ≡ true = rw p at same in
            let gone : text_eq key k ≡ false = rw p at since in cc
      ]
]

versions_kept :
    (k : Text) (v : ℕ) (ws : List Write) (s : Store)
    → All (ReadSince k v) ws
    → HasVersion k v s
    → HasVersion k v (perform_all ws s)
unfolding perform_all
versions_kept k v [] s n h = h
versions_kept k v (w ∷ ws) s n h =
    versions_kept k v ws (perform w s) n.1 (version_kept k v w s n.0 h)

-- A mark under an old version is lost, however its read and its write fall among those of other
-- tasks: once the entry has reached a version above the mark's, a mark that reads the store then, or
-- after any further writes, changes nothing in whatever store it finds when it writes, as long as
-- the entry does not expire and none of those writes is by an operation that read an entry of an
-- earlier version. The versions that the operations read are below the last `u64`.
pub late_completion_fenced :
    (m : Mark) (k : Text) (v utc : ℕ) (ws : List Write) (s s' : Store) (e : OperationCacheEntry)
    → lookup k s ≡ some e
    → v < e.context.version
    → All (ReadSince k (v + 1)) ws
    → mark_write m k v utc (read k (perform_all ws s)) s' ≡ s'
unfolding mark_write
late_completion_fenced m k v utc ws s s' e found old since =
    let (e', now, high) = versions_kept k (v + 1) ws s since (e, found, omega arith) in
    rw (now, mark_write) (ground arith)
