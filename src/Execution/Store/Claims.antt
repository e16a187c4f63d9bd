-- ===== src/Execution/Store/Claims.antt =====
-- What `create_or_claim` grants, and to how many callers.
use kryneth_oss.Prelude.{
  Bool-cases, ℕ, ◌+◌, ◌≤◌, ◌<◌, ◌≡◌, ◌≢◌, ◌↔◌, ◌⊎◌, refl, true, none, some, Text, arith, lookup,
  insert, lookup-insert_self, inl, inr,
}
use kryneth_oss.Execution.{ExecutionState, ToolExecution, OperationCacheEntry, Readings}
use kryneth_oss.Execution.Store.{
  Store, read, create_or_claim, claim_write, claim_existing, get_with, new_entry, is_lease_expired,
  seen,
}

-- When an existing operation may be taken over: it failed, or its holder's lease has run out.
abbrev pub IsFree : OperationCacheEntry → ℕ → Type 0
IsFree e now =
    (e.state ≡ ExecutionState.failed)
    ⊎ (((e.state ≡ ExecutionState.claimed) ⊎ (e.state ≡ ExecutionState.running))
        × (is_lease_expired e.context now ≡ true))

module _ (r : Readings) (key : Text) (lease : ℕ) (s : Store) where
  claim_existing_version :
      (t : ExecutionState) (e : OperationCacheEntry)
      → e.state ≡ t
      → e.context.version < 18446744073709551616
      → ((claim_existing t r key lease e s).0.1.version ≢ e.context.version) ↔ IsFree e r.checked
  unfolding claim_existing
  claim_existing_version ExecutionState.failed e h b = (λ n. inl h, λ f q. omega arith)
  claim_existing_version _ e h b = (λ n. ground (arith, n), λ f q. ground arith)

  claim_existing_refused :
      (t : ExecutionState) (e : OperationCacheEntry)
      → e.state ≡ t
      → ¬ (IsFree e r.checked)
      → claim_existing t r key lease e s ≡ (seen e, s)
  unfolding claim_existing
  claim_existing_refused ExecutionState.failed e h n = absurd (n (inl h))
  claim_existing_refused ExecutionState.claimed e h n =
      elim (Bool-cases (is_lease_expired e.context r.checked)) [
        | inl late ↦ absurd (n (inr (inl h, late)))
        | inr held ↦ ground arith
      ]
  claim_existing_refused ExecutionState.running e h n =
      elim (Bool-cases (is_lease_expired e.context r.checked)) [
        | inl late ↦ absurd (n (inr (inr h, late)))
        | inr held ↦ ground arith
      ]
  claim_existing_refused _ e h n = refl

module _ (r : Readings) (x : ToolExecution) (lease : ℕ) (s : Store) where
  -- A claim of an existing operation, whose version is a `u64`, is given a new version exactly when
  -- the operation failed, or is claimed or running with an expired lease.
  pub claim_version_iff :
      (e : OperationCacheEntry)
      → lookup x.idempotency_key s ≡ some e
      → e.context.version < 18446744073709551616
      → ((create_or_claim r x lease s).0.1.version ≢ e.context.version) ↔ IsFree e r.checked
  unfolding create_or_claim
  claim_version_iff e found b =
      rw (found, claim_write) (claim_existing_version r x.idempotency_key lease s e.state e refl b)

  -- Any other claim of an existing operation is answered with its state and context, and changes
  -- nothing in the store.
  pub claim_refused :
      (e : OperationCacheEntry)
      → lookup x.idempotency_key s ≡ some e
      → ¬ (IsFree e r.checked)
      → create_or_claim r x lease s ≡ (seen e, s)
  unfolding create_or_claim
  claim_refused e found n =
      rw (found, claim_write) (claim_existing_refused r x.idempotency_key lease s e.state e refl n)

  pub claim_fresh :
      lookup x.idempotency_key s ≡ none
      → create_or_claim r x lease s
        ≡ (seen (new_entry r x lease), insert x.idempotency_key (new_entry r x lease) s)
  unfolding create_or_claim
  claim_fresh h = rw (h, claim_write) (rw (h, get_with))

new_entry_held :
    (r : Readings) (x : ToolExecution) (lease now : ℕ)
    → now ≤ r.instant + lease
    → ¬ (IsFree (new_entry r x lease) now)
unfolding new_entry is_lease_expired
new_entry_held r x lease now h (inl f) = cc
new_entry_held r x lease now h (inr f) = ground (arith, f.1)

-- A claim is not exclusive: on a key with no entry, every further claim within the lease is given
-- the very state and version that the first was given, and the store stays as it is.
pub claim_not_exclusive :
    (r r' : Readings) (x y : ToolExecution) (lease lease' : ℕ) (s : Store)
    → lookup x.idempotency_key s ≡ none
    → y.idempotency_key ≡ x.idempotency_key
    → r'.checked ≤ r.instant + lease
    → create_or_claim r' y lease' (create_or_claim r x lease s).1 ≡ create_or_claim r x lease s
claim_not_exclusive r r' x y lease lease' s h same within = rw (claim_fresh r x lease s h) (
    claim_refused r' y lease' (insert x.idempotency_key (new_entry r x lease) s)
      (new_entry r x lease) (rw same (lookup-insert_self x.idempotency_key (new_entry r x lease) s))
      (new_entry_held r x lease r'.checked within))

-- Two claims of one key that both read a failed entry before either writes are both told that they
-- hold the operation, with the same version.
pub interleaved_claims_share_version :
    (r r' : Readings) (x y : ToolExecution) (lease lease' : ℕ) (s : Store) (e : OperationCacheEntry)
    → lookup x.idempotency_key s ≡ some e
    → y.idempotency_key ≡ x.idempotency_key
    → e.state ≡ ExecutionState.failed
    → let seen_by_both = read x.idempotency_key s in
      let (first, s') = claim_write r x lease seen_by_both s in
      let (second, s'') = claim_write r' y lease' seen_by_both s' in
      (first.0 ≡ ExecutionState.claimed)
      × (second.0 ≡ ExecutionState.claimed)
      × (second.1.version ≡ first.1.version)
unfolding claim_write
interleaved_claims_share_version r r' x y lease lease' s e found same failed =
    rw (found, claim_write) (rw (failed, claim_existing) (refl, refl, refl))
