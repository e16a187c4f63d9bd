-- ===== src/Execution/Service/Race.antt =====
-- Two calls on one operation at the same time.
use kryneth_oss.Prelude.{
  ℕ, ◌+◌, ◌≤◌, ◌≡◌, refl, false, none, [], ◌∷◌, ◌++◌, Text, Bytes, lookup, insert,
  lookup-insert_self, Unicode, arith,
}
use kryneth_oss.Execution.{ToolExecution, Request, Readings}
use kryneth_oss.Execution.Store.{Store, create_or_claim, new_entry, is_lease_expired}
use kryneth_oss.Execution.Store.Claims.{claim_fresh}
use kryneth_oss.Execution.Service.{
  moka, Environment, World, TransportCall, execute_tool, lease_duration, call_key, initial_of,
}
use kryneth_oss.Execution.Service.Replay.{execute_tool-claimed}
use kryneth_oss.Execution.Service.Outcome.{calls-run_tool}

lease_held :
    (r : Readings) (x : ToolExecution) (lease now : ℕ)
    → now ≤ r.instant + lease
    → is_lease_expired (new_entry r x lease).context now ≡ false
unfolding new_entry is_lease_expired
lease_held r x lease now h = ground arith

module _ (u : Unicode) (digest : Bytes → Text) where
  -- The world after the first call's claim, before that call has marked the operation running.
  abbrev pub just_claimed : Request → Environment → World Store → World Store
  just_claimed q env w = record w {
    store = (create_or_claim env.claim_clock (initial_of digest q env) lease_duration w.store).1;
  }

  -- If a second call on the same key comes between a first call's claim and its mark that the
  -- operation is running, it calls the tool too, although the lease of the claim holds.
  pub claim_race_calls :
      (q q' : Request) (env env' : Environment) (w : World Store)
      → lookup (call_key digest q env) w.store ≡ none
      → call_key digest q' env' ≡ call_key digest q env
      → env'.claim_clock.checked ≤ env.claim_clock.instant + lease_duration
      → (call : TransportCall) × ((execute_tool u digest moka q' env'
            (just_claimed q env w)).1.calls
          ≡ w.calls ++ call ∷ [])
  unfolding new_entry
  claim_race_calls q q' env env' w h same within =
      let x = initial_of digest q env in
      let fresh = new_entry env.claim_clock x lease_duration in
      let claimed = record w { store = insert (call_key digest q env) fresh w.store } in
      rw
        (
          claim_fresh env.claim_clock x lease_duration w.store h,
          execute_tool-claimed u digest q' env' claimed fresh
              (rw same (lookup-insert_self (call_key digest q env) fresh w.store)) refl
              (lease_held env.claim_clock x lease_duration env'.claim_clock.checked within),
        )
        (calls-run_tool u digest q' env' (initial_of digest q' env') 1 claimed)
