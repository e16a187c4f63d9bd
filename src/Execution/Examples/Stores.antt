-- ===== src/Execution/Examples/Stores.antt =====
-- The theorems about the store, the keys and the policy, at the data of Execution/Examples.antt.
use kryneth_oss.Prelude.{
  ◌≡◌, refl, inl, inr, none, some, List, [], ◌∷◌, arith, codes, lookup, All, as_bytes, NoColon,
  IsAscii,
}
use kryneth_oss.Execution.{ExecutionState, OperationCacheEntry}
use kryneth_oss.Execution.Store.{Store, Mark, mark_write, read}
use kryneth_oss.Execution.Store.History.{Op, claims, marks, run}
use kryneth_oss.Execution.Store.Interleaved.{Write, claim_writes, mark_writes, perform_all}
use kryneth_oss.Execution.Store.Fencing.{
  HasSeen, ReadSince, succeeded_final, late_completion_fenced,
}
use kryneth_oss.Execution.Store.Invariant.{StoreIsWellFormed, run-IsWellFormed}
use kryneth_oss.Execution.Identity.{idempotency_key}
use kryneth_oss.Execution.Identity.Isolation.{idempotency_key-tenant}
use kryneth_oss.Execution.Service.{initial_of, lease_duration}
use kryneth_oss.Execution.Examples.{plain, charge, at, first, key, entry, done, storing, stored}

abbrev history : List Op
history =
    claims (at 20000) (initial_of plain charge first) lease_duration
    ∷ marks Mark.unknown key 7 5
    ∷ []

abbrev done_store : Store
done_store = (storing charge done).store

-- Two tasks that read the entry once it is done, one of them with an old version.
abbrev writes : OperationCacheEntry → List Write
writes e =
    claim_writes (at 20000) (initial_of plain charge first) lease_duration (some e)
    ∷ mark_writes Mark.unknown key 7 5 (some e)
    ∷ mark_writes Mark.running key 2 5 none
    ∷ []

writes-HasSeen : All (HasSeen key done) (writes done)
writes-HasSeen = (
  (λ t. (inr refl, λ e. cc)),
  ((λ t. (inr refl, λ e. ground arith)), ((λ t. (inl refl, λ e. ground arith)), tt)),
)

succeeded_final_example : lookup key (perform_all (writes done) done_store) ≡ some done
succeeded_final_example =
    succeeded_final key (writes done) done_store (stored key done []) refl writes-HasSeen

abbrev failed_store : Store
failed_store = (storing charge (entry ExecutionState.failed)).store

writes-ReadSince : All (ReadSince key 1) (writes (entry ExecutionState.failed))
writes-ReadSince =
    ((λ t b e. ground (arith, e)), ((λ t b e. ground (arith, e)), ((λ t b e. cc), tt)))

late_completion_fenced_example :
    mark_write
      (Mark.succeeded (codes "late") 9)
      key
      0
      30
      (read key (perform_all (writes (entry ExecutionState.failed)) failed_store))
      []
    ≡ []
late_completion_fenced_example =
    late_completion_fenced (Mark.succeeded (codes "late") 9) key 0 30
      (writes (entry ExecutionState.failed)) failed_store [] (entry ExecutionState.failed)
      (stored key (entry ExecutionState.failed) []) (ground arith) writes-ReadSince

nothing-IsWellFormed : StoreIsWellFormed []
unfolding lookup
nothing-IsWellFormed k e h = cc

run-IsWellFormed_example : StoreIsWellFormed (run history [])
run-IsWellFormed_example = run-IsWellFormed history [] (tt, (tt, tt)) nothing-IsWellFormed

charge-NoColon : NoColon (as_bytes charge.tenant_id)
unfolding as_bytes
charge-NoColon = ground arith

idempotency_key-tenant_example : as_bytes charge.tenant_id ≡ as_bytes charge.tenant_id
idempotency_key-tenant_example =
    idempotency_key-tenant plain charge charge (codes "e") (codes "f") (λ a b e. e) charge-NoColon
      charge-NoColon (unfold idempotency_key in refl)

get-IsAscii : IsAscii (codes "Get_x")
get-IsAscii = ground arith
