-- ===== src/Execution/Examples.antt =====
-- One payment operation, and the stores and worlds at which the theorems about executions are
-- applied.
mod Stores
mod Calls
use kryneth_oss.Prelude.{
  ℕ, ◌+◌, ◌≡◌, refl, Bool, true, false, Option, none, some, List, [], ◌∷◌, map, Text, Bytes, codes,
  ascii_lower, Unicode, lookup, text_eq, text_eq_refl, if◌then◌else◌,
}
use kryneth_oss.Execution.{
  ExecutionState, OperationCacheEntry, ToolCall, ToolResult, TraceContext, Request, Readings, ok,
  ReconciliationResult,
}
use kryneth_oss.Execution.Store.{Store}
use kryneth_oss.Execution.Service.{Environment, World, Join, finished, call_key, initial_of}

abbrev pub ascii : Unicode
ascii = record { to_lowercase = map ascii_lower; lower_ascii = λ s h. refl }

-- A digest without collisions.
abbrev pub plain : Bytes → Text
plain b = b

abbrev pub charge : Request
charge = record {
  tool_call = record { id = codes "c1"; name = codes "charge"; arguments = codes "5" };
  tenant_id = codes "t";
  trace_ctx = record {
    trace_id = codes "x";
    session_id = codes "s";
    parent_trace_id = none;
    workflow_id = none;
    agent_id = none;
    execution_id = none;
    operation_id = none;
    idempotency_key = some (codes "k");
    test_scenario = none;
  };
  tool_index = 0;
  tool_calls_len = 1;
  enable_compression = false;
}

abbrev pub at : ℕ → Readings
at t = record { utc = t; instant = t; checked = t }

abbrev pub paid : ToolResult
paid = record {
  tool_call_id = codes "c1";
  name = codes "charge";
  content = codes "ok";
  latency_ms = 3;
  success = true;
}

abbrev pub call_at : ℕ → Join → Environment
call_at t j = record {
  fresh_uuid = codes "u";
  created_at = t;
  updated_at = t;
  claim_clock = at t;
  claim_elapsed = 1;
  reconciliation = ok ReconciliationResult.still_unknown;
  reconciled_elapsed = 1;
  reconciled_at = t;
  reclaim_clock = at t;
  running_at = t;
  join = j;
  marked_at = t + 5;
  join_elapsed = 5;
  final_elapsed = 6;
  completed_at = t + 6;
}

abbrev pub idle : World Store
idle = record {
  store = [];
  calls = [];
  already_in_flight_blocked = 0;
  previous_attempt_unknown_blocked = 0;
  telemetry = [];
}

-- A tool that is safe to retry.
abbrev pub get_price : Request
get_price = record charge {
  tool_call = record { id = codes "c2"; name = codes "get"; arguments = codes "5" };
}

abbrev pub first : Environment
first = call_at 0 (finished paid)

abbrev pub key : Text
key = call_key plain charge first

abbrev pub entry_of : Request → ExecutionState → OperationCacheEntry
entry_of q t = record {
  state = t;
  context = record {
    result_content = none;
    latency_ms = none;
    error_message = none;
    lease_until = some 10000;
    version = 1;
  };
  execution = record (initial_of plain q first) { state = t };
}

abbrev pub entry : ExecutionState → OperationCacheEntry
entry t = entry_of charge t

-- An entry that succeeded with a result.
abbrev pub done : OperationCacheEntry
done =
    let e = entry ExecutionState.succeeded in
    record e {
      context = record e.context { result_content = some (codes "ok"); latency_ms = some 3 };
    }

abbrev pub storing : Request → OperationCacheEntry → World Store
storing q e = record idle { store = (call_key plain q first, e) ∷ [] }

pub stored : (k : Text) (e : OperationCacheEntry) (rest : Store) → lookup k ((k, e) ∷ rest) ≡ some e
unfolding lookup
stored k e rest = rw (text_eq_refl k)
