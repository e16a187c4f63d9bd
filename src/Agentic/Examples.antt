-- ===== src/Agentic/Examples.antt =====
-- The session of two callers, and the gateway with one MCP server at a request that names its tool.
use kryneth_oss.Prelude.{
  ℕ, ◌+◌, ◌≤◌, ◌≡◌, refl, ap, true, false, Option, none, some, [], ◌∷◌, Text, Bytes, Unicode, codes,
  map, ascii_lower, as_bytes, length, text_eq, is_whitespace, trim, arith, contains_key, lookup,
}
use kryneth_oss.Json.{object, no_member}
use kryneth_oss.Tools.{ToolRegistry, registry_of}
use kryneth_oss.Mcp.Scan.{feed, feed_byte, matches_at, from_utf8, decode, are_chars}
use kryneth_oss.Mcp.Registry
use kryneth_oss.Mcp.Registry.{
  McpConnectionRegistry, empty, find_tool_hint, scan_chunks, chunks, chunks_from, registered,
  get_url, try_acquire, warm_connection, mcp_warmed_key,
}
use kryneth_oss.Agentic.Session.{is_stand_in, usable, keyed_session, resolve_session_id}
use kryneth_oss.Agentic.Session.Scope.{NoUnderscore, Caller, session_of, resolve_session_id-tenant}
use kryneth_oss.Agentic.Orchestrator.{
  Gateway, Call, Crates, prefetch, check_budget, enforce_agentic_loop_budget, on_budget,
  orchestrate, lazy_body, take_out, request, finished, happen, run,
}
use kryneth_oss.Agentic.Orchestrator.Prefetch.{IsPaired, run-IsPaired}

abbrev ascii : Unicode
ascii = record { to_lowercase = map ascii_lower; lower_ascii = λ s h. refl }

-- A hash without collisions that writes no underscore.
abbrev shifted : Bytes → Text
shifted [] = []
shifted (b ∷ bs) = (b + 96) ∷ shifted bs

abbrev head : Text → ℕ
head [] = 0
head (x ∷ xs) = x

abbrev tail : Text → Text
tail [] = []
tail (x ∷ xs) = xs

shifted-NoUnderscore : (b : Bytes) → NoUnderscore (shifted b)
shifted-NoUnderscore [] = tt
shifted-NoUnderscore (b ∷ bs) = (λ e. absurd (omega arith), shifted-NoUnderscore bs)

shifted-injective : (a b : Bytes) → shifted a ≡ shifted b → a ≡ b
shifted-injective [] [] e = refl
shifted-injective [] (y ∷ ys) e = cc
shifted-injective (x ∷ xs) [] e = cc
shifted-injective (x ∷ xs) (y ∷ ys) e =
    let same : x ≡ y = omega (arith, ap head e) in cc (same, shifted-injective xs ys (ap tail e))

abbrev caller : Option Text → Text → ℕ → Caller
caller key tenant_id seconds = record {
  idempotency_key = key;
  tenant_id = tenant_id;
  api_key = codes "k";
  seconds = seconds;
  raw_payload = codes "{}";
}

null_falls_back :
    resolve_session_id ascii shifted
      (some (codes "null"))
      (some (codes " idem-456 "))
      (codes "tenant-abc")
      (codes "sk-123")
      0
      (codes "{}")
    ≡ codes "tenant-abc_idem-456"
unfolding resolve_session_id usable is_stand_in trim is_whitespace text_eq keyed_session
null_falls_back = refl

same_session :
    session_of ascii shifted (some (codes " NULL")) (caller (some (codes "x")) (codes "a") 1)
    ≡ session_of ascii shifted none (caller (some (codes " x ")) (codes "a") 2)
unfolding resolve_session_id usable is_stand_in trim is_whitespace text_eq keyed_session
same_session = refl

resolve_session_id-tenant_example : as_bytes (codes "a") ≡ as_bytes (codes "a")
unfolding usable is_stand_in trim is_whitespace text_eq
resolve_session_id-tenant_example =
    resolve_session_id-tenant ascii shifted (some (codes " NULL")) none
      (caller (some (codes "x")) (codes "a") 1) (caller (some (codes " x ")) (codes "a") 2)
      shifted-injective shifted-NoUnderscore refl refl refl refl same_session

abbrev crates : Crates
crates = record {
  unicode = ascii;
  digest = shifted;
  from_utf8 = λ b. some b;
  from_slice = λ b. some (object no_member);
  to_writer = λ v. some [];
  similar = λ s d. false;
}

abbrev tools : ToolRegistry
tools = registry_of []

abbrev call : Call
call = record {
  body_bytes = codes "{\"name\":\"jira\"}";
  tenant_id = codes "t";
  api_key = codes "k";
  session_id = some (codes "s");
  idempotency_key = none;
  is_agentic = true;
  trace_ctx = record {
    trace_id = codes "trace";
    session_id = codes "s";
    parent_trace_id = none;
    workflow_id = none;
    agent_id = none;
    execution_id = none;
    operation_id = none;
    idempotency_key = none;
    test_scenario = none;
  };
  enable_compression = true;
  seconds = 5;
  latency_ms = 0;
}

abbrev gateway : Gateway
gateway = record {
  mcp_registry = record empty { registry = (codes "jira", (codes "http://j", [])) ∷ [] };
  warm_ups = [];
  total_latency_ms = 0;
  events = [];
}

warming :
    (run crates tools (request call ∷ request call ∷ finished 1 true 9 ∷ []) gateway).warm_ups
    ≡ record { tenant_id = codes "t"; tool_name = codes "jira"; sse_url = codes "http://j" } ∷ []
unfolding run happen orchestrate check_budget enforce_agentic_loop_budget on_budget prefetch
    lazy_body Registry.is_empty find_tool_hint scan_chunks chunks chunks_from feed feed_byte
    matches_at registered from_utf8 decode are_chars contains_key lookup text_eq get_url try_acquire
    take_out warm_connection as_bytes
warming = refl

run-IsPaired_example :
    IsPaired (run crates tools (request call ∷ request call ∷ finished 1 true 9 ∷ []) gateway)
    × (length
          (run crates tools (request call ∷ request call ∷ finished 1 true 9 ∷ []) gateway).warm_ups
        ≤ 20)
run-IsPaired_example =
    run-IsPaired crates tools (request call ∷ request call ∷ finished 1 true 9 ∷ []) gateway
      (record { permits = refl })
