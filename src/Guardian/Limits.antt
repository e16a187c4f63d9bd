-- ===== src/Guardian/Limits.antt =====
-- `enforce_oss_agent_guardian` and `enforce_oss_tool_calls`: the counters of a session's tool calls,
-- in `agent_guardian_cache`. An entry expires 60 seconds after its last write; an expired one is
-- absent here.
pub mod Counts
use kryneth_oss.Prelude.{
  ℕ, ◌+◌, Bool, true, false, Option, none, some, List, [], ◌∷◌, ◌++◌, Text, Bytes, Map, codes,
  lookup, insert, ltb, u32, length, as_bytes, decimal, if◌then◌else◌,
}
use kryneth_oss.Config.{RoutingState}
use kryneth_oss.Guardian.Json.{BorrowedValue}
use kryneth_oss.Guardian.Extract.{extract_tool_calls_from_request}
use kryneth_oss.Guardian.Hash.{AHasher, UnifiedToolCall, from_borrowed_value}

pub data Verdict : Type 0 where
  passed agent_tool_storm agent_runaway_loop : Verdict

pub record Guardian : Type 0 where
  pub cache : Map ℕ
  pub blocked_agent_loops : ℕ

-- The limits of a tenant: those of its configuration, or of the environment, or 20 and 5. A signed
-- number of the configuration is read `as u32`.
unfoldable pub limits : RoutingState → Text → Option ℕ → Option ℕ → ℕ × ℕ
limits routing tenant_id env_max env_ident = elim (lookup tenant_id routing.client_configs) [
  | some cfg ↦ (cfg.max_agent_loops, cfg.max_identical_tool_calls)
  | none ↦ (elim env_max [ none ↦ 20 | some n ↦ n ], elim env_ident [ none ↦ 5 | some n ↦ n ])
]

-- `agent_guardian_cache.get(&key).await.unwrap_or(0)`
unfoldable pub count_of : Text → Map ℕ → ℕ
count_of key cache = elim (lookup key cache) [ none ↦ 0 | some n ↦ n ]

unfoldable pub block : Guardian → Guardian
block g = record g { blocked_agent_loops = g.blocked_agent_loops + 1 }

-- The loop over the calls, from the key of each call on; a call of an unsupported format has none.
unfoldable pub check_calls : ℕ → List (Option Text) → Guardian → Verdict × Guardian
unfolding count_of block
check_calls max_identical [] g = (passed, g)
check_calls max_identical (none ∷ keys) g = check_calls max_identical keys g
check_calls max_identical (some key ∷ keys) g =
    let count = u32 (count_of key g.cache + 1) in
    let rest = check_calls max_identical keys (record g { cache = insert key count g.cache }) in
    if ltb max_identical count then (agent_runaway_loop, block g) else rest

module _ {H : Type 0} (hasher : AHasher H) (i64_to_f64 u64_to_f64 : ℕ → ℕ)
    (to_string : BorrowedValue → Text) (parse : Bytes → Option BorrowedValue) where
  unfoldable pub storm_key : Text → Text
  storm_key session_id = decimal (
      hasher.finish
        (hasher.write (codes "_STORM") (hasher.write (as_bytes session_id) hasher.default)))

  unfoldable pub loop_key : Text → UnifiedToolCall → Text
  loop_key session_id tool = decimal (
      hasher.finish (
        hasher.write_u64 tool.semantic_hash
          (hasher.write (as_bytes tool.name) (hasher.write (as_bytes session_id) hasher.default))))

  unfoldable pub call_keys : Text → List BorrowedValue → List (Option Text)
  unfolding loop_key
  call_keys session_id [] = []
  call_keys session_id (tc ∷ tcs) =
      elim (from_borrowed_value hasher i64_to_f64 u64_to_f64 to_string parse tc) [
        | none ↦ none
        | some tool ↦ some (loop_key session_id tool)
      ]
      ∷ call_keys session_id tcs

  unfoldable pub enforce_oss_tool_calls :
      ℕ × ℕ → Text → List BorrowedValue → Guardian → Verdict × Guardian
  unfolding check_calls storm_key
  enforce_oss_tool_calls (max_session, max_identical) session_id tool_calls g =
      let key = storm_key session_id in
      let storm_count = u32 (count_of key g.cache + u32 (length tool_calls)) in
      let rest =
        check_calls max_identical (call_keys session_id tool_calls)
          (record g { cache = insert key storm_count g.cache }) in
      if ltb max_session storm_count then (agent_tool_storm, block g) else rest

  abbrev unless_empty : List BorrowedValue → Guardian → Verdict × Guardian → Verdict × Guardian
  unless_empty [] g r = (passed, g)
  unless_empty (c ∷ cs) g r = r

  -- A body that does not parse, or has no tool calls, passes. The last two arguments before the
  -- tenant are the values of `MAX_SESSION_TOOL_CALLS` and `MAX_IDENTICAL_TOOL_CALLS`.
  unfoldable pub enforce_oss_agent_guardian :
      RoutingState → Option ℕ → Option ℕ → Text → Text → Bytes → Guardian → Verdict × Guardian
  unfolding enforce_oss_tool_calls limits
  enforce_oss_agent_guardian routing env_max env_ident tenant_id session_id body g =
      elim (parse body) [
        | none ↦ (passed, g)
        | some parsed ↦
            let tool_calls = extract_tool_calls_from_request parsed in
            unless_empty tool_calls g (
              enforce_oss_tool_calls (limits routing tenant_id env_max env_ident) session_id
                tool_calls g)
      ]
