-- ===== src/Agentic/Orchestrator/Prefetch.antt =====
-- The permits of the semaphore and the warm-ups under way.
use kryneth_oss.Prelude.{
  ℕ, zero, suc, ◌+◌, ◌≤◌, ◌≡◌, ap, inl, inr, Option, none, some, List, [], ◌∷◌, Text, Bytes,
  Bool-cases, Option-cases, length, arith,
}
use kryneth_oss.Tools.{ToolRegistry}
use kryneth_oss.Mcp.Registry
use kryneth_oss.Mcp.Registry.{
  McpConnectionRegistry, find_tool_hint, get_url, try_acquire, warm_connection, update_server,
  remove_server, record_tool_call,
}
use kryneth_oss.Agentic.Orchestrator.{
  WarmUp, Gateway, Call, Crates, prefetch, check_budget, enforce_agentic_loop_budget, on_budget,
  orchestrate, take_out, Happening, request, finished, server_updated, server_removed, tool_called,
  happen, run,
}

-- The free permits and those that the warm-ups under way hold are the 20 of the semaphore.
pub record IsPaired (g : Gateway) : Type 0 where
  pub permits : g.mcp_registry.prefetch_sem + length g.warm_ups ≡ 20

try_acquire_sem :
    (r r' : McpConnectionRegistry) → try_acquire r ≡ some r' → suc r'.prefetch_sem ≡ r.prefetch_sem
unfolding try_acquire
try_acquire_sem r r' h = ground arith

prefetch-IsPaired :
    (tenant_id : Text) (body : Bytes) (g : Gateway)
    → IsPaired g
    → IsPaired (prefetch tenant_id body g)
unfolding prefetch
prefetch-IsPaired tenant_id body g h = elim (Bool-cases (Registry.is_empty g.mcp_registry)) [
  | inl e ↦ rw (e, prefetch) h
  | inr e ↦ elim (Option-cases (find_tool_hint body g.mcp_registry)) [
    | inl f ↦ rw (e, f, prefetch) h
    | inr (tool, f) ↦ elim (Option-cases (get_url tool g.mcp_registry)) [
      | inl u ↦ rw (e, f, u, prefetch) h
      | inr (url, u) ↦ elim (Option-cases (try_acquire g.mcp_registry)) [
        | inl a ↦ rw (e, f, u, a, prefetch) h
        | inr (r, a) ↦
            rw (e, f, u, a, prefetch)
              (record { permits = omega (arith, try_acquire_sem g.mcp_registry r a, h.permits) })
      ]
    ]
  ]
]

check_budget-IsPaired :
    (k : Crates) (q : Call) (g : Gateway) → IsPaired g → IsPaired (check_budget k q g).1
unfolding check_budget enforce_agentic_loop_budget on_budget
check_budget-IsPaired k q g h = ground arith

take_out-length :
    (n : ℕ) (ws : List WarmUp) (w : WarmUp) (vs : List WarmUp)
    → take_out n ws ≡ some (w, vs)
    → suc (length vs) ≡ length ws
unfolding take_out
take_out-length n [] w vs h = ground arith
take_out-length zero (v ∷ ws) w vs h = ground arith
take_out-length (suc n) (v ∷ ws) w vs h = elim (Option-cases (take_out n ws)) [
  | inl e ↦
      let stop : ◌≡◌ {A = Option (WarmUp × List WarmUp)} none (some (w, vs)) =
        rw (e, take_out) at h in
      cc
  | inr ((u, us), e) ↦
      let same : some (u, v ∷ us) ≡ some (w, vs) = rw (e, take_out) at h in
      omega (arith, take_out-length n ws u us e, ap others same)
]
  where
    others : Option (WarmUp × List WarmUp) → ℕ
    others none = 0
    others (some (w, vs)) = length vs

orchestrate-IsPaired :
    (k : Crates) (tools : ToolRegistry) (q : Call) (g : Gateway)
    → IsPaired g
    → IsPaired (orchestrate k tools q g).1
unfolding orchestrate
orchestrate-IsPaired k tools q g h = elim (Option-cases (check_budget k q g).0.0) [
  | inl e ↦
      rw (e, orchestrate)
        (prefetch-IsPaired q.tenant_id q.body_bytes (check_budget k q g).1
          (check_budget-IsPaired k q g h))
  | inr (err, e) ↦ rw (e, orchestrate) (check_budget-IsPaired k q g h)
]

happen-IsPaired :
    (k : Crates) (tools : ToolRegistry) (e : Happening) (g : Gateway)
    → IsPaired g
    → IsPaired (happen k tools e g)
unfolding happen warm_connection update_server remove_server record_tool_call
happen-IsPaired k tools (request q) g h = orchestrate-IsPaired k tools q g h
happen-IsPaired k tools (finished n reached now) g h = elim (Option-cases (take_out n g.warm_ups)) [
  | inl e ↦ rw (e, happen) h
  | inr ((w, ws), e) ↦
      rw (e, happen)
        (record { permits = omega (arith, take_out-length n g.warm_ups w ws e, h.permits) })
]
happen-IsPaired k tools (server_updated name url env_vars) g h = record { permits = h.permits }
happen-IsPaired k tools (server_removed name) g h = record { permits = h.permits }
happen-IsPaired k tools (tool_called tenant_id tool_name latency_ms) g h = record {
  permits = h.permits;
}

-- From a gateway whose free permits and warm-ups under way are 20 together, any sequence of
-- requests, of ends of warm-ups in any order, of changes to the registry and of recorded tool calls
-- leads to one of which that is so again: no permit is lost, none is given back twice, and no more
-- than 20 warm-ups are under way at once.
pub run-IsPaired :
    (k : Crates) (tools : ToolRegistry) (hs : List Happening) (g : Gateway)
    → IsPaired g
    → IsPaired (run k tools hs g) × (length (run k tools hs g).warm_ups ≤ 20)
unfolding run
run-IsPaired k tools [] g h = (h, omega (arith, h.permits))
run-IsPaired k tools (e ∷ hs) g h =
    run-IsPaired k tools hs (happen k tools e g) (happen-IsPaired k tools e g h)
