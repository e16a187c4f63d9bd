-- ===== src/Agentic/Orchestrator/Served.antt =====
-- What a request is answered by the orchestrator.
use kryneth_oss.Prelude.{
  ◌≡◌, ◌⊎◌, refl, ap, inl, inr, Bool, true, false, none, some, Bytes, Bool-cases, Option-cases, not,
  ◌||◌, arith, if◌then◌else◌,
}
use kryneth_oss.Json.{Value}
use kryneth_oss.Tools
use kryneth_oss.Tools.{ToolDescriptor, ToolRegistry}
use kryneth_oss.Tools.Inject.{inject_lazy_summaries, inject, full_schema_requested_set}
use kryneth_oss.Agentic.Orchestrator.{
  served, Gateway, Call, Crates, check_budget, enforce_agentic_loop_budget, on_budget, lazy_body,
  orchestrate,
}

-- The body is handed on as it came, or what is handed on is the printed form of the body with its
-- schemas replaced.
pub record IsRewritten (k : Crates) (tools : ToolRegistry) (q : Call) (out : Bytes) : Type 0 where
  pub body : Value
  pub body' : Value
  pub read : k.from_slice q.body_bytes ≡ some body
  pub injected :
      inject tools (full_schema_requested_set k.unicode k.similar tools body) body ≡ some body'
  pub printed : k.to_writer body' ≡ some out
  pub compressing : q.enable_compression ≡ true

injected_cases :
    (k : Crates) (tools : ToolRegistry) (q : Call) (out : Bytes)
    → inject_lazy_summaries k.unicode k.similar k.from_slice k.to_writer tools q.body_bytes
        q.enable_compression
      ≡ some out
    → IsRewritten k tools q out
unfolding inject_lazy_summaries
injected_cases k tools q out h =
    elim (Bool-cases (not q.enable_compression || Tools.is_empty tools)) [
      | inl e ↦ let stop : none ≡ some out = rw (e, inject_lazy_summaries) at h in cc
      | inr e ↦ elim (Option-cases (k.from_slice q.body_bytes)) [
        | inl r ↦ let stop : none ≡ some out = rw (e, r, inject_lazy_summaries) at h in cc
        | inr (body, r) ↦
            let full = full_schema_requested_set k.unicode k.similar tools body in
            elim (Option-cases (inject tools full body)) [
              | inl i ↦ let stop : none ≡ some out = rw (e, r, i, inject_lazy_summaries) at h in cc
              | inr (body', i) ↦ record {
                body = body;
                body' = body';
                read = r;
                injected = i;
                printed = rw (e, r, i, inject_lazy_summaries) at h;
                compressing = compressed q.enable_compression e;
              }
            ]
      ]
    ]
  where
    compressed : (b : Bool) → (not b || Tools.is_empty tools) ≡ false → b ≡ true
    compressed true e = refl
    compressed false e = cc

lazy_body_cases :
    (k : Crates) (tools : ToolRegistry) (q : Call)
    → (lazy_body k tools q ≡ q.body_bytes) ⊎ IsRewritten k tools q (lazy_body k tools q)
unfolding lazy_body
lazy_body_cases k tools q = elim (Bool-cases (Tools.is_empty tools)) [
  | inl e ↦ inl (rw (e, lazy_body) refl)
  | inr e ↦
      elim (Option-cases (
        inject_lazy_summaries k.unicode k.similar k.from_slice k.to_writer tools q.body_bytes
          q.enable_compression)) [
            | inl i ↦ inl (rw (e, i, lazy_body) refl)
            | inr (out, i) ↦ inr (rw (e, i, lazy_body) (injected_cases k tools q out i))
          ]
]

check_budget-passes :
    (k : Crates) (q : Call) (g : Gateway)
    → (check_budget k q g).0 ≡ (none, if q.is_agentic then some 0 else none)
unfolding check_budget enforce_agentic_loop_budget on_budget
check_budget-passes k q g = ground arith

-- A request is never refused, and its answer does not hang on the gateway's state, on the warm-ups
-- or on the free permits: an agentic request has the loop count 0 and another none, and the body is
-- the one that came or, if compression is on, the printed form of the parsed body after the
-- injection of the summaries.
pub orchestrate-served :
    (k : Crates) (tools : ToolRegistry) (q : Call)
    → (out : Bytes) × ((g : Gateway)
        → (orchestrate k tools q g).0
          ≡ served
              (record { loop_count = if q.is_agentic then some 0 else none; body_bytes = out }))
      × ((out ≡ q.body_bytes) ⊎ IsRewritten k tools q out)
unfolding orchestrate
orchestrate-served k tools q = (
  lazy_body k tools q,
  (λ g.
      rw (ap (λ r. r.0) (check_budget-passes k q g), orchestrate)
        (rw (ap (λ r. r.1) (check_budget-passes k q g)) refl)),
  lazy_body_cases k tools q,
)
