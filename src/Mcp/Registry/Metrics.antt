-- ===== src/Mcp/Registry/Metrics.antt =====
-- The counters against the calls that were recorded.
use kryneth_oss.Prelude.{
  ℕ, ◌+◌, ◌<◌, ◌≡◌, refl, sym, ap, ◌∙◌, inl, inr, Bool, false, ◌&&◌, Option, none, some, List, [],
  ◌∷◌, ◌++◌, Text, codes, lookup, lookup-insert, text_eq, text_eq_refl, text_eq_sound, NoColon,
  split_unique, if◌then◌else◌, ◌==◌, u64, All, Bool-cases, Option-cases, arith,
}
use mathlib.Core.List.{append_cancel_left}
use kryneth_oss.Mcp.Registry.{
  mcp_warmed_key, ToolMetrics, McpConnectionRegistry, empty, recorded, record_tool_call,
  get_metrics,
}

-- One call of `record_tool_call`.
pub record Call : Type 0 where
  pub tenant_id : Text
  pub tool_name : Text
  pub latency_ms : ℕ

-- The calls of a history, whose newest stands first.
unfoldable pub record_all : List Call → McpConnectionRegistry → McpConnectionRegistry
unfolding record_tool_call
record_all [] r = r
record_all (c ∷ cs) r = record_tool_call c.tenant_id c.tool_name c.latency_ms (record_all cs r)

unfoldable pub is_call : Text → Text → Call → Bool
is_call tenant_id tool_name c = text_eq c.tenant_id tenant_id && text_eq c.tool_name tool_name

unfoldable pub calls_of : Text → Text → List Call → ℕ
unfolding is_call
calls_of t n [] = 0
calls_of t n (c ∷ cs) = let rest = calls_of t n cs in if is_call t n c then 1 + rest else rest

unfoldable pub latency_of : Text → Text → List Call → ℕ
unfolding is_call
latency_of t n [] = 0
latency_of t n (c ∷ cs) =
    let rest = latency_of t n cs in if is_call t n c then c.latency_ms + rest else rest

-- Two tenants without a colon share no key.
mcp_warmed_key_injective :
    (t t' n n' : Text)
    → NoColon t
    → NoColon t'
    → mcp_warmed_key t n ≡ mcp_warmed_key t' n'
    → (t ≡ t') × (n ≡ n')
unfolding mcp_warmed_key
mcp_warmed_key_injective t t' n n' h h' same =
    let et = split_unique t t' (58 ∷ n) (58 ∷ n') h h' same in
    let tails = append_cancel_left t (codes "::" ++ n) (codes "::" ++ n') (rw (← et) at same) in
    (et, append_cancel_left (codes "::") n n' tails)

abbrev same_key : Text → Text → Text → Text → Bool
same_key t n t' n' = text_eq (mcp_warmed_key t n) (mcp_warmed_key t' n')

text_eq-mcp_warmed_key :
    (t t' n n' : Text)
    → NoColon t
    → NoColon t'
    → same_key t n t' n' ≡ (text_eq t t' && text_eq n n')
text_eq-mcp_warmed_key t t' n n' h h' = elim (Bool-cases (same_key t n t' n')) [
  | inl e ↦
      let (et, en) = mcp_warmed_key_injective t t' n n' h h' (text_eq_sound _ _ e) in
      rw (e, et, en, text_eq_refl t', text_eq_refl n') refl
  | inr e ↦ elim (Bool-cases (text_eq t t')) [
    | inl et ↦ elim (Bool-cases (text_eq n n')) [
      | inl en ↦ absurd (
          ground (
            arith,
            e,
            text_eq_refl (mcp_warmed_key t' n'),
            ap (λ s. mcp_warmed_key s n) (text_eq_sound t t' et),
            ap (mcp_warmed_key t') (text_eq_sound n n' en),
          ))
      | inr en ↦ rw (e, et, en) refl
    ]
    | inr et ↦ rw (e, et) refl
  ]
]

-- What a call makes of the counters of its key.
abbrev pub count : ℕ → Option (ℕ × ℕ) → ℕ × ℕ
count latency_ms none = (1, latency_ms)
count latency_ms (some m) = (u64 (m.0 + 1), u64 (m.1 + latency_ms))

counters : Option ToolMetrics → Option (ℕ × ℕ)
counters none = none
counters (some m) = some (m.call_count, m.total_latency_ms)

get_metrics-counters :
    (t n : Text) (r : McpConnectionRegistry)
    → get_metrics t n r ≡ counters (lookup (mcp_warmed_key t n) r.tool_metrics)
unfolding get_metrics counters
get_metrics-counters t n r = elim (Option-cases (lookup (mcp_warmed_key t n) r.tool_metrics)) [
  | inl e ↦ rw (get_metrics, e) refl
  | inr (m, e) ↦ rw (get_metrics, e) refl
]

counters-recorded :
    (l : ℕ) (o : Option ToolMetrics) → counters (some (recorded l o)) ≡ some (count l (counters o))
unfolding counters
counters-recorded l none = refl
counters-recorded l (some m) = refl

tool_metrics-record_tool_call :
    (c : Call) (r : McpConnectionRegistry) (key : Text)
    → lookup key (record_tool_call c.tenant_id c.tool_name c.latency_ms r).tool_metrics ≡ (
        if text_eq (mcp_warmed_key c.tenant_id c.tool_name) key
        then some
            (recorded c.latency_ms (lookup (mcp_warmed_key c.tenant_id c.tool_name) r.tool_metrics))
        else lookup key r.tool_metrics)
unfolding record_tool_call
tool_metrics-record_tool_call c r key = lookup-insert _ key _ r.tool_metrics

-- A recorded call counts for its own tenant and tool, and for nobody else.
pub get_metrics-record_tool_call :
    (c : Call) (r : McpConnectionRegistry) (t n : Text)
    → NoColon c.tenant_id
    → NoColon t
    → get_metrics t n (record_tool_call c.tenant_id c.tool_name c.latency_ms r)
      ≡ (if is_call t n c then some (count c.latency_ms (get_metrics t n r)) else get_metrics t n r)
unfolding is_call
get_metrics-record_tool_call c r t n h h' =
    let split = text_eq-mcp_warmed_key c.tenant_id t c.tool_name n h h' in
    let key = mcp_warmed_key c.tenant_id c.tool_name in
    get_metrics-counters t n _
    ∙ ap counters (tool_metrics-record_tool_call c r (mcp_warmed_key t n))
    ∙ elim (Bool-cases (same_key c.tenant_id c.tool_name t n)) [
      | inl e ↦
          rw (e, ← split, e)
            (counters-recorded c.latency_ms (lookup key r.tool_metrics)
              ∙ ap (λ o. some (count c.latency_ms o))
                  (ap (λ s. counters (lookup s r.tool_metrics))
                      (text_eq_sound key (mcp_warmed_key t n) e)
                    ∙ sym (get_metrics-counters t n r)))
      | inr e ↦ rw (e, ← split, e) (sym (get_metrics-counters t n r))
    ]

-- What the counters hold of a history: nothing without a call, and otherwise the number of the
-- calls and the sum of their latencies, as `u64`.
unfoldable pub summary : Text → Text → List Call → Option (ℕ × ℕ)
unfolding calls_of latency_of
summary t n cs =
    if calls_of t n cs == 0 then none else some (u64 (calls_of t n cs), u64 (latency_of t n cs))

-- `latency_ms` is a `u64`, and a tenant's id holds no colon.
abbrev pub IsCall : Call → Type 0
IsCall c = NoColon c.tenant_id × (c.latency_ms < 18446744073709551616)

no_latency : (t n : Text) (cs : List Call) → calls_of t n cs ≡ 0 → latency_of t n cs ≡ 0
unfolding calls_of latency_of
no_latency t n [] h = refl
no_latency t n (c ∷ cs) h = elim (Bool-cases (is_call t n c)) [
  | inl e ↦ let one = rw (calls_of, e) at h in absurd (omega arith)
  | inr e ↦ rw (latency_of, e) (no_latency t n cs (rw (calls_of, e) at h))
]

module _ (calls latency l : ℕ) where
  first_call :
      calls ≡ 0
      → latency ≡ 0
      → l < 18446744073709551616
      → ◌≡◌ {A = Option (ℕ × ℕ)} (some (u64 (1 + calls), u64 (l + latency))) (some (1, l))
  first_call e z h = ground arith

  next_call :
      ◌≡◌ {A = Option (ℕ × ℕ)}
        (some (u64 (1 + calls), u64 (l + latency)))
        (some (u64 (u64 calls + 1), u64 (u64 latency + l)))
  next_call = ground arith

summary-cons :
    (c : Call) (cs : List Call) (t n : Text)
    → c.latency_ms < 18446744073709551616
    → summary t n (c ∷ cs)
      ≡ (if is_call t n c then some (count c.latency_ms (summary t n cs)) else summary t n cs)
unfolding summary
summary-cons c cs t n h = elim (Bool-cases (is_call t n c)) [
  | inl e ↦ elim (Bool-cases (calls_of t n cs == 0)) [
    | inl z ↦
        let zero_calls : calls_of t n cs ≡ 0 = ground arith in
        let one : (1 + calls_of t n cs == 0) ≡ false = ground arith in
        rw (calls_of, latency_of, e, z, one)
          (first_call (calls_of t n cs) (latency_of t n cs) c.latency_ms zero_calls
            (no_latency t n cs zero_calls) h)
    | inr z ↦
        let one : (1 + calls_of t n cs == 0) ≡ false = ground arith in
        rw (calls_of, latency_of, e, z, one)
          (next_call (calls_of t n cs) (latency_of t n cs) c.latency_ms)
  ]
  | inr e ↦ rw (calls_of, latency_of, e) refl
]

-- From an empty registry on, the counters of a tenant's tool hold exactly its own calls: after any
-- history of calls of any tenants, there are none without a call of it, and otherwise they are the
-- number of its calls and the sum of their latencies, both modulo 2 ^ 64, for tenants whose ids
-- hold no colon.
pub get_metrics-record_all :
    (cs : List Call) (t n : Text)
    → All IsCall cs
    → NoColon t
    → get_metrics t n (record_all cs empty) ≡ summary t n cs
unfolding record_all summary calls_of get_metrics lookup
get_metrics-record_all [] t n h h' = refl
get_metrics-record_all (c ∷ cs) t n h h' =
    get_metrics-record_tool_call c (record_all cs empty) t n h.0.0 h'
    ∙ ap (λ o. if is_call t n c then some (count c.latency_ms o) else o)
        (get_metrics-record_all cs t n h.1 h')
    ∙ sym (summary-cons c cs t n h.0.1)
