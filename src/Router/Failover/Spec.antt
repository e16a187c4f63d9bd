-- ===== src/Router/Failover/Spec.antt =====
-- What the failover loop promises, whatever the network answers.
use kryneth_oss.Prelude.{
  ℕ, suc, ◌+◌, ◌≤◌, ◌≡◌, ◌≢◌, sym, ◌∙◌, false, Option, none, some, List, [], ◌∷◌, Text, Bytes,
  codes, lookup, lookup-insert, lookup-insert_self, text_eq, if◌then◌else◌, Unicode, arith, All,
  All-map, length, Bool-cases, inl, inr,
}
use kryneth_oss.Config.{UpstreamTarget}
use kryneth_oss.Router.{
  Breaker, GatewayError, upstream_unreachable, Result, Result-cases, ok, err, circuit_breaker_key,
  is_retryable_error, ProviderConfig, get_provider_config,
}
use kryneth_oss.Router.Selection.{is_open}
use kryneth_oss.Router.Failover.{
  Sent, response, unreachable, Prepared, Answer, Run, sent_to, open_circuit, provider_returned,
  on_fallback_sent, try_fallbacks, on_primary_sent, execute_upstream_request,
}

abbrev pub Distinct : List Text → Type 0
Distinct [] = Unit
Distinct (x ∷ xs) = All (λ y. y ≢ x) xs × Distinct xs

-- The circuit of an alias is closed, or open, for a tenant.
abbrev pub IsClosed : Text → Breaker → Text → Type 0
IsClosed tenant_id breaker key_alias =
    lookup (circuit_breaker_key tenant_id key_alias) breaker ≡ none

abbrev pub IsOpened : Text → Breaker → Text → Type 0
IsOpened tenant_id breaker key_alias =
    lookup (circuit_breaker_key tenant_id key_alias) breaker ≢ none

-- What a run from a breaker with at most `limit` sends leaves.
pub record Spec (tenant_id : Text) (breaker : Breaker) (limit : ℕ) (r : Run) : Type 0 where
  pub final : (a : Answer) → r.outcome ≡ ok a → is_retryable_error a.status ≡ false
  pub bounded : length r.attempts ≤ limit
  pub closed : All (IsClosed tenant_id breaker) r.attempts
  pub distinct : Distinct r.attempts
  pub opened :
      (e : GatewayError) → r.outcome ≡ err e → All (IsOpened tenant_id r.breaker) r.attempts
  pub kept : (k : Text) → lookup k breaker ≢ none → lookup k r.breaker ≢ none

is_open-IsClosed :
    (tenant_id : Text) (breaker : Breaker) (t : UpstreamTarget)
    → is_open tenant_id breaker t ≡ false
    → IsClosed tenant_id breaker t.api_key_alias
unfolding is_open
is_open-IsClosed tenant_id breaker t h = ground arith

module _ (tenant_id : Text) (breaker : Breaker) (t : UpstreamTarget) where
  abbrev key : Text
  key = circuit_breaker_key tenant_id t.api_key_alias

  lookup-opened :
      (k : Text)
      → lookup k (open_circuit tenant_id t breaker)
        ≡ (if text_eq key k then some tt else lookup k breaker)
  lookup-opened k = lookup-insert key k tt breaker

  open_circuit-IsClosed :
      (a : Text)
      → IsClosed tenant_id (open_circuit tenant_id t breaker) a
      → IsClosed tenant_id breaker a × (a ≢ t.api_key_alias)
  open_circuit-IsClosed a h = (
    elim (Bool-cases (text_eq key (circuit_breaker_key tenant_id a))) [
      | inl same ↦ cc (rw same at (lookup-opened (circuit_breaker_key tenant_id a)), h)
      | inr other ↦ sym (rw other at (lookup-opened (circuit_breaker_key tenant_id a))) ∙ h
    ],
    λ e. cc (lookup-insert_self key tt breaker, rw e at h),
  )

  kept_open :
      (k : Text) → lookup k breaker ≢ none → lookup k (open_circuit tenant_id t breaker) ≢ none
  kept_open k h e = elim (Bool-cases (text_eq key k)) [
    | inl same ↦ cc (rw same at (lookup-opened k), e)
    | inr other ↦ h (sym (rw other at (lookup-opened k)) ∙ e)
  ]

  -- A target that failed, and what the rest of the loop does with its circuit open.
  Spec-failed :
      (limit : ℕ) (r : Run)
      → is_open tenant_id breaker t ≡ false
      → Spec tenant_id (open_circuit tenant_id t breaker) limit r
      → Spec tenant_id breaker (suc limit) (sent_to t.api_key_alias r)
  Spec-failed limit r was s = record {
    final = s.final;
    bounded = omega (arith, s.bounded);
    closed = (
      is_open-IsClosed tenant_id breaker t was,
      All-map (IsClosed tenant_id (open_circuit tenant_id t breaker)) (IsClosed tenant_id breaker)
          r.attempts (λ a h. (open_circuit-IsClosed a h).0) s.closed,
    );
    distinct = (
      All-map (IsClosed tenant_id (open_circuit tenant_id t breaker)) (λ a. a ≢ t.api_key_alias)
          r.attempts (λ a h. (open_circuit-IsClosed a h).1) s.closed,
      s.distinct,
    );
    opened = λ e h. (s.kept key (λ n. cc (lookup-insert_self key tt breaker, n)), s.opened e h);
    kept = λ k h. s.kept k (kept_open k h);
  }

  Spec-answered :
      (limit : ℕ) (a : Answer) (body : Bytes)
      → is_open tenant_id breaker t ≡ false
      → is_retryable_error a.status ≡ false
      → Spec tenant_id breaker (suc limit) (record {
        outcome = ok a;
        breaker = breaker;
        body = body;
        attempts = t.api_key_alias ∷ [];
      })
  Spec-answered limit a body was h = record {
    final = λ b e. ground (arith, e, h);
    bounded = omega arith;
    closed = (is_open-IsClosed tenant_id breaker t was, tt);
    distinct = (tt, tt);
    opened = λ e n. cc;
    kept = λ k n. n;
  }

Spec-more :
    {tenant_id : Text} {breaker : Breaker} (limit : ℕ) (r : Run)
    → Spec tenant_id breaker limit r
    → Spec tenant_id breaker (suc limit) r
Spec-more limit r s = record {
  final = s.final;
  bounded = omega (arith, s.bounded);
  closed = s.closed;
  distinct = s.distinct;
  opened = s.opened;
  kept = s.kept;
}

module _ {R : Type 0} (u : Unicode)
    (build : ProviderConfig → UpstreamTarget → Text → Text → Option Text → Bytes → Result R × Bytes)
    (send : ℕ → R → Sent) (tenant_id : Text) (model : Text) where
  on_sent-Spec :
      (t : UpstreamTarget) (limit : ℕ) (config : ProviderConfig) (breaker : Breaker) (body : Bytes)
      (s : Sent) (rest : GatewayError → Run)
      → is_open tenant_id breaker t ≡ false
      → ((e : GatewayError) → Spec tenant_id (open_circuit tenant_id t breaker) limit (rest e))
      → Spec tenant_id breaker (suc limit) (
          sent_to t.api_key_alias
            (on_fallback_sent u build send tenant_id t config breaker body s rest))
  unfolding on_fallback_sent
  on_sent-Spec t limit config breaker body (response status text) rest was h =
      elim (Bool-cases (is_retryable_error status)) [
        | inl e ↦ rw e (Spec-failed tenant_id breaker t limit _ was (h _))
        | inr e ↦ rw e (Spec-answered tenant_id breaker t limit _ body was e)
      ]
  on_sent-Spec t limit config breaker body (unreachable e) rest was h =
      Spec-failed tenant_id breaker t limit _ was (h _)

  try_fallbacks-Spec :
      (ts : List UpstreamTarget) (n : ℕ) (breaker : Breaker) (body : Bytes) (e : GatewayError)
      → Spec tenant_id breaker
          (length ts)
          (try_fallbacks u build send tenant_id model ts n breaker body e)
  unfolding try_fallbacks
  try_fallbacks-Spec [] n breaker body e = record {
    final = λ a h. cc;
    bounded = omega arith;
    closed = tt;
    distinct = tt;
    opened = λ x h. tt;
    kept = λ k h. h;
  }
  try_fallbacks-Spec (t ∷ ts) n breaker body e =
      let config = get_provider_config u t.schema_format in
      let made = build config t model (codes "application/json") none body in
      elim (Bool-cases (is_open tenant_id breaker t)) [
        | inl shut ↦ rw shut (Spec-more (length ts) _ (try_fallbacks-Spec ts n breaker body e))
        | inr passes ↦ rw passes (elim (Result-cases made.0) [
          | inl (request, b) ↦ rw b (
              on_sent-Spec t (length ts) config breaker made.1 (send n request) _ passes
                (λ x. try_fallbacks-Spec ts (n + 1) (open_circuit tenant_id t breaker) made.1 x))
          | inr (x, b) ↦ rw b (Spec-more (length ts) _ (try_fallbacks-Spec ts n breaker made.1 e))
        ])
      ]

module _ {R : Type 0} (u : Unicode)
    (build : ProviderConfig → UpstreamTarget → Text → Text → Option Text → Bytes → Result R × Bytes)
    (send : ℕ → R → Sent) (prep : Prepared R) (breaker : Breaker) (body : Bytes)
    (closed : is_open prep.tenant_id breaker prep.primary_target ≡ false) where
  on_primary-Spec :
      (s : Sent)
      → Spec prep.tenant_id breaker (suc (length prep.fallback_targets)) (
          sent_to prep.primary_target.api_key_alias
            (on_primary_sent u build send prep breaker body s))
  unfolding on_primary_sent
  on_primary-Spec (response status text) = elim (Bool-cases (is_retryable_error status)) [
    | inl e ↦ rw e (
        Spec-failed prep.tenant_id breaker prep.primary_target (length prep.fallback_targets) _
          closed
          (try_fallbacks-Spec u build send prep.tenant_id prep.model prep.fallback_targets 1 _ body
            (provider_returned status)))
    | inr e ↦ rw e (
        Spec-answered prep.tenant_id breaker prep.primary_target (length prep.fallback_targets) _
          body closed e)
  ]
  on_primary-Spec (unreachable e) =
      Spec-failed prep.tenant_id breaker prep.primary_target (length prep.fallback_targets) _ closed
        (try_fallbacks-Spec u build send prep.tenant_id prep.model prep.fallback_targets 1 _ body
          (upstream_unreachable e))

  -- From a primary target whose circuit is closed, whatever the network answers: an answer that is
  -- handed on has no retryable status; at most one request is sent for each target, at most one to
  -- each alias, and none to an alias whose circuit was open; where no answer is found, the circuit
  -- of every alias that was tried is open in the end; and the run closes no circuit.
  pub execute_upstream_request-Spec :
      Spec prep.tenant_id breaker
        (suc (length prep.fallback_targets))
        (execute_upstream_request u build send prep breaker body)
  unfolding execute_upstream_request
  execute_upstream_request-Spec = on_primary-Spec (send 0 prep.primary_request)
