-- ===== src/Router/Failover.antt =====
-- `execute_upstream_request`: the primary request and the fallbacks, with the circuit breaker.
pub mod Spec
use kryneth_oss.Prelude.{
  ℕ, zero, suc, ◌+◌, ◌≤◌, ◌≡◌, ◌≢◌, refl, Bool, true, false, Option, none, some, List, [], ◌∷◌,
  ◌++◌, Text, Bytes, Map, codes, decimal, lookup, insert, text_eq, if◌then◌else◌, Unicode, arith,
  All, length,
}
use kryneth_oss.Config.{UpstreamTarget}
use kryneth_oss.Router.{
  Breaker, GatewayError, response_build, upstream_unreachable, Result, ok, err, circuit_breaker_key,
  is_retryable_error, ProviderConfig, get_provider_config,
}
use kryneth_oss.Router.Selection.{is_open}

-- What the network answers to a request: a response with its status, or a failure to connect.
pub data Sent : Type 0 where
  response : ℕ → Text → Sent
  unreachable : Text → Sent

-- `PreparedUpstreamRequest`, with the request that is built for the primary target.
pub record Prepared (R : Type 0) : Type 0 where
  pub tenant_id : Text
  pub primary_request : R
  pub primary_target : UpstreamTarget
  pub fallback_targets : List UpstreamTarget
  pub provider_config : ProviderConfig
  pub model : Text
  pub requested_provider : Text
  pub executed_provider : Text
  pub is_hot_swapped : ℕ
  pub accept_header : Text

-- A response that is handed on: its status and body, the alias of the key that earned it, the flag
-- of a hot swap and the provider.
pub record Answer : Type 0 where
  pub status : ℕ
  pub body : Text
  pub key_alias : Text
  pub hot_swapped : ℕ
  pub executed_provider : Text

-- What a run leaves: its result, the circuit breaker, the request body as the builds left it, and
-- the aliases to which a request was sent, in order.
pub record Run : Type 0 where
  pub outcome : Result Answer
  pub breaker : Breaker
  pub body : Bytes
  pub attempts : List Text

abbrev pub sent_to : Text → Run → Run
sent_to key_alias r = record r { attempts = key_alias ∷ r.attempts }

abbrev pub open_circuit : Text → UpstreamTarget → Breaker → Breaker
open_circuit tenant_id t breaker = insert (circuit_breaker_key tenant_id t.api_key_alias) tt breaker

abbrev pub provider_returned : ℕ → GatewayError
provider_returned status = response_build (codes "Provider returned " ++ decimal status)

abbrev pub fallback_returned : Text → ℕ → GatewayError
fallback_returned key_alias status =
    response_build (codes "Fallback target " ++ (key_alias ++ (codes " HTTP " ++ decimal status)))

-- `build` is `build_provider_request`, which may rewrite the body that it is given; `send n` is the
-- network's answer to the request sent after `n` others.
module _ {R : Type 0} (u : Unicode)
    (build : ProviderConfig → UpstreamTarget → Text → Text → Option Text → Bytes → Result R × Bytes)
    (send : ℕ → R → Sent) where
  abbrev answer : ℕ → Text → UpstreamTarget → ℕ → Text → Answer
  answer status body t hot_swapped provider = record {
    status = status;
    body = body;
    key_alias = t.api_key_alias;
    hot_swapped = hot_swapped;
    executed_provider = provider;
  }

  -- The `match req_builder.send().await` of a fallback: `rest` goes on with the next target.
  unfoldable pub on_fallback_sent :
      Text → UpstreamTarget → ProviderConfig → Breaker → Bytes → Sent → (GatewayError → Run) → Run
  on_fallback_sent tenant_id t config breaker body (response status text) rest =
      if is_retryable_error status
      then rest (fallback_returned t.api_key_alias status)
      else record {
        outcome = ok (answer status text t 1 config.id);
        breaker = breaker;
        body = body;
        attempts = [];
      }
  on_fallback_sent tenant_id t config breaker body (unreachable e) rest =
      rest (upstream_unreachable e)

  -- The loop over the fallbacks, from the number of requests sent and the last error on.
  unfoldable pub try_fallbacks :
      Text → Text → List UpstreamTarget → ℕ → Breaker → Bytes → GatewayError → Run
  unfolding on_fallback_sent
  try_fallbacks tenant_id model [] n breaker body last_error = record {
    outcome = err last_error;
    breaker = breaker;
    body = body;
    attempts = [];
  }
  try_fallbacks tenant_id model (t ∷ ts) n breaker body last_error =
      let config = get_provider_config u t.schema_format in
      let (built, body') = build config t model (codes "application/json") none body in
      let skipped = try_fallbacks tenant_id model ts n breaker body last_error in
      let unbuilt = try_fallbacks tenant_id model ts n breaker body' last_error in
      if is_open tenant_id breaker t then skipped else elim built [
        | err e ↦ unbuilt
        | ok request ↦ sent_to t.api_key_alias (
            on_fallback_sent tenant_id t config breaker body' (send n request) (λ e.
              try_fallbacks tenant_id model ts (n + 1) (open_circuit tenant_id t breaker) body' e))
      ]

  on_primary_sent : Prepared R → Breaker → Bytes → Sent → Run
  unfolding try_fallbacks
  on_primary_sent prep breaker body (response status text) =
      let t = prep.primary_target in
      let rest =
        try_fallbacks prep.tenant_id prep.model prep.fallback_targets 1
          (open_circuit prep.tenant_id t breaker) body (provider_returned status) in
      if is_retryable_error status then rest else record {
        outcome = ok (answer status text t 0 prep.executed_provider);
        breaker = breaker;
        body = body;
        attempts = [];
      }
  on_primary_sent prep breaker body (unreachable e) =
      try_fallbacks prep.tenant_id prep.model prep.fallback_targets 1
        (open_circuit prep.tenant_id prep.primary_target breaker) body (upstream_unreachable e)

  unfoldable pub execute_upstream_request : Prepared R → Breaker → Bytes → Run
  unfolding on_primary_sent
  execute_upstream_request prep breaker body =
      sent_to prep.primary_target.api_key_alias
        (on_primary_sent prep breaker body (send 0 prep.primary_request))
