-- ===== src/Router.antt =====
-- The LLM router, src/infrastructure/llm_router.rs: the provider table, the selection of targets
-- with the circuit breaker, and the failover loop. The network is the environment: `Sent` is what
-- `send().await` returns. Building a request depends on the translation of bodies by the provider
-- plugins, and is the parameter `build`.
mod Examples
pub mod Selection
pub mod Failover
pub mod Rewrite
use kryneth_oss.Prelude.{
  ℕ, ◌+◌, ◌*◌, ◌≡◌, ◌⊎◌, inl, inr, refl, Bool, true, false, ◌||◌, ◌&&◌, Option, none, some, List,
  [], ◌∷◌, ◌++◌, Text, Bytes, Map, codes, lookup, insert, text_eq, leb, ltb, ◌==◌, if◌then◌else◌,
  Unicode, starts_with, contains, trim, any, take,
}
use kryneth_oss.Config.{UpstreamTarget, ModelConfig, RoutingState}

pub data AuthScheme : Type 0 where
  bearer x_api_key google_api_key : AuthScheme

pub data SchemaFormat : Type 0 where
  open_ai anthropic gemini cohere : SchemaFormat

pub record ProviderConfig : Type 0 where
  pub id : Text
  pub base_url : Text
  pub auth_scheme : AuthScheme
  pub schema_format : SchemaFormat

abbrev formats : Text → SchemaFormat × AuthScheme
formats provider =
    if text_eq provider (codes "anthropic")
    then (anthropic, x_api_key)
    else if text_eq provider (codes "gemini") || text_eq provider (codes "google")
    then (gemini, google_api_key)
    else if text_eq provider (codes "cohere")
    then (cohere, bearer)
    else (open_ai, bearer)

unfoldable pub get_provider_config : Unicode → Text → ProviderConfig
get_provider_config u provider_name =
    let provider = u.to_lowercase provider_name in
    let (schema, auth) = formats provider in
    record { id = provider; base_url = []; auth_scheme = auth; schema_format = schema }

-- `"tools"` or `"tool_calls"`, with their quotes, in the first 16384 bytes.
unfoldable pub request_has_tools : Bytes → Bool
request_has_tools body =
    let slice = take 16384 body in
    contains (codes "\"tools\"") slice || contains (codes "\"tool_calls\"") slice

unfoldable pub is_retryable_error : ℕ → Bool
is_retryable_error status =
    status == 401
    || status == 403
    || status == 404
    || status == 408
    || status == 429
    || status == 500
    || status == 502
    || status == 503
    || status == 504

unfoldable pub circuit_breaker_key : Text → Text → Text
circuit_breaker_key tenant_id key_alias = tenant_id ++ (codes "::" ++ key_alias)

-- The circuit breaker's entries that have not expired.
abbrev pub Breaker : Type 0
Breaker = Map (Unit {0})

pub data GatewayError : Type 0 where
  missing_model : GatewayError
  invalid_json : Text → GatewayError
  model_not_configured : Text → GatewayError
  no_active_keys : GatewayError
  response_build : Text → GatewayError
  upstream_unreachable : Text → GatewayError

-- `Result<T, GatewayError>`
pub data Result {ℓ} (T : Type ℓ) : Type ℓ where
  err : GatewayError → Result T
  ok : T → Result T

pub Result-cases {ℓ} :
    {T : Type ℓ} (r : Result T) → ((t : T) × (r ≡ ok t)) ⊎ ((e : GatewayError) × (r ≡ err e))
Result-cases (err e) = inr (e, refl)
Result-cases (ok t) = inl (t, refl)

-- `ok_or_else`
abbrev pub ok_or {ℓ} : {T : Type ℓ} → Option T → GatewayError → Result T
ok_or (some t) e = ok t
ok_or none e = err e

-- The operator `?`.
infixl 5 ◌>>=◌
abbrev pub ◌>>=◌ {ℓ κ} : {S : Type ℓ} {T : Type κ} → Result S → (S → Result T) → Result T
err e >>= next = err e
ok s >>= next = next s

-- A lookup whose failure ends the function: where the function succeeds, so did the lookup.
pub ok_or_then {ℓ κ} :
    {S : Type ℓ} {T : Type κ} (found : Option S) (e : GatewayError) (next : S → Result T) {t : T}
    → (ok_or found e >>= next) ≡ ok t
    → (s : S) × (found ≡ some s) × (next s ≡ ok t)
ok_or_then (some s) e next h = (s, refl, h)
ok_or_then none e next h = cc
