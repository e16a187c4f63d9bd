-- ===== src/Errors.antt =====
-- The gateway's errors, src/error.rs: the variants, what a client is answered, and what is logged.
-- Of an error of reqwest the model has whether it is a timeout, and its text.
mod Examples
pub mod Opaque
use kryneth_oss.Prelude.{
  ℕ, ◌≤◌, ◌<◌, ◌≡◌, ◌↔◌, refl, Bool, true, false, Option, none, some, [], ◌++◌, Text, codes,
  if◌then◌else◌, arith,
}

pub record ReqwestError : Type 0 where
  pub is_timeout : Bool
  pub text : Text

pub data GatewayError : Type 0 where
  unauthorized forbidden tenant_not_found invalid_tenant_id : GatewayError
  database_error response_build invalid_json : Text → GatewayError
  missing_model : GatewayError
  upstream_unreachable proxy : ReqwestError → GatewayError
  compliance_failure security_timeout rate_limit_exceeded loop_detected : Text → GatewayError
  agent_runaway_loop agent_tool_storm agent_loop_budget_exceeded : Text → GatewayError
  burn_rate_exceeded model_not_configured : Text → GatewayError
  routing_state_missing no_active_keys insufficient_funds : GatewayError
  billing_anomaly billing_unavailable configuration_error internal_error : Text → GatewayError

-- The `#[error(…)]` attributes.
unfoldable pub display : GatewayError → Text
display unauthorized = codes "Missing or invalid API key"
display forbidden = codes "Insufficient permissions"
display tenant_not_found = codes "Tenant not found"
display invalid_tenant_id = codes "Invalid tenant ID format"
display (database_error t) = codes "Database error: " ++ t
display (response_build t) = codes "Failed to build proxy request/response: " ++ t
display (invalid_json t) = codes "Invalid JSON payload: " ++ t
display missing_model = codes "Missing model parameter in request"
display (upstream_unreachable e) = codes "LLM Provider unreachable: " ++ e.text
display (proxy e) = codes "Gateway internal error: " ++ e.text
display (compliance_failure t) = codes "Compliance block: " ++ t
display (security_timeout t) = codes "Security timeout: " ++ t
display (rate_limit_exceeded t) = codes "Rate Limit Exceeded: " ++ t
display (loop_detected t) = codes "Agent loop detected: " ++ t
display (agent_runaway_loop t) = codes "Agent runaway loop detected: " ++ t
display (agent_tool_storm t) = codes "Agent tool storm detected: " ++ t
display (agent_loop_budget_exceeded t) = codes "Agent loop budget exceeded: " ++ t
display (burn_rate_exceeded t) = codes "Burn rate exceeded: " ++ t
display (model_not_configured t) = codes "Model not configured: " ++ t
display routing_state_missing = codes "Routing state missing"
display no_active_keys = codes "No active keys available for routing"
display insufficient_funds = codes "Insufficient funds in wallet"
display (billing_anomaly t) = codes "Billing calculation anomaly: " ++ t
display (billing_unavailable t) = codes "Billing system is temporarily unavailable: " ++ t
display (configuration_error t) = codes "Configuration error: " ++ t
display (internal_error t) = codes "Internal gateway error: " ++ t

-- The two shapes of an error's JSON body: its message, type and code, or its code and message.
pub data ErrorBody : Type 0 where
  loop_limit : Text → Text → Text → ErrorBody
  opaque : Text → Text → ErrorBody

pub record Response : Type 0 where
  pub status : ℕ
  pub body : ErrorBody
  pub retry_after : Option Text

abbrev plain : ℕ → Text → Text → Response
plain status code message = record {
  status = status;
  body = opaque code message;
  retry_after = none;
}

unfoldable pub into_response : GatewayError → Response
into_response (agent_loop_budget_exceeded _) = record {
  status = 429;
  body =
      loop_limit (codes "Kryneth Guard: Agent loop budget exceeded. This session has been paused.")
        (codes "kryneth_loop_limit") (codes "agent_loop_exceeded");
  retry_after = some (codes "300");
}
into_response unauthorized = plain 401 (codes "UNAUTHORIZED") (codes "Missing or invalid API key.")
into_response forbidden =
    plain 403 (codes "FORBIDDEN") (codes "Insufficient permissions for this resource.")
into_response tenant_not_found =
    plain 404 (codes "TENANT_NOT_FOUND") (codes "The requested tenant was not found.")
into_response invalid_tenant_id =
    plain 400 (codes "INVALID_TENANT_ID") (codes "Tenant ID is not a valid UUID.")
into_response (database_error _) =
    plain 500 (codes "DATABASE_ERROR") (codes "A database error occurred. Please try again later.")
into_response (response_build _) =
    plain 500 (codes "INTERNAL_ERROR")
      (codes "An internal error occurred while building the response.")
into_response (invalid_json _) =
    plain 400 (codes "INVALID_JSON") (codes "Malformed or invalid JSON payload.")
into_response missing_model =
    plain 400 (codes "MISSING_MODEL") (codes "Missing 'model' parameter in request.")
into_response (upstream_unreachable e) =
    if e.is_timeout
    then plain 504 (codes "GATEWAY_TIMEOUT") (codes "The upstream request timed out.")
    else plain 503 (codes "UPSTREAM_ERROR")
        (codes "The upstream LLM service is currently unreachable.")
into_response (compliance_failure _) =
    plain 503 (codes "COMPLIANCE_ERROR")
      (codes "Request blocked: compliance service rejected this payload.")
into_response (security_timeout _) =
    plain 503 (codes "SECURITY_TIMEOUT")
      (codes "Gateway Security Timeout: A required security or compliance service timed out.")
into_response (rate_limit_exceeded _) =
    plain 429 (codes "RATE_LIMITED") (codes "Rate limit exceeded. Please try again later.")
into_response (loop_detected _) =
    plain 429 (codes "AGENT_LOOP_DETECTED")
      (codes "Agent recursive loop detected. This session has been blocked.")
into_response (agent_runaway_loop _) = plain 429 (codes "AGENT_RUNAWAY_LOOP") (
    codes
      "Kryneth Guard: Agent infinite loop detected for identical tool signature. Request blocked.")
into_response (agent_tool_storm _) =
    plain 429 (codes "AGENT_TOOL_STORM")
      (codes "Kryneth Guard: Tool storm detected (too many distinct tool calls). Request blocked.")
into_response (burn_rate_exceeded _) =
    plain 429 (codes "BURN_RATE_EXCEEDED")
      (codes "Session burn rate exceeded. Spending has been paused.")
into_response (proxy _) =
    plain 500 (codes "INTERNAL_ERROR")
      (codes "An internal error occurred while communicating with backend services.")
into_response (model_not_configured _) =
    plain 400 (codes "MODEL_NOT_CONFIGURED")
      (codes "The requested model is not configured for this tenant.")
into_response routing_state_missing =
    plain 500 (codes "ROUTING_STATE_MISSING") (codes "Routing state is missing or unavailable.")
into_response no_active_keys =
    plain 503 (codes "ALL_KEYS_EXHAUSTED") (codes "All configured keys exhausted.")
into_response insufficient_funds =
    plain 402 (codes "INSUFFICIENT_FUNDS") (codes "Insufficient wallet balance. Please top up.")
into_response (billing_anomaly _) =
    plain 500 (codes "BILLING_ANOMALY") (codes "Billing anomaly detected.")
into_response (billing_unavailable _) =
    plain 503 (codes "BILLING_UNAVAILABLE")
      (codes "The billing service is temporarily unavailable. Please try again later.")
into_response (configuration_error _) =
    plain 500 (codes "CONFIGURATION_ERROR") (codes "A configuration error occurred.")
into_response (internal_error _) =
    plain 500 (codes "INTERNAL_ERROR") (codes "An internal gateway error occurred.")

-- The log line that goes with a response: at the level of an error with the internal details, as a
-- warning without them, or none at all.
pub data LogLine : Type 0 where
  no_line warning : LogLine
  error_line : Text → LogLine

unfoldable pub logged : GatewayError → LogLine
unfolding display
logged (agent_loop_budget_exceeded _) = no_line
logged (database_error t) = error_line (display (database_error t))
logged (response_build t) = error_line (display (response_build t))
logged (proxy e) = error_line (display (proxy e))
logged routing_state_missing = error_line (display routing_state_missing)
logged (billing_anomaly t) = error_line (display (billing_anomaly t))
logged (billing_unavailable t) = error_line (display (billing_unavailable t))
logged (configuration_error t) = error_line (display (configuration_error t))
logged (internal_error t) = error_line (display (internal_error t))
logged _ = warning

-- An error without the text that it carries; of a failed request it keeps whether it is a timeout.
abbrev cleared : ReqwestError → ReqwestError
cleared e = record e { text = [] }

unfoldable pub redact : GatewayError → GatewayError
redact (database_error _) = database_error []
redact (response_build _) = response_build []
redact (invalid_json _) = invalid_json []
redact (upstream_unreachable e) = upstream_unreachable (cleared e)
redact (proxy e) = proxy (cleared e)
redact (compliance_failure _) = compliance_failure []
redact (security_timeout _) = security_timeout []
redact (rate_limit_exceeded _) = rate_limit_exceeded []
redact (loop_detected _) = loop_detected []
redact (agent_runaway_loop _) = agent_runaway_loop []
redact (agent_tool_storm _) = agent_tool_storm []
redact (agent_loop_budget_exceeded _) = agent_loop_budget_exceeded []
redact (burn_rate_exceeded _) = burn_rate_exceeded []
redact (model_not_configured _) = model_not_configured []
redact (billing_anomaly _) = billing_anomaly []
redact (billing_unavailable _) = billing_unavailable []
redact (configuration_error _) = configuration_error []
redact (internal_error _) = internal_error []
redact e = e
