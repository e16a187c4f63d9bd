-- ===== src/Errors/Opaque.antt =====
-- What a client learns of an error, and with which status.
use kryneth_oss.Prelude.{ℕ, ◌≤◌, ◌≡◌, refl, true, false, Option, none, some, Text, codes, arith}
use kryneth_oss.Errors

-- The answer to an error is that to the error without its text: no text that an error carries,
-- such as that of a failed query, reaches the client, in the status, the body or the headers.
pub into_response-redact :
    (e : Errors.GatewayError) → Errors.into_response (Errors.redact e) ≡ Errors.into_response e
unfolding Errors.into_response Errors.redact
into_response-redact (Errors.upstream_unreachable e) = refl
into_response-redact e = refl

-- What a log line at the level of an error goes with.
abbrev IsServerFault : Errors.LogLine → ℕ → Type 0
IsServerFault (Errors.error_line t) status = (500 ≤ status) × (status ≤ 503)
IsServerFault _ status = Unit

-- Only the exhausted loop budget asks the client to retry, after 300 seconds and with status 429.
abbrev IsPaused : Option Text → Errors.GatewayError → ℕ → Type 0
IsPaused none e status = Unit
IsPaused (some t) e status =
    (t ≡ codes "300") × (status ≡ 429) × ((d : Text) × (e ≡ Errors.agent_loop_budget_exceeded d))

-- Every error is answered with a client's or a server's error, at most 504. What is logged as an
-- internal error, with its details, is answered with 500 to 503. Only an exhausted loop budget is
-- answered with Retry-After, which is 300, and with status 429.
pub into_response_status :
    (e : Errors.GatewayError)
    → (400 ≤ (Errors.into_response e).status)
      × ((Errors.into_response e).status ≤ 504)
      × IsServerFault (Errors.logged e) (Errors.into_response e).status
      × IsPaused (Errors.into_response e).retry_after e (Errors.into_response e).status
unfolding Errors.into_response Errors.logged
into_response_status (Errors.agent_loop_budget_exceeded d) =
    (omega arith, omega arith, tt, (refl, refl, (d, refl)))
into_response_status (Errors.upstream_unreachable e) = ground arith
into_response_status e = ground arith

-- The status of a failed upstream request is 504 for a timeout and 503 otherwise: one variant has
-- two statuses.
pub upstream_statuses :
    (t : Text)
    → ((Errors.into_response
          (Errors.upstream_unreachable (record { is_timeout = true; text = t }))).status
        ≡ 504)
      × ((Errors.into_response
            (Errors.upstream_unreachable (record { is_timeout = false; text = t }))).status
          ≡ 503)
unfolding Errors.into_response
upstream_statuses t = (refl, refl)
