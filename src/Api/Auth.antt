-- ===== src/Api/Auth.antt =====
-- The middlewares of src/api/middleware/auth.rs. One ends with a status, or passes the request on.
-- Parameters: `sha256` is the hex text of the hash of a text, `decode` verifies and decodes a token with a secret (crate jsonwebtoken), `canonical` is
-- `Uuid::parse_str` followed by `to_string` (crate uuid).
pub mod Tenant
pub mod Access
pub mod Csrf
use kryneth_oss.Prelude.{
  ℕ, Bool, true, false, not, ◌&&◌, ◌||◌, Option, none, some, [], Text, Bytes, codes, text_eq, trim,
  length, ltb, if◌then◌else◌,
}
use kryneth_oss.Api.{
  Http, Method, get, head, options, admin, developer, AccountType, solo, team, enterprise, Claims,
  Request, header, trimmed_header, set_header,
}
use kryneth_oss.Api.Token.{
  JwtSource, bearer_header, cookie, api_key, jwt, before, or_else, token_of,
}

-- `Result<Response, StatusCode>`, where the response is that of the rest to the request.
pub data Outcome : Type 0 where
  refused : ℕ → Outcome
  next : Request → Outcome

abbrev pub local_tenant : Text
local_tenant = codes "00000000-0000-0000-0000-000000000000"

-- `is_loopback`
unfoldable pub is_loopback : Request → Bool
is_loopback q = elim q.loopback_peer [ none ↦ false | some b ↦ b ]

unfoldable pub is_local_host : Text → Bool
unfolding before
is_local_host host_str =
    let host_part = before 58 host_str in
    text_eq host_part (codes "localhost")
    || text_eq host_part (codes "127.0.0.1")
    || text_eq host_part (codes "[::1]")
    || text_eq host_part (codes "::1")

-- `is_localhost_header`
unfoldable pub is_localhost_header : Http → Request → Bool
unfolding is_local_host header
is_localhost_header http q = elim (header http (codes "host") q) [
  | none ↦ false
  | some host_str ↦ is_local_host host_str
]

abbrev pub local_claims : Claims
local_claims = record {
  sub = codes "localhost_admin";
  tenant_id = local_tenant;
  exp = 0;
  role = admin;
  account_type = solo;
  team_id = none;
  api_key_alias = none;
}

unfoldable pub require_admin : Claims → Request → Outcome
require_admin claims q = elim claims.role [ admin ↦ next q | _ ↦ refused 403 ]

unfoldable pub require_team_plan : Claims → Request → Outcome
require_team_plan claims q = elim claims.account_type [ solo ↦ refused 403 | _ ↦ next q ]

unfoldable pub is_state_changing : Method → Bool
is_state_changing get = false
is_state_changing head = false
is_state_changing options = false
is_state_changing _ = true

unfoldable pub csrf_present : Http → Request → Bool
unfolding header
csrf_present http q = elim (header http (codes "x-csrf-token") q) [
  | none ↦ false
  | some s ↦ ltb 0 (length (trim s))
]

-- The guard at the top of `handle_jwt`.
unfoldable pub lacks_csrf : Http → JwtSource → Request → Bool
unfolding is_state_changing csrf_present
lacks_csrf http bearer_header q = false
lacks_csrf http cookie q = is_state_changing q.method && not (csrf_present http q)

-- `verify_jwt`, on the variable `JWT_SECRET`; the status of its error, or the claims.
pub data Verified : Type 0 where
  invalid : ℕ → Verified
  valid : Claims → Verified

unfoldable pub verify_jwt : (Text → Text → Option Claims) → Option Text → Text → Verified
verify_jwt decode none token = invalid 500
verify_jwt decode (some secret) token = elim (decode secret token) [
  | none ↦ invalid 401
  | some claims ↦ valid claims
]

-- The end of both handlers: the header of the tenant, and the claims.
unfoldable pub admit : Http → Text → Claims → Request → Outcome
unfolding set_header
admit http tenant_id claims q = elim (http.from_str tenant_id) [
  | none ↦ refused 500
  | some v ↦ next (record (set_header (codes "x-tenant-id") v q) { claims = some claims })
]

module _ (http : Http) (decode : Text → Text → Option Claims) (secret : Option Text)
    (canonical : Text → Option Text) where
  -- What the claims lack is filled from the headers.
  abbrev pub with_headers : Request → Claims → Claims
  with_headers q claims = record claims {
    team_id = or_else claims.team_id (trimmed_header http (codes "x-team-id") q);
    api_key_alias = or_else claims.api_key_alias (trimmed_header http (codes "x-api-key-alias") q);
  }

  unfoldable pub handle_jwt : Text → JwtSource → Request → Outcome
  unfolding lacks_csrf verify_jwt admit
  handle_jwt token source q =
      if lacks_csrf http source q then refused 403 else elim (verify_jwt decode secret token) [
        | invalid status ↦ refused status
        | valid claims ↦ elim (canonical claims.tenant_id) [
          | none ↦ refused 401
          | some tenant_id ↦ admit http tenant_id (with_headers q claims) q
        ]
      ]

module _ (http : Http) (sha256 : Text → Text) (resolve_api_key : Text → Option (Text × Text)) where
  abbrev account_of : Text → AccountType
  account_of s =
      if text_eq s (codes "team")
      then team
      else if text_eq s (codes "enterprise")
      then enterprise
      else solo

  abbrev pub key_claims : Text → Text → Request → Claims
  key_claims tenant_id account q = record {
    sub = codes "api_key";
    tenant_id = tenant_id;
    exp = 0;
    role = developer;
    account_type = account_of account;
    team_id = trimmed_header http (codes "x-team-id") q;
    api_key_alias = trimmed_header http (codes "x-api-key-alias") q;
  }

  unfoldable pub handle_api_key : Text → Request → Outcome
  unfolding admit
  handle_api_key key q = elim (resolve_api_key (sha256 key)) [
    | none ↦ refused 401
    | some (tenant_id, account) ↦ admit http tenant_id (key_claims tenant_id account q) q
  ]

-- What the middleware takes from its surroundings.
pub record Surroundings : Type 0 where
  pub http : Http
  pub decode : Text → Text → Option Claims
  pub secret : Option Text
  pub canonical : Text → Option Text
  pub sha256 : Text → Text
  pub resolve_api_key : Text → Option (Text × Text)

unfoldable pub is_open : Request → Bool
is_open q = elim q.method [
  | options ↦ true
  | _ ↦ text_eq q.path (codes "/health") || text_eq q.path (codes "/v1/health")
]

unfoldable pub is_local : Http → Request → Bool
unfolding is_loopback is_localhost_header
is_local http q = is_loopback q || is_localhost_header http q

abbrev ascii_bytes : Text → Bytes
ascii_bytes s = s

abbrev pub as_local : Request → Request
as_local q = record (set_header (codes "x-tenant-id") (ascii_bytes local_tenant) q) {
  claims = some local_claims;
}

-- The part behind the exemptions.
unfoldable pub authenticate : Surroundings → Request → Outcome
unfolding token_of handle_jwt handle_api_key
authenticate s q = elim (token_of s.http q) [
  | none ↦ refused 401
  | some (token, kind) ↦ elim kind [
    | api_key ↦ handle_api_key s.http s.sha256 s.resolve_api_key token q
    | jwt source ↦ handle_jwt s.http s.decode s.secret s.canonical token source q
  ]
]

unfoldable pub auth_middleware : Surroundings → Request → Outcome
unfolding is_open is_local authenticate
auth_middleware s q =
    if is_open q then next q else if is_local s.http q then next (as_local q) else authenticate s q
