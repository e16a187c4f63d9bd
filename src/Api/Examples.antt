-- ===== src/Api/Examples.antt =====
-- The theorems about the HTTP layer at a request with a token.
use kryneth_oss.Prelude.{
  ℕ, ◌≡◌, ◌⊎◌, refl, sym, true, false, none, some, [], ◌∷◌, Text, Bytes, Map, codes, lookup, insert,
  text_eq, starts_with, trim, is_whitespace,
}
use kryneth_oss.Api.{Http, post, admin, solo, Claims, Request, header, trimmed_header, set_header}
use kryneth_oss.Api.Auth.{
  refused, next, Surroundings, is_open, is_loopback, is_localhost_header, local_claims, is_local,
  as_local, is_state_changing, csrf_present, lacks_csrf, verify_jwt, admit, handle_jwt,
  authenticate, auth_middleware, require_admin,
}
use kryneth_oss.Api.Token.{
  strip_prefix, is_api_key, bearer_token, key_token, session_cookie, first_session, split,
  cookie_token, token_of,
}
use kryneth_oss.Api.Auth.Tenant.{tenant_header, auth_middleware-set_header}
use kryneth_oss.Api.Auth.Access.{IsCredential, AdminToken, auth_middleware-host}
use kryneth_oss.Api.Context.{
  Balance, balance, billing_guard_middleware, entered, proxy_route, admin_layer, admin_route,
}
use kryneth_oss.Api.Context.Routes.{IsFunded, admin_route_lem, proxy_route_lem}

abbrev http : Http
http = record { to_str = some; from_str = some; to_str-from_str = λ s v e. sym e }

abbrev boss : Claims
boss = record {
  sub = codes "u";
  tenant_id = codes "t1";
  exp = 9;
  role = admin;
  account_type = solo;
  team_id = none;
  api_key_alias = none;
}

abbrev around : Surroundings
around = record {
  http = http;
  decode = λ secret token. some boss;
  secret = some (codes "s");
  canonical = some;
  sha256 = λ s. s;
  resolve_api_key = λ h. none;
}

abbrev request : Map Bytes → Request
request headers = record {
  method = post;
  path = codes "/v1/admin/dashboard";
  headers = headers;
  loopback_peer = some false;
  claims = none;
}

abbrev with_bearer : Request
with_bearer = request ((codes "authorization", codes "Bearer a.b.c") ∷ [])

abbrev with_cookie : Request
with_cookie = request ((codes "cookie", codes "x=1; re_token=a.b.c") ∷ [])

abbrev with_host : Request
with_host = request ((codes "host", codes "localhost:8080") ∷ [])

auth_middleware-set_header_example :
    auth_middleware around (set_header tenant_header (codes "t2") with_bearer)
    ≡ auth_middleware around with_bearer
unfolding is_open text_eq
auth_middleware-set_header_example = auth_middleware-set_header around (codes "t2") with_bearer refl

abbrev admitted : Request
admitted = record (set_header tenant_header (codes "t1") with_bearer) { claims = some boss }

bearer_remote : is_local http with_bearer ≡ false
unfolding is_local is_loopback is_localhost_header header lookup text_eq
bearer_remote = refl

bearer_admitted : auth_middleware around with_bearer ≡ next admitted
unfolding auth_middleware is_open is_local is_loopback is_localhost_header authenticate token_of
    bearer_token strip_prefix is_api_key starts_with header lookup text_eq handle_jwt lacks_csrf
    verify_jwt admit set_header insert trimmed_header
bearer_admitted = refl

bearer_allowed : admin_route around with_bearer ≡ next admitted
unfolding admin_route admin_layer require_admin set_header auth_middleware is_open is_local
    is_loopback is_localhost_header authenticate token_of bearer_token strip_prefix is_api_key
    starts_with header lookup text_eq handle_jwt lacks_csrf verify_jwt admit insert trimmed_header
bearer_allowed = refl

admin_route_lem_example : (is_local http with_bearer ≡ true) ⊎ AdminToken around with_bearer
admin_route_lem_example = admin_route_lem around with_bearer admitted refl bearer_allowed

refused_cookie : authenticate around with_cookie ≡ refused 403
unfolding authenticate token_of bearer_token key_token cookie_token first_session session_cookie
    strip_prefix starts_with split header lookup text_eq trim is_whitespace handle_jwt lacks_csrf
    is_state_changing csrf_present
refused_cookie = refl

abbrev with_nonce : Request
with_nonce =
    request
      ((codes "cookie", codes "x=1; re_token=a.b.c") ∷ (codes "x-csrf-token", codes " n") ∷ [])

abbrev passed_cookie : Request
passed_cookie = record (set_header tenant_header (codes "t1") with_nonce) { claims = some boss }

auth_middleware-host_example :
    (auth_middleware around with_host ≡ next (as_local with_host))
    × (require_admin local_claims (as_local with_host) ≡ next (as_local with_host))
unfolding is_open header lookup text_eq
auth_middleware-host_example = auth_middleware-host around with_host (codes "8080") refl refl

abbrev balance_of : Text → Balance ℕ
balance_of t = balance 5

bearer_entered : proxy_route around balance_of with_bearer ≡ entered admitted (some 5)
unfolding proxy_route billing_guard_middleware auth_middleware is_open is_local is_loopback
    is_localhost_header authenticate token_of bearer_token strip_prefix is_api_key starts_with
    header lookup text_eq handle_jwt lacks_csrf verify_jwt admit set_header insert trimmed_header
    trim is_whitespace
bearer_entered = refl

proxy_route_lem_example :
    (t : Text) × (c : Claims) × (admitted.claims ≡ some c)
    × (header http (codes "x-tenant-id") admitted ≡ some t)
    × IsCredential around with_bearer t c
    × IsFunded balance_of (trim t) (some 5)
unfolding is_open text_eq set_header
proxy_route_lem_example =
    proxy_route_lem around balance_of with_bearer admitted (some 5) refl bearer_remote
      bearer_entered refl
