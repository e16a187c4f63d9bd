-- ===== src/Api/Auth/Access.antt =====
-- Whom the authentication lets in, and as what.
use kryneth_oss.Prelude.{
  ◌≡◌, inl, inr, refl, sym, ap, ◌∙◌, true, false, some, ◌++◌, Text, codes, lookup-insert_self,
  text_eq, arith, Bool-cases, Option-cases,
}
use mathlib.Core.Path.{subst}
use kryneth_oss.Api.{Role, admin, developer, viewer, Claims, Request, header, set_header}
use kryneth_oss.Api.Auth.{
  Outcome, refused, next, is_local_host, is_localhost_header, local_claims, lacks_csrf, invalid,
  valid, verify_jwt, admit, with_headers, key_claims, handle_jwt, handle_api_key, Surroundings,
  is_open, is_local, as_local, authenticate, auth_middleware, require_admin,
}
use kryneth_oss.Api.Token.{JwtSource, api_key, jwt, before, token_of}
use kryneth_oss.Api.Token.Carried.{IsCarried, token_of-IsCarried}
use kryneth_oss.Api.Auth.Tenant.{tenant_header, Verified-cases}

-- The credential behind a request that is passed on for tenant `t` with the claims `c`, which the
-- request carries as the one that counts: a token that the secret verifies, whose tenant has the canonical form `t` and whose role the claims have, or an
-- API key whose hash belongs to `t`, with the role of a developer.
pub data IsCredential (s : Surroundings) (q : Request) (t : Text) (c : Claims) : Type 0 where
  by_token :
      (source : JwtSource) (secret token : Text) (c' : Claims)
      → IsCarried s.http q token (jwt source)
      → s.secret ≡ some secret
      → s.decode secret token ≡ some c'
      → s.canonical c'.tenant_id ≡ some t
      → c.role ≡ c'.role
      → c.tenant_id ≡ c'.tenant_id
      → IsCredential s q t c
  by_key :
      (key account : Text)
      → IsCarried s.http q key api_key
      → s.resolve_api_key (s.sha256 key) ≡ some (t, account)
      → c.role ≡ developer
      → c.tenant_id ≡ t
      → IsCredential s q t c

-- What is passed on of the request `q` names the tenant of its credential in its header.
unfoldable pub IsAdmitted : Surroundings → Request → Request → Type 0
IsAdmitted s q q' =
    (t : Text) × (c : Claims) × (q'.claims ≡ some c)
    × (header s.http (codes "x-tenant-id") q' ≡ some t)
    × IsCredential s q t c

request_of : Request → Outcome → Request
request_of d (refused _) = d
request_of d (next q) = q

next_injective : (q q' : Request) → next q ≡ next q' → q ≡ q'
unfolding request_of
next_injective q q' e = ap (request_of q) e

admit_lem :
    (s : Surroundings) (t : Text) (c : Claims) (q q' : Request)
    → IsCredential s q t c
    → admit s.http t c q ≡ next q'
    → IsAdmitted s q q'
unfolding IsAdmitted set_header header admit
admit_lem s t c q q' credential h = elim (Option-cases (s.http.from_str t)) [
  | inl e ↦ let stop : refused 500 ≡ next q' = rw (admit, e) at h in cc
  | inr (v, e) ↦
      let admitted = record (set_header tenant_header v q) { claims = some c } in
      let passed : next admitted ≡ next q' = rw (admit, e) at h in
      subst (IsAdmitted s q) (next_injective admitted q' passed) (
        t,
        c,
        refl,
        rw (header, lookup-insert_self tenant_header v q.headers) (s.http.to_str-from_str t v e),
        credential,
      )
]

verified :
    (s : Surroundings) (token : Text) (c : Claims)
    → verify_jwt s.decode s.secret token ≡ valid c
    → (secret : Text) × (s.secret ≡ some secret) × (s.decode secret token ≡ some c)
unfolding verify_jwt
verified s token c h = elim (Option-cases s.secret) [
  | inl e ↦ let stop : invalid 500 ≡ valid c = rw (verify_jwt, e) at h in cc
  | inr (secret, e) ↦ elim (Option-cases (s.decode secret token)) [
    | inl d ↦ let stop : invalid 401 ≡ valid c = rw (verify_jwt, e, d) at h in cc
    | inr (c', d) ↦ let same : valid c' ≡ valid c = rw (verify_jwt, e, d) at h in (secret, e, cc)
  ]
]

handle_jwt_lem :
    (s : Surroundings) (token : Text) (source : JwtSource) (q q' : Request)
    → handle_jwt s.http s.decode s.secret s.canonical token source q ≡ next q'
    → IsCarried s.http q token (jwt source)
    → IsAdmitted s q q'
unfolding handle_jwt
handle_jwt_lem s token source q q' h carried = elim (Bool-cases (lacks_csrf s.http source q)) [
  | inl e ↦ let stop : refused 403 ≡ next q' = rw (handle_jwt, e) at h in cc
  | inr e ↦ elim (Verified-cases (verify_jwt s.decode s.secret token)) [
    | inl (status, w) ↦ let stop : refused status ≡ next q' = rw (handle_jwt, e, w) at h in cc
    | inr (c, w) ↦ elim (Option-cases (s.canonical c.tenant_id)) [
      | inl m ↦ let stop : refused 401 ≡ next q' = rw (handle_jwt, e, w, m) at h in cc
      | inr (t, m) ↦
          let (secret, es, ed) = verified s token c w in
          let filled = with_headers s.http s.decode s.secret s.canonical q c in
          admit_lem s t filled q q' (by_token source secret token c carried es ed m refl refl)
            (rw (handle_jwt, e, w, m) at h)
    ]
  ]
]

handle_api_key_lem :
    (s : Surroundings) (key : Text) (q q' : Request)
    → handle_api_key s.http s.sha256 s.resolve_api_key key q ≡ next q'
    → IsCarried s.http q key api_key
    → IsAdmitted s q q'
unfolding handle_api_key
handle_api_key_lem s key q q' h carried = elim (Option-cases (s.resolve_api_key (s.sha256 key))) [
  | inl e ↦ let stop : refused 401 ≡ next q' = rw (handle_api_key, e) at h in cc
  | inr ((t, account), e) ↦
      admit_lem s t (key_claims s.http s.sha256 s.resolve_api_key t account q) q q'
        (by_key key account carried e refl refl) (rw (handle_api_key, e) at h)
]

-- What the middleware passes on, of a request that is neither exempt nor local, carries claims and
-- the tenant's header of one credential: a token that the secret verifies, with the token's role, or
-- a known API key, with the role of a developer; the header is the canonical form of the token's
-- tenant, or the key's tenant.
pub auth_middleware-IsAdmitted :
    (s : Surroundings) (q q' : Request)
    → is_open q ≡ false
    → is_local s.http q ≡ false
    → auth_middleware s q ≡ next q'
    → IsAdmitted s q q'
unfolding auth_middleware authenticate
auth_middleware-IsAdmitted s q q' closed remote h =
    let entered : authenticate s q ≡ next q' = rw (auth_middleware, closed, remote) at h in
    elim (Option-cases (token_of s.http q)) [
      | inl e ↦ let stop : refused 401 ≡ next q' = rw (authenticate, e) at entered in cc
      | inr ((token, api_key), e) ↦
          handle_api_key_lem s token q q' (rw (authenticate, e) at entered)
            (token_of-IsCarried s.http q token api_key e)
      | inr ((token, jwt source), e) ↦
          handle_jwt_lem s token source q q' (rw (authenticate, e) at entered)
            (token_of-IsCarried s.http q token (jwt source) e)
    ]

pub require_admin_role :
    (c : Claims) (q q' : Request) → require_admin c q ≡ next q' → c.role ≡ admin
unfolding require_admin
require_admin_role c q q' h = go c.role h
  where
    go : (r : Role) → elim r [ admin ↦ next q | _ ↦ refused 403 ] ≡ next q' → r ≡ admin
    go admin k = refl
    go developer k = cc
    go viewer k = cc

-- A token of an administrator that the secret verifies, and that the request carries as its
-- credential.
abbrev pub AdminToken : Surroundings → Request → Type 0
AdminToken s q =
    (source : JwtSource) × (secret : Text) × (token : Text) × (c' : Claims) × IsCarried s.http q
      token (jwt source)
    × (s.secret ≡ some secret)
    × (s.decode secret token ≡ some c')
    × (c'.role ≡ admin)

pub admin_credential :
    (s : Surroundings) (q : Request) (t : Text) (c : Claims)
    → IsCredential s q t c
    → c.role ≡ admin
    → AdminToken s q
admin_credential s q t c (by_token source secret token c' carried es ed m role tenant) r =
    (source, secret, token, c', carried, es, ed, sym role ∙ r)
admin_credential s q t c (by_key key account carried e role tenant) r =
    let differ : admin ≡ developer = sym r ∙ role in cc

-- Behind the authentication an admin's route lets a request in only with the role of an admin of a
-- verified token that the request carries: no API key, and no header, gives a remote request that role.
pub require_admin-remote :
    (s : Surroundings) (q q' q'' : Request) (c : Claims)
    → is_open q ≡ false
    → is_local s.http q ≡ false
    → auth_middleware s q ≡ next q'
    → q'.claims ≡ some c
    → require_admin c q' ≡ next q''
    → AdminToken s q
unfolding IsAdmitted
require_admin-remote s q q' q'' c closed remote h claims passed =
    let (t, c0, ec, header, credential) = auth_middleware-IsAdmitted s q q' closed remote h in
    let same : some c0 ≡ some c = sym ec ∙ claims in
    admin_credential s q t c0 credential
      (let e : c0 ≡ c = cc in ap (λ (x : Claims). x.role) e ∙ require_admin_role c q' q'' passed)

-- The header `Host` makes any request an admin's: with the value `localhost`, followed by a port, a
-- request from any address, with no credential, is passed on with the claims of the local
-- administrator, and the admin's routes let it in.
pub auth_middleware-host :
    (s : Surroundings) (q : Request) (port : Text)
    → is_open q ≡ false
    → header s.http (codes "host") q ≡ some (codes "localhost:" ++ port)
    → (auth_middleware s q ≡ next (as_local q))
      × (require_admin local_claims (as_local q) ≡ next (as_local q))
unfolding auth_middleware require_admin is_local is_localhost_header is_local_host before text_eq
auth_middleware-host s q port closed host =
    let by_host : is_localhost_header s.http q ≡ true = rw (is_localhost_header, host) refl in
    let local : is_local s.http q ≡ true = ground (arith, by_host) in
    (rw (auth_middleware, closed, local) refl, refl)

-- The test of the header never knows an IPv6 loopback address, since it cuts the text at its first
-- colon: neither `[::1]` nor `::1` is local, with whatever follows.
pub is_local_host-ipv6 :
    (port : Text)
    → (is_local_host (codes "[::1]" ++ port) ≡ false)
      × (is_local_host (codes "::1" ++ port) ≡ false)
unfolding is_local_host before text_eq
is_local_host-ipv6 port = (refl, refl)
