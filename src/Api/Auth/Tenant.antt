-- ===== src/Api/Auth/Tenant.antt =====
-- The header `x-tenant-id` that the handlers read.
use kryneth_oss.Prelude.{
  ℕ, ◌≡◌, ◌⊎◌, inl, inr, refl, ap, false, Option, [], ◌∷◌, Text, Bytes, Map, codes, insert,
  lookup-insert_ne, text_eq, text_eq_refl, Bool-cases, Option-cases,
}
use kryneth_oss.Api.{Http, Claims, Request, header, trimmed_header, set_header}
use kryneth_oss.Api.Auth.{
  next, is_loopback, is_localhost_header, csrf_present, lacks_csrf, verify_jwt, Verified, invalid,
  valid, with_headers, key_claims, admit, handle_jwt, handle_api_key, Surroundings, is_open,
  is_local, as_local, authenticate, auth_middleware, local_tenant,
}
use kryneth_oss.Api.Token.{
  JwtSource, bearer_header, cookie, api_key, jwt, bearer_token, key_token, cookie_token, token_of,
}

abbrev pub tenant_header : Text
tenant_header = codes "x-tenant-id"

insert_twice {ℓ} :
    {V : Type ℓ} (k : Text) (v w : V) (m : Map V) → insert k v (insert k w m) ≡ insert k v m
unfolding insert
insert_twice k v w [] = rw (text_eq_refl k) refl
insert_twice k v w ((j, x) ∷ m) = elim (Bool-cases (text_eq j k)) [
  | inl e ↦ rw (e, text_eq_refl k) refl
  | inr e ↦ rw (e, e) (ap (λ r. (j, x) ∷ r) (insert_twice k v w m))
]

pub Verified-cases :
    (r : Verified) → ((status : ℕ) × (r ≡ invalid status)) ⊎ ((c : Claims) × (r ≡ valid c))
Verified-cases (invalid status) = inl (status, refl)
Verified-cases (valid c) = inr (c, refl)

module _ (http : Http) (v : Bytes) (q : Request) where
  abbrev claimed : Request
  claimed = set_header tenant_header v q

  header_other :
      (name : Text)
      → text_eq tenant_header name ≡ false
      → header http name claimed ≡ header http name q
  unfolding header set_header
  header_other name h = rw (header, lookup-insert_ne tenant_header name v q.headers h) refl

  trimmed_header_other :
      (name : Text)
      → text_eq tenant_header name ≡ false
      → trimmed_header http name claimed ≡ trimmed_header http name q
  unfolding trimmed_header
  trimmed_header_other name h = rw (trimmed_header, header_other name h) refl

  is_localhost_header_same : is_localhost_header http claimed ≡ is_localhost_header http q
  unfolding is_localhost_header text_eq
  is_localhost_header_same = rw (is_localhost_header, header_other (codes "host") refl) refl

  token_of_same : token_of http claimed ≡ token_of http q
  unfolding token_of bearer_token key_token cookie_token text_eq
  token_of_same =
      rw
        (
          token_of,
          bearer_token,
          key_token,
          cookie_token,
          header_other (codes "authorization") refl,
          header_other (codes "x-api-key") refl,
          header_other (codes "cookie") refl,
        )
        refl

  csrf_present_same : csrf_present http claimed ≡ csrf_present http q
  unfolding csrf_present text_eq
  csrf_present_same = rw (csrf_present, header_other (codes "x-csrf-token") refl) refl

  lacks_csrf_same : (source : JwtSource) → lacks_csrf http source claimed ≡ lacks_csrf http source q
  unfolding lacks_csrf set_header
  lacks_csrf_same bearer_header = refl
  lacks_csrf_same cookie = rw (lacks_csrf, csrf_present_same) refl

  admit_same :
      (tenant_id : Text) (c : Claims) → admit http tenant_id c claimed ≡ admit http tenant_id c q
  unfolding admit set_header
  admit_same tenant_id c = elim (Option-cases (http.from_str tenant_id)) [
    | inl e ↦ rw (admit, e) refl
    | inr (w, e) ↦ rw (admit, e, insert_twice tenant_header w v q.headers) refl
  ]

  team_same :
      trimmed_header http (codes "x-team-id") claimed ≡ trimmed_header http (codes "x-team-id") q
  unfolding text_eq
  team_same = trimmed_header_other (codes "x-team-id") refl

  alias_same :
      trimmed_header http (codes "x-api-key-alias") claimed
      ≡ trimmed_header http (codes "x-api-key-alias") q
  unfolding text_eq
  alias_same = trimmed_header_other (codes "x-api-key-alias") refl

  handle_jwt_same :
      (decode : Text → Text → Option Claims) (secret : Option Text) (canonical : Text → Option Text)
      (token : Text) (source : JwtSource)
      → handle_jwt http decode secret canonical token source claimed
        ≡ handle_jwt http decode secret canonical token source q
  unfolding handle_jwt
  handle_jwt_same decode secret canonical token source =
      let same = lacks_csrf_same source in
      elim (Bool-cases (lacks_csrf http source q)) [
        | inl e ↦ rw (handle_jwt, same, e) refl
        | inr e ↦ elim (Verified-cases (verify_jwt decode secret token)) [
          | inl (status, w) ↦ rw (handle_jwt, same, e, w) refl
          | inr (c, w) ↦ elim (Option-cases (canonical c.tenant_id)) [
            | inl m ↦ rw (handle_jwt, same, e, w, m) refl
            | inr (t, m) ↦
                rw (handle_jwt, same, e, w, m, team_same, alias_same)
                  (admit_same t (with_headers http decode secret canonical q c))
          ]
        ]
      ]

  handle_api_key_same :
      (sha256 : Text → Text) (resolve : Text → Option (Text × Text)) (key : Text)
      → handle_api_key http sha256 resolve key claimed ≡ handle_api_key http sha256 resolve key q
  unfolding handle_api_key
  handle_api_key_same sha256 resolve key = elim (Option-cases (resolve (sha256 key))) [
    | inl e ↦ rw (handle_api_key, e) refl
    | inr ((t, account), e) ↦
        rw (handle_api_key, e, team_same, alias_same)
          (admit_same t (key_claims http sha256 resolve t account q))
  ]

module _ (s : Surroundings) (v : Bytes) (q : Request) where
  abbrev renamed : Request
  renamed = set_header tenant_header v q

  is_open_same : is_open renamed ≡ is_open q
  unfolding is_open set_header
  is_open_same = refl

  is_local_same : is_local s.http renamed ≡ is_local s.http q
  unfolding is_local is_loopback set_header
  is_local_same = rw (is_local, is_localhost_header_same s.http v q) refl

  as_local_same : as_local renamed ≡ as_local q
  unfolding set_header
  as_local_same = rw (insert_twice tenant_header local_tenant v q.headers) refl

  authenticate_same : authenticate s renamed ≡ authenticate s q
  unfolding authenticate
  authenticate_same =
      let same = token_of_same s.http v q in
      elim (Option-cases (token_of s.http q)) [
        | inl e ↦ rw (authenticate, same, e) refl
        | inr ((token, api_key), e) ↦
            rw (authenticate, same, e)
              (handle_api_key_same s.http v q s.sha256 s.resolve_api_key token)
        | inr ((token, jwt source), e) ↦
            rw (authenticate, same, e)
              (handle_jwt_same s.http v q s.decode s.secret s.canonical token source)
      ]

-- Where a request is not exempt, what becomes of it does not depend on the tenant that it claims:
-- with any value in the header `x-tenant-id` the middleware answers with the same status, or passes
-- the same request on, of which every header and the claims are the same.
pub auth_middleware-set_header :
    (s : Surroundings) (v : Bytes) (q : Request)
    → is_open q ≡ false
    → auth_middleware s (set_header tenant_header v q) ≡ auth_middleware s q
unfolding auth_middleware
auth_middleware-set_header s v q closed = elim (Bool-cases (is_local s.http q)) [
  | inl e ↦
      rw (auth_middleware, is_open_same s v q, is_local_same s v q, closed, e)
        (ap next (as_local_same s v q))
  | inr e ↦
      rw (auth_middleware, is_open_same s v q, is_local_same s v q, closed, e)
        (authenticate_same s v q)
]
