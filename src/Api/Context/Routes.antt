-- ===== src/Api/Context/Routes.antt =====
-- What the layers of a route let through.
use kryneth_oss.Prelude.{
  ℕ, ◌≡◌, ◌⊎◌, inl, inr, refl, sym, ap, ◌∙◌, true, false, Option, none, some, Text, Bytes, Map,
  codes, lookup, insert, lookup-insert_ne, lookup-insert_self, text_eq, trim, Bool-cases,
  Option-cases,
}
use mathlib.Core.Path.{subst}
use kryneth_oss.Errors.{GatewayError}
use kryneth_oss.Api.{Http, Claims, Request, header, trimmed_header}
use kryneth_oss.Api.Auth.{
  Outcome, refused, next, Surroundings, is_open, is_local, auth_middleware, require_admin,
}
use kryneth_oss.Api.Auth.Access.{
  IsCredential, IsAdmitted, auth_middleware-IsAdmitted, AdminToken, require_admin-remote,
}
use kryneth_oss.Api.Context.{
  TraceContext, trace_context, answer_header, trace_context_middleware, Guarded, rejected, passed,
  Balance, unavailable, balance, billing_guard_middleware, admin_layer, admin_route, Entry,
  unauthorised, unfunded, entered, proxy_route,
}

Outcome-cases :
    (o : Outcome) → ((status : ℕ) × (o ≡ refused status)) ⊎ ((q : Request) × (o ≡ next q))
Outcome-cases (refused status) = inl (status, refl)
Outcome-cases (next q) = inr (q, refl)

Guarded-cases :
    {B : Type 0} (g : Guarded B)
    → ((e : GatewayError) × (g ≡ rejected e)) ⊎ ((b : Option B) × (g ≡ passed b))
Guarded-cases (rejected e) = inl (e, refl)
Guarded-cases (passed b) = inr (b, refl)

Balance-cases :
    {B : Type 0} (x : Balance B)
    → ((e : GatewayError) × (x ≡ unavailable e)) ⊎ ((b : B) × (x ≡ balance b))
Balance-cases (unavailable e) = inl (e, refl)
Balance-cases (balance b) = inr (b, refl)

request_of : {B : Type 0} → Request → Entry B → Request
request_of d (entered q b) = q
request_of d _ = d

balance_of : {B : Type 0} → Option B → Entry B → Option B
balance_of d (entered q b) = b
balance_of d _ = d

admin_layer_lem :
    (q q' : Request)
    → admin_layer q ≡ next q'
    → (c : Claims) × (q.claims ≡ some c) × (require_admin c q ≡ next q')
unfolding admin_layer
admin_layer_lem q q' h = elim (Option-cases q.claims) [
  | inl e ↦ let stop : refused 500 ≡ next q' = rw (admin_layer, e) at h in cc
  | inr (c, e) ↦ (c, e, rw (admin_layer, e) at h)
]

-- An admin's route, with all its layers, lets a request in only if it is local by its peer or its
-- `Host`, or carries, as the credential that counts, a verified token with the role of an admin. The exemptions of the authentication
-- (OPTIONS, the health paths) open no admin's route, since they add no claims, where the request
-- came in with none.
pub admin_route_lem :
    (s : Surroundings) (q q' : Request)
    → q.claims ≡ none
    → admin_route s q ≡ next q'
    → (is_local s.http q ≡ true) ⊎ AdminToken s q
unfolding admin_route auth_middleware
admin_route_lem s q q' fresh h = elim (Bool-cases (is_open q)) [
  | inl e ↦
      let exempt : auth_middleware s q ≡ next q = rw (auth_middleware, e) refl in
      let (c, ec, _) = admin_layer_lem q q' (rw (admin_route, exempt) at h) in
      let differ : none ≡ some c = sym fresh ∙ ec in cc
  | inr closed ↦ elim (Bool-cases (is_local s.http q)) [
    | inl local ↦ inl local
    | inr remote ↦ elim (Outcome-cases (auth_middleware s q)) [
      | inl (status, e) ↦ let stop : refused status ≡ next q' = rw (admin_route, e) at h in cc
      | inr (q1, e) ↦
          let (c, ec, allowed) = admin_layer_lem q1 q' (rw (admin_route, e) at h) in
          inr (require_admin-remote s q q1 q' c closed remote e ec allowed)
    ]
  ]
]

-- The balance that the billing guard finds for a tenant.
abbrev pub IsFunded : {B : Type 0} → (Text → Balance B) → Text → Option B → Type 0
IsFunded {B} check_balance tid b =
    (text_eq tid (codes "anonymous") ≡ true)
    ⊎ ((amount : B) × (check_balance tid ≡ balance amount) × (b ≡ some amount))

guarded :
    {B : Type 0} (http : Http) (check_balance : Text → Balance B) (q : Request) (tid : Text)
    (b : Option B)
    → trimmed_header http (codes "x-tenant-id") q ≡ some tid
    → text_eq q.path (codes "/health") ≡ false
    → billing_guard_middleware http check_balance q ≡ passed b
    → IsFunded check_balance tid b
unfolding billing_guard_middleware
guarded {B} http check_balance q tid b e path h =
    elim (Bool-cases (text_eq tid (codes "anonymous"))) [
      | inl anonymous ↦ inl anonymous
      | inr named ↦ elim (Balance-cases (check_balance tid)) [
        | inl (error, u) ↦
            let stop : ◌≡◌ {A = Guarded B} (rejected error) (passed b) =
              rw (billing_guard_middleware, e, named, path, u) at h in
            cc
        | inr (amount, u) ↦
            let same : passed (some amount) ≡ passed b =
              rw (billing_guard_middleware, e, named, path, u) at h in
            inr (amount, u, cc)
      ]
    ]

-- The proxy's routes charge the tenant of the credential: a remote request that is not exempt gets
-- to the handlers only with the tenant of the credential that it carries in its header, and with the balance that is
-- looked up for that tenant, where its trimmed id is not `anonymous` and the path not `/health`.
pub proxy_route_lem :
    {B : Type 0} (s : Surroundings) (check_balance : Text → Balance B) (q q' : Request)
    (b : Option B)
    → is_open q ≡ false
    → is_local s.http q ≡ false
    → proxy_route s check_balance q ≡ entered q' b
    → text_eq q'.path (codes "/health") ≡ false
    → (t : Text) × (c : Claims) × (q'.claims ≡ some c)
      × (header s.http (codes "x-tenant-id") q' ≡ some t)
      × IsCredential s q t c
      × IsFunded check_balance (trim t) b
unfolding proxy_route request_of balance_of IsAdmitted trimmed_header
proxy_route_lem {B} s check_balance q q' b closed remote h path =
    elim (Outcome-cases (auth_middleware s q)) [
      | inl (status, e) ↦
          let stop : ◌≡◌ {A = Entry B} (unauthorised status) (entered q' b) =
            rw (proxy_route, e) at h in
          cc
      | inr (q1, e) ↦ elim (Guarded-cases (billing_guard_middleware s.http check_balance q1)) [
        | inl (error, g) ↦
            let stop : ◌≡◌ {A = Entry B} (unfunded error) (entered q' b) =
              rw (proxy_route, e, g) at h in
            cc
        | inr (b1, g) ↦
            let same : entered q1 b1 ≡ entered q' b = rw (proxy_route, e, g) at h in
            let eq : q1 ≡ q' = ap (request_of q1) same in
            let eb : b1 ≡ b = ap (balance_of b1) same in
            let (t, c, ec, eh, credential) =
              subst (IsAdmitted s q) eq (auth_middleware-IsAdmitted s q q1 closed remote e) in
            (
              t,
              c,
              ec,
              eh,
              credential,
              guarded s.http check_balance q' (trim t) b (rw (trimmed_header, eh) refl) path
                  (rw (eq, eb) at g),
            )
      ]
    ]

answered :
    (http : Http) (name value : Text) (v : Bytes) (headers : Map Bytes)
    → http.from_str value ≡ some v
    → answer_header http name value headers ≡ insert name v headers
unfolding answer_header
answered http name value v headers h = rw (answer_header, h) refl

-- The session id that the answer names is the one that the handlers saw: the client's, where it sent
-- one, and otherwise the fresh one; and the trace id is always the fresh one. This is stated where
-- both are values of headers.
pub trace_context_middleware_lem :
    (http : Http) (session_uuid trace_uuid : Text) (run : TraceContext → Request → Map Bytes)
    (q : Request) (v w : Bytes)
    → http.from_str (trace_context http session_uuid trace_uuid q).session_id ≡ some v
    → http.from_str trace_uuid ≡ some w
    → (lookup (codes "x-session-id") (trace_context_middleware http session_uuid trace_uuid run q)
        ≡ some v)
      × (lookup (codes "x-trace-id") (trace_context_middleware http session_uuid trace_uuid run q)
          ≡ some w)
unfolding trace_context_middleware text_eq
trace_context_middleware_lem http session_uuid trace_uuid run q v w hs ht =
    let ctx = trace_context http session_uuid trace_uuid q in
    let inner = answer_header http (codes "x-trace-id") trace_uuid (run ctx q) in
    (
      rw (answered http (codes "x-session-id") ctx.session_id v inner hs)
          (lookup-insert_self (codes "x-session-id") v inner),
      rw (answered http (codes "x-session-id") ctx.session_id v inner hs) (
          lookup-insert_ne (codes "x-session-id") (codes "x-trace-id") v inner refl
          ∙ rw (answered http (codes "x-trace-id") trace_uuid w (run ctx q) ht)
              (lookup-insert_self (codes "x-trace-id") w (run ctx q))),
    )
