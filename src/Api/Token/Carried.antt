-- ===== src/Api/Token/Carried.antt =====
-- Where in a request the token stands that the authentication takes.
use kryneth_oss.Prelude.{
  ◌≡◌, ◌≢◌, ◌⊎◌, inl, inr, refl, sym, ap, ◌∙◌, true, false, ◌&&◌, Option, none, some, List, [], ◌∷◌,
  ◌++◌, Text, codes, starts_with, starts_with_sound, trim, length, ltb, ◌==◌, ==_iff, if◌then◌else◌,
  Bool-cases, Option-cases, arith,
}
use mathlib.Core.Path.{subst}
use kryneth_oss.Api.{Http, Request, header}
use kryneth_oss.Api.Token.{
  Token, bearer_header, cookie, TokenKind, api_key, jwt, strip_prefix, split, is_api_key, or_else,
  bearer_token, key_token, session_cookie, first_session, cookie_token, token_of,
}

-- The parts of a cookie header: one that names the session's token, which has three parts.
pub record IsSession (parts : List Text) (token : Text) : Type 0 where
  pub earlier : List Text
  pub part : Text
  pub later : List Text
  pub among : parts ≡ earlier ++ part ∷ later
  pub named : trim part ≡ codes "re_token=" ++ token
  pub three : length (split 46 token) ≡ 3

-- A header `Authorization` of the form `Bearer t` goes first, whatever else is there; then a header
-- `x-api-key` of the form of an API key; then a session's cookie.
pub data IsCarried (http : Http) (q : Request) : Text → TokenKind → Type 0 where
  by_authorization :
      (token : Text) (kind : TokenKind)
      → header http (codes "authorization") q ≡ some (codes "Bearer " ++ token)
      → kind ≡ (if is_api_key token then api_key else jwt bearer_header)
      → IsCarried http q token kind
  by_key_header :
      (token : Text)
      → ((t : Text) → header http (codes "authorization") q ≢ some (codes "Bearer " ++ t))
      → header http (codes "x-api-key") q ≡ some token
      → is_api_key token ≡ true
      → IsCarried http q token api_key
  by_cookie :
      (token text : Text)
      → ((t : Text) → header http (codes "authorization") q ≢ some (codes "Bearer " ++ t))
      → ((t : Text) → header http (codes "x-api-key") q ≡ some t → is_api_key t ≡ false)
      → header http (codes "cookie") q ≡ some text
      → IsSession (split 59 text) token
      → IsCarried http q token (jwt cookie)

bearer_prefix :
    (s token : Text) → strip_prefix (codes "Bearer ") s ≡ some token → s ≡ codes "Bearer " ++ token
unfolding strip_prefix starts_with
bearer_prefix s token h = elim (Bool-cases (starts_with (codes "Bearer ") s)) [
  | inr e ↦ let stop : none ≡ some token = rw (e, strip_prefix) at h in cc
  | inl e ↦
      let (rest, k) = starts_with_sound (codes "Bearer ") s e in
      let got : some rest ≡ some token = rw (k, strip_prefix) at h in cc
]

session_prefix :
    (s token : Text)
    → strip_prefix (codes "re_token=") s ≡ some token
    → s ≡ codes "re_token=" ++ token
unfolding strip_prefix starts_with
session_prefix s token h = elim (Bool-cases (starts_with (codes "re_token=") s)) [
  | inr e ↦ let stop : none ≡ some token = rw (e, strip_prefix) at h in cc
  | inl e ↦
      let (rest, k) = starts_with_sound (codes "re_token=") s e in
      let got : some rest ≡ some token = rw (k, strip_prefix) at h in cc
]

first_of : Option Token → Text
first_of none = []
first_of (some t) = t.0

second_of : TokenKind → Option Token → TokenKind
second_of d none = d
second_of d (some t) = t.1

or_else_cases {ℓ} :
    {A : Type ℓ} (o p : Option A) (a : A)
    → or_else o p ≡ some a
    → (o ≡ some a) ⊎ ((o ≡ none) × (p ≡ some a))
or_else_cases none p a h = inr (refl, h)
or_else_cases (some b) p a h = inl h

first_session-IsSession :
    (ps : List Text) (token : Text) → first_session ps ≡ some token → IsSession ps token
unfolding first_session session_cookie
first_session-IsSession [] token h = cc
first_session-IsSession (p ∷ ps) token h =
    elim (or_else_cases (session_cookie p) (first_session ps) token h) [
      | inr (_, later) ↦
          let r = first_session-IsSession ps token later in
          record {
            earlier = p ∷ r.earlier;
            part = r.part;
            later = r.later;
            among = ap (λ (x : List Text). p ∷ x) r.among;
            named = r.named;
            three = r.three;
          }
      | inl here ↦ elim (Option-cases (strip_prefix (codes "re_token=") (trim p))) [
        | inl e ↦ let stop : none ≡ some token = rw (session_cookie, e) at here in cc
        | inr (t, e) ↦ elim (Bool-cases (length (split 46 t) == 3 && ltb 0 (length t))) [
          | inr f ↦ let stop : none ≡ some token = rw (session_cookie, e, f) at here in cc
          | inl f ↦
              let same : some t ≡ some token = rw (session_cookie, e, f) at here in
              let eq : t ≡ token = cc in
              record {
                earlier = [];
                part = p;
                later = ps;
                among = refl;
                named = session_prefix (trim p) token (e ∙ same);
                three = ap (λ (x : Text). length (split 46 x)) (sym eq) ∙ three_of t f;
              }
        ]
      ]
    ]
  where
    three_of :
        (t : Text) → length (split 46 t) == 3 && ltb 0 (length t) ≡ true → length (split 46 t) ≡ 3
    three_of t f = ground (arith, f, ==_iff (length (split 46 t)) 3)

module _ (http : Http) (q : Request) where
  bearer_token-IsCarried :
      (token : Text) (kind : TokenKind)
      → bearer_token http q ≡ some (token, kind)
      → IsCarried http q token kind
  unfolding bearer_token first_of second_of
  bearer_token-IsCarried token kind h =
      elim (Option-cases (header http (codes "authorization") q)) [
        | inl e ↦
            let stop : ◌≡◌ {A = Option Token} none (some (token, kind)) =
              rw (bearer_token, e) at h in
            cc
        | inr (s, e) ↦ elim (Option-cases (strip_prefix (codes "Bearer ") s)) [
          | inl f ↦
              let stop : ◌≡◌ {A = Option Token} none (some (token, kind)) =
                rw (bearer_token, e, f) at h in
              cc
          | inr (t, f) ↦
              let kind_of = if is_api_key t then api_key else jwt bearer_header in
              let same : ◌≡◌ {A = Option Token} (some (t, kind_of)) (some (token, kind)) =
                rw (bearer_token, e, f) at h in
              let eq : t ≡ token = ap first_of same in
              by_authorization token kind
                (e ∙ ap some (bearer_prefix s t f ∙ ap (λ (x : Text). codes "Bearer " ++ x) eq))
                (sym (ap (second_of kind) same)
                  ∙ ap (λ (x : Text). if is_api_key x then api_key else jwt bearer_header) eq)
        ]
      ]

  no_bearer :
      bearer_token http q ≡ none
      → (t : Text) → header http (codes "authorization") q ≢ some (codes "Bearer " ++ t)
  unfolding bearer_token strip_prefix starts_with
  no_bearer h t e =
      let there : ◌≡◌ {A = Option Token}
          (some (t, if is_api_key t then api_key else jwt bearer_header)) none =
        rw (bearer_token, e) at h in
      cc

  key_token-IsCarried :
      (token : Text) (kind : TokenKind)
      → ((t : Text) → header http (codes "authorization") q ≢ some (codes "Bearer " ++ t))
      → key_token http q ≡ some (token, kind)
      → IsCarried http q token kind
  unfolding key_token first_of second_of
  key_token-IsCarried token kind first h = elim (Option-cases (header http (codes "x-api-key") q)) [
    | inl e ↦
        let stop : ◌≡◌ {A = Option Token} none (some (token, kind)) = rw (key_token, e) at h in cc
    | inr (t, e) ↦ elim (Bool-cases (is_api_key t)) [
      | inr f ↦
          let stop : ◌≡◌ {A = Option Token} none (some (token, kind)) = rw (key_token, e, f) at h in
          cc
      | inl f ↦
          let same : ◌≡◌ {A = Option Token} (some (t, api_key)) (some (token, kind)) =
            rw (key_token, e, f) at h in
          let eq : t ≡ token = ap first_of same in
          subst (IsCarried http q token) (ap (second_of kind) same)
            (by_key_header token first (e ∙ ap some eq) (ap is_api_key (sym eq) ∙ f))
    ]
  ]

  no_key :
      key_token http q ≡ none
      → (t : Text) → header http (codes "x-api-key") q ≡ some t
      → is_api_key t ≡ false
  unfolding key_token
  no_key h t e = elim (Bool-cases (is_api_key t)) [
    | inr f ↦ f
    | inl f ↦
        let there : ◌≡◌ {A = Option Token} (some (t, api_key)) none = rw (key_token, e, f) at h in
        cc
  ]

  cookie_token-IsCarried :
      (token : Text) (kind : TokenKind)
      → ((t : Text) → header http (codes "authorization") q ≢ some (codes "Bearer " ++ t))
      → ((t : Text) → header http (codes "x-api-key") q ≡ some t → is_api_key t ≡ false)
      → cookie_token http q ≡ some (token, kind)
      → IsCarried http q token kind
  unfolding cookie_token first_of second_of
  cookie_token-IsCarried token kind first second h =
      elim (Option-cases (header http (codes "cookie") q)) [
        | inl e ↦
            let stop : ◌≡◌ {A = Option Token} none (some (token, kind)) =
              rw (cookie_token, e) at h in
            cc
        | inr (text, e) ↦ elim (Option-cases (first_session (split 59 text))) [
          | inl f ↦
              let stop : ◌≡◌ {A = Option Token} none (some (token, kind)) =
                rw (cookie_token, e, f) at h in
              cc
          | inr (t, f) ↦
              let same : ◌≡◌ {A = Option Token} (some (t, jwt cookie)) (some (token, kind)) =
                rw (cookie_token, e, f) at h in
              subst (IsCarried http q token) (ap (second_of kind) same) (
                by_cookie token text first second e
                  (first_session-IsSession (split 59 text) token (f ∙ ap some (ap first_of same))))
        ]
      ]

  -- The token that the authentication takes is carried by the request, in the order of the three
  -- places.
  pub token_of-IsCarried :
      (token : Text) (kind : TokenKind)
      → token_of http q ≡ some (token, kind)
      → IsCarried http q token kind
  unfolding token_of
  token_of-IsCarried token kind h =
      elim (or_else_cases (bearer_token http q) (or_else (key_token http q) (cookie_token http q))
        (token, kind) h) [
          | inl e ↦ bearer_token-IsCarried token kind e
          | inr (none_first, h') ↦
              elim (or_else_cases (key_token http q) (cookie_token http q) (token, kind) h') [
                | inl e ↦ key_token-IsCarried token kind (no_bearer none_first) e
                | inr (none_second, e) ↦
                    cookie_token-IsCarried token kind (no_bearer none_first) (no_key none_second) e
              ]
        ]
