-- ===== src/Api/Token.antt =====
-- The credentials of a request as `auth_middleware` of src/api/middleware/auth.rs looks for them: the
-- header `Authorization`, the header `x-api-key`, and the session cookie.
pub mod Carried
use kryneth_oss.Prelude.{
  ℕ, Bool, ◌&&◌, ◌||◌, Option, none, some, List, [], ◌∷◌, Text, codes, starts_with, trim, length,
  drop, ◌==◌, ltb, if◌then◌else◌,
}
use kryneth_oss.Api.{Http, Request, header}

pub data JwtSource : Type 0 where
  bearer_header cookie : JwtSource

pub data TokenKind : Type 0 where
  api_key : TokenKind
  jwt : JwtSource → TokenKind

-- `str::strip_prefix`
unfoldable pub strip_prefix : Text → Text → Option Text
strip_prefix p s = if starts_with p s then some (drop (length p) s) else none

-- `str::split` at a character; there is always a first part.
unfoldable pub before : ℕ → Text → Text
before c [] = []
before c (x ∷ s) = let rest = before c s in if x == c then [] else x ∷ rest

abbrev add_first : ℕ → List Text → List Text
add_first x [] = (x ∷ []) ∷ []
add_first x (p ∷ ps) = (x ∷ p) ∷ ps

unfoldable pub split : ℕ → Text → List Text
split c [] = [] ∷ []
split c (x ∷ s) = let rest = split c s in if x == c then [] ∷ rest else add_first x rest

unfoldable pub is_api_key : Text → Bool
is_api_key token =
    starts_with (codes "ke_live_") token
    || starts_with (codes "ke_test_") token
    || starts_with (codes "re_live_") token
    || starts_with (codes "re_test_") token

abbrev pub Token : Type 0
Token = Text × TokenKind

abbrev pub or_else {ℓ} : {A : Type ℓ} → Option A → Option A → Option A
or_else none b = b
or_else (some a) _ = some a

unfoldable pub bearer_token : Http → Request → Option Token
unfolding strip_prefix is_api_key header
bearer_token http q = elim (header http (codes "authorization") q) [
  | none ↦ none
  | some auth_str ↦ elim (strip_prefix (codes "Bearer ") auth_str) [
    | none ↦ none
    | some token ↦ some (token, if is_api_key token then api_key else jwt bearer_header)
  ]
]

unfoldable pub key_token : Http → Request → Option Token
unfolding is_api_key header
key_token http q = elim (header http (codes "x-api-key") q) [
  | none ↦ none
  | some token ↦ if is_api_key token then some (token, api_key) else none
]

-- A cookie `re_token` with three parts between dots.
unfoldable pub session_cookie : Text → Option Text
unfolding strip_prefix split
session_cookie part = elim (strip_prefix (codes "re_token=") (trim part)) [
  | none ↦ none
  | some token ↦ if length (split 46 token) == 3 && ltb 0 (length token) then some token else none
]

unfoldable pub first_session : List Text → Option Text
unfolding session_cookie
first_session [] = none
first_session (p ∷ ps) = or_else (session_cookie p) (first_session ps)

unfoldable pub cookie_token : Http → Request → Option Token
unfolding first_session split header
cookie_token http q = elim (header http (codes "cookie") q) [
  | none ↦ none
  | some cookie_str ↦ elim (first_session (split 59 cookie_str)) [
    | none ↦ none
    | some token ↦ some (token, jwt cookie)
  ]
]

-- The order of the three places.
unfoldable pub token_of : Http → Request → Option Token
unfolding bearer_token key_token cookie_token
token_of http q = or_else (bearer_token http q) (or_else (key_token http q) (cookie_token http q))
