-- ===== src/Api.antt =====
-- The HTTP layer of src/api: the request that the middlewares pass on, the authentication, the trace
-- context and the billing guard. `Http` stands for what the crate http does with the values of
-- headers; a header map is given by the first value of each name, in lower case.
mod Examples
pub mod Token
pub mod Auth
pub mod Keys
pub mod Context
use kryneth_oss.Prelude.{
  ℕ, ◌≡◌, Bool, true, false, Option, none, some, List, [], ◌∷◌, Text, Bytes, Map, codes, lookup,
  trim, if◌then◌else◌, text_eq, text_eq_iff, arith, insert, refl,
}

-- `HeaderValue::to_str` and `HeaderValue::from_str`: a value that was made of a text reads as it.
pub record Http : Type 0 where
  pub to_str : Bytes → Option Text
  pub from_str : Text → Option Bytes
  pub to_str-from_str : (s : Text) (v : Bytes) → from_str s ≡ some v → to_str v ≡ some s

pub data Method : Type 0 where
  get post put delete head options other : Method

pub data Role : Type 0 where
  admin developer viewer : Role

pub data AccountType : Type 0 where
  solo team enterprise : AccountType

pub record Claims : Type 0 where
  pub sub : Text
  pub tenant_id : Text
  pub exp : ℕ
  pub role : Role
  pub account_type : AccountType
  pub team_id : Option Text
  pub api_key_alias : Option Text

-- A request, with its extensions: whether its peer is a loopback address, if it is known, and the
-- claims that the authentication adds.
pub record Request : Type 0 where
  pub method : Method
  pub path : Text
  pub headers : Map Bytes
  pub loopback_peer : Option Bool
  pub claims : Option Claims

-- `headers.get(name).and_then(|v| v.to_str().ok())`
unfoldable pub header : Http → Text → Request → Option Text
header http name q = elim (lookup name q.headers) [ none ↦ none | some v ↦ http.to_str v ]

-- The same with `.map(|s| s.trim().to_string())`.
unfoldable pub trimmed_header : Http → Text → Request → Option Text
unfolding header
trimmed_header http name q = elim (header http name q) [ none ↦ none | some s ↦ some (trim s) ]

-- `headers_mut().insert(name, value)`
unfoldable pub set_header : Text → Bytes → Request → Request
set_header name v q = record q { headers = insert name v q.headers }
