-- ===== src/Agentic/Session.antt =====
-- `resolve_session_id`. `digest` stands for the hex text of the SHA-256 hash.
pub mod Scope
use kryneth_oss.Prelude.{
  ℕ, zero, suc, ◌/◌, ◌%◌, Bool, true, false, ◌||◌, Option, none, some, List, [], ◌∷◌, ◌++◌, Text,
  Bytes, Unicode, codes, text_eq, trim, as_bytes, take, if◌then◌else◌,
}

abbrev is_blank : Text → Bool
is_blank [] = true
is_blank (c ∷ s) = false

-- The words that a client's missing value turns into.
unfoldable pub is_stand_in : Unicode → Text → Bool
is_stand_in u trimmed =
    let lower = u.to_lowercase trimmed in
    is_blank trimmed
    || text_eq lower (codes "null")
    || text_eq lower (codes "none")
    || text_eq lower (codes "undefined")

-- A header's value without the blanks around it, where it says something.
unfoldable pub usable : Unicode → Option Text → Option Text
unfolding is_stand_in
usable u none = none
usable u (some s) = if is_stand_in u (trim s) then none else some (trim s)

-- `to_le_bytes` of an integer of `n` bytes.
unfoldable pub le_bytes : ℕ → ℕ → Bytes
le_bytes zero k = []
le_bytes (suc n) k = k % 256 ∷ le_bytes n (k / 256)

-- What the hasher is fed; `seconds` are those since the epoch.
unfoldable pub session_preimage : Text → Text → ℕ → Bytes → Bytes
unfolding as_bytes le_bytes
session_preimage tenant_id api_key seconds raw_payload =
    as_bytes tenant_id ++ (as_bytes api_key ++ (le_bytes 8 seconds ++ take 256 raw_payload))

-- `format!("{}_{}", …)`
unfoldable pub keyed_session : Text → Text → Text
keyed_session tenant_id key = tenant_id ++ 95 ∷ key

unfoldable pub resolve_session_id :
    Unicode → (Bytes → Text) → Option Text → Option Text → Text → Text → ℕ → Bytes → Text
unfolding usable keyed_session session_preimage
resolve_session_id u digest provided_session_id idempotency_key tenant_id api_key seconds
      raw_payload =
    elim (usable u provided_session_id) [
      | some sid ↦ sid
      | none ↦ elim (usable u idempotency_key) [
        | some key ↦ keyed_session tenant_id key
        | none ↦ digest (session_preimage tenant_id api_key seconds raw_payload)
      ]
    ]
