-- ===== src/Api/Keys.antt =====
-- The keys of the gateway: `OssAuth` of src/infrastructure/oss_adapters.rs, and `decrypt_api_key` of
-- src/api/middleware/auth.rs.
use kryneth_oss.Prelude.{
  Bool, not, ◌&&◌, ◌||◌, Option, none, some, Text, Bytes, codes, text_eq, trim, length, take, drop,
  any, ◌==◌, ltb, if◌then◌else◌,
}
use kryneth_oss.Api.Token.{split}
use kryneth_oss.Api.Auth.{local_tenant}

-- `OssAuth::resolve_api_key`, on `KRYNETH_VALID_KEYS`, of which an unset variable is the empty text.
unfoldable pub is_valid_key : (Text → Text) → Text → Text → Bool
is_valid_key sha256 key_hash raw_key =
    let trimmed = trim raw_key in ltb 0 (length trimmed) && text_eq (sha256 trimmed) key_hash

unfoldable pub oss_resolve_api_key : (Text → Text) → Text → Text → Option (Text × Text)
unfolding is_valid_key split
oss_resolve_api_key sha256 valid_keys key_hash =
    if any (is_valid_key sha256 key_hash) (split 44 valid_keys)
    then some (local_tenant, codes "solo")
    else none

-- `decrypt_api_key`: `open_sealed` is AES-256-GCM with a key and a nonce, `from_utf8` that of
-- `String`.
pub data Decrypted : Type 0 where
  failed : Text → Decrypted
  decrypted : Text → Decrypted

unfoldable pub decrypt_api_key :
    (Bytes → Bytes → Bytes → Option Bytes)
    → (Bytes → Option Text)
    → Option Bytes
    → Bytes
    → Decrypted
decrypt_api_key open_sealed from_utf8 none encrypted = failed (codes "AES_MASTER_KEY missing")
decrypt_api_key open_sealed from_utf8 (some master_key) encrypted =
    if not (length master_key == 32) || ltb (length encrypted) 12
    then failed (codes "Invalid master key length or encrypted data too short")
    else elim (open_sealed master_key (take 12 encrypted) (drop 12 encrypted)) [
      | none ↦ failed (codes "Decryption failed")
      | some plaintext ↦ elim (from_utf8 plaintext) [
        | none ↦ failed (codes "Decrypted key is not valid UTF-8")
        | some key ↦ decrypted key
      ]
    ]
