-- ===== src/Guardian/Hash.antt =====
-- The hash of a tool call's arguments, `hash_borrowed_value`, and the format-independent view of a
-- call, `UnifiedToolCall`. The hasher of the crate ahash, the conversion of an integer to the bits
-- of an `f64`, and serde_json's printer and simd_json's parser are parameters.
pub mod Order
use kryneth_oss.Prelude.{
  ℕ, zero, suc, ◌+◌, ◌*◌, ◌/◌, ◌%◌, Bool, true, false, Option, none, some, List, [], ◌∷◌, Text,
  Bytes, codes, text_eq, as_bytes, any, length, ltb, if◌then◌else◌,
}
use kryneth_oss.Guardian.Json.{
  StaticNode, BorrowedValue, Items, Members, static, string, array, object, no_item, item,
  no_member, member, items, get, as_str, null_value,
}

-- `^` on `u64`, bit by bit.
unfoldable pub xor_from : ℕ → ℕ → ℕ → ℕ
xor_from zero a b = 0
xor_from (suc bits) a b = (a + b) % 2 + 2 * xor_from bits (a / 2) (b / 2)

unfoldable pub xor : ℕ → ℕ → ℕ
unfolding xor_from
xor a b = xor_from 64 a b

-- `ahash::AHasher`, its state as `H`.
pub record AHasher (H : Type 0) : Type 0 where
  pub default : H
  pub write : Bytes → H → H
  pub write_u8 : ℕ → H → H
  pub write_u64 : ℕ → H → H
  pub write_usize : ℕ → H → H
  pub finish : H → ℕ

abbrev pub ignored_keys : List Text
ignored_keys =
    codes "timestamp"
    ∷ codes "nonce"
    ∷ codes "uuid"
    ∷ codes "stream"
    ∷ codes "session_id"
    ∷ codes "time"
    ∷ []

unfoldable pub is_ignored : Text → Bool
is_ignored k = any (λ i. text_eq i k) ignored_keys

abbrev pub max_depth : ℕ
max_depth = 16

pub record UnifiedToolCall : Type 0 where
  pub name : Text
  pub semantic_hash : ℕ

-- `value.get(key).and_then(|n| n.as_str()).unwrap_or("")`
abbrev pub text_at : Text → BorrowedValue → Text
text_at k v = elim (get k v) [ none ↦ [] | some t ↦ elim (as_str t) [ none ↦ [] | some s ↦ s ] ]

module _ {H : Type 0} (hasher : AHasher H) (i64_to_f64 u64_to_f64 : ℕ → ℕ)
    (to_string : BorrowedValue → Text) where
  unfoldable pub hash_static : StaticNode → H → H
  hash_static (StaticNode.i64 n) h = hasher.write_u64 (i64_to_f64 n) (hasher.write_u8 2 h)
  hash_static (StaticNode.u64 n) h = hasher.write_u64 (u64_to_f64 n) (hasher.write_u8 2 h)
  hash_static (StaticNode.f64 n) h = hasher.write_u64 n (hasher.write_u8 2 h)
  hash_static (StaticNode.bool b) h = hasher.write_u8 (if b then 1 else 0) (hasher.write_u8 1 h)
  hash_static StaticNode.null h = hasher.write_u8 0 h

  abbrev pub hash_fallback : BorrowedValue → H → H
  hash_fallback v h = hasher.write (as_bytes (to_string v)) h

  -- `depth` counts up to `MAX_DEPTH`, as in the source.
  unfoldable mutual
    unfolding hash_static is_ignored xor

    pub hash_borrowed_value : ℕ → BorrowedValue → H → H
    hash_borrowed_value depth (static node) h =
        if ltb max_depth depth then hash_fallback (static node) h else hash_static node h
    hash_borrowed_value depth (string s) h =
        if ltb max_depth depth
        then hash_fallback (string s) h
        else hasher.write (as_bytes s) (hasher.write_u8 5 h)
    hash_borrowed_value depth (array vs) h =
        let inner =
          hash_items depth vs (hasher.write_usize (length (items vs)) (hasher.write_u8 6 h)) in
        if ltb max_depth depth then hash_fallback (array vs) h else inner
    hash_borrowed_value depth (object ms) h =
        let inner = hasher.write_u64 (hash_members depth ms 0) (hasher.write_u8 7 h) in
        if ltb max_depth depth then hash_fallback (object ms) h else inner

    pub hash_items : ℕ → Items → H → H
    hash_items depth no_item h = h
    hash_items depth (item v vs) h = hash_items depth vs (hash_borrowed_value (depth + 1) v h)

    pub hash_members : ℕ → Members → ℕ → ℕ
    hash_members depth no_member acc = acc
    hash_members depth (member k v ms) acc =
        let kv =
          hasher.finish
            (hash_borrowed_value (depth + 1) v (hasher.write (as_bytes k) hasher.default)) in
        let skipped = hash_members depth ms acc in
        let taken = hash_members depth ms (xor acc kv) in if is_ignored k then skipped else taken

  unfoldable pub semantic_hash_of : BorrowedValue → ℕ
  unfolding hash_borrowed_value
  semantic_hash_of args = hasher.finish (hash_borrowed_value 0 args hasher.default)

  abbrev pub or_null : Option BorrowedValue → BorrowedValue
  or_null none = null_value
  or_null (some v) = v

  -- `parse` is `simd_json::to_borrowed_value` on the text of the arguments.
  unfoldable pub from_borrowed_value :
      (Bytes → Option BorrowedValue) → BorrowedValue → Option UnifiedToolCall
  unfolding semantic_hash_of
  from_borrowed_value parse tc = elim (get (codes "function") tc) [
    | some func ↦ some (record {
      name = text_at (codes "name") func;
      semantic_hash =
          semantic_hash_of (or_null (parse (as_bytes (text_at (codes "arguments") func))));
    })
    | none ↦ elim (get (codes "functionCall") tc) [
      | some func_call ↦ some (record {
        name = text_at (codes "name") func_call;
        semantic_hash = semantic_hash_of (or_null (get (codes "args") func_call));
      })
      | none ↦ elim (get (codes "name") tc) [
        | some name_val ↦ some (record {
          name = elim (as_str name_val) [ none ↦ [] | some s ↦ s ];
          semantic_hash = semantic_hash_of (elim (get (codes "input") tc) [
            | some v ↦ v
            | none ↦ or_null (get (codes "parameters") tc)
          ]);
        })
        | none ↦ none
      ]
    ]
  ]
