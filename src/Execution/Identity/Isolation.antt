-- ===== src/Execution/Identity/Isolation.antt =====
-- Whether the idempotency keys of different tenants can meet.
use kryneth_oss.Prelude.{
  inl, inr, utf8_char, Option-cases, ◌≡◌, refl, sym, ap, some, [], ◌∷◌, ◌++◌, Text, Bytes, decimal,
  NoColon, split_unique, as_bytes,
}
use mathlib.Core.List.{append_assoc}
use kryneth_oss.Execution.{Request}
use kryneth_oss.Execution.Identity.{separator, explicit_preimage, idempotency_key}

as_bytes-append : (s t : Text) → as_bytes (s ++ t) ≡ as_bytes s ++ as_bytes t
unfolding as_bytes
as_bytes-append [] t = refl
as_bytes-append (c ∷ s) t =
    rw (as_bytes-append s t) (sym (append_assoc (utf8_char c) (as_bytes s) (as_bytes t)))

-- Every key hashes the tenant's bytes, a separator and a rest.
key_starts_with_tenant :
    (digest : Bytes → Text) (q : Request) (exec_id : Text)
    → (rest : Bytes) × (idempotency_key digest q exec_id
        ≡ digest (as_bytes q.tenant_id ++ 58 ∷ rest))
unfolding idempotency_key
key_starts_with_tenant digest q exec_id = elim (Option-cases q.trace_ctx.idempotency_key) [
  | inl e ↦ (58 ∷ (as_bytes exec_id ++ (separator ++ as_bytes q.tool_call.id)), rw e refl)
  | inr (key, e) ↦ (
    58
        ∷ (as_bytes key
            ++ (separator
                ++ (as_bytes (decimal q.tool_index)
                    ++ (separator
                        ++ (as_bytes q.tool_call.name
                            ++ (separator ++ as_bytes q.tool_call.arguments)))))),
    rw e refl,
  )
]

-- With a digest that has no collisions, two calls of tenants whose ids hold no colon have the same
-- idempotency key only if the tenants are the same, byte for byte.
pub idempotency_key-tenant :
    (digest : Bytes → Text) (q q' : Request) (exec_id exec_id' : Text)
    → ((a b : Bytes) → digest a ≡ digest b → a ≡ b)
    → NoColon (as_bytes q.tenant_id)
    → NoColon (as_bytes q'.tenant_id)
    → idempotency_key digest q exec_id ≡ idempotency_key digest q' exec_id'
    → as_bytes q.tenant_id ≡ as_bytes q'.tenant_id
idempotency_key-tenant digest q q' exec_id exec_id' free h h' same =
    let (rest, e) = key_starts_with_tenant digest q exec_id in
    let (rest', e') = key_starts_with_tenant digest q' exec_id' in
    split_unique (as_bytes q.tenant_id) (as_bytes q'.tenant_id) rest rest' h h' (
      free (as_bytes q.tenant_id ++ 58 ∷ rest) (as_bytes q'.tenant_id ++ 58 ∷ rest')
        (cc (e, e', same)))

-- Both ways to read `t::u::k` have one list of bytes.
joined :
    (t u k : Text) (rest : Bytes)
    → as_bytes (t ++ (separator ++ u)) ++ (separator ++ (as_bytes k ++ rest))
      ≡ as_bytes t ++ (separator ++ (as_bytes (u ++ (separator ++ k)) ++ rest))
unfolding as_bytes
joined t u k rest = simp (as_bytes-append, append_assoc)

-- A call of tenant `t::u` with idempotency key `k` has the key of tenant `t`'s call with
-- idempotency key `u::k`, the same tool call and the same index, whatever the digest: the ids are
-- joined without escaping.
pub idempotency_key_ambiguous :
    (digest : Bytes → Text) (q q' : Request) (exec_id exec_id' t u k : Text)
    → q.tenant_id ≡ t ++ (separator ++ u)
    → q.trace_ctx.idempotency_key ≡ some k
    → q'.tenant_id ≡ t
    → q'.trace_ctx.idempotency_key ≡ some (u ++ (separator ++ k))
    → q'.tool_index ≡ q.tool_index
    → q'.tool_call ≡ q.tool_call
    → idempotency_key digest q exec_id ≡ idempotency_key digest q' exec_id'
unfolding idempotency_key
idempotency_key_ambiguous digest q q' exec_id exec_id' t u k tq kq tq' kq' index call =
    rw (kq, idempotency_key) (rw (kq', idempotency_key) (ap digest same_preimage))
  where
    same_preimage :
        explicit_preimage q.tenant_id k q.tool_index q.tool_call
        ≡ explicit_preimage q'.tenant_id (u ++ (separator ++ k)) q'.tool_index q'.tool_call
    same_preimage =
        rw (tq, tq', index, call)
          (joined t u k (
            separator
            ++ (as_bytes (decimal q.tool_index)
                ++ (separator
                    ++ (as_bytes q.tool_call.name
                        ++ (separator ++ as_bytes q.tool_call.arguments))))))
