-- ===== src/Agentic/Session/Scope.antt =====
-- Whether the sessions of different tenants can meet.
use kryneth_oss.Prelude.{
  ℕ, ◌≡◌, ◌≢◌, refl, ap, inl, inr, Option, none, some, [], ◌∷◌, ◌++◌, Text, Bytes, Unicode,
  as_bytes, length, All, Option-cases, arith,
}
use mathlib.Core.List.{append_assoc}
use kryneth_oss.Agentic.Session.{usable, session_preimage, keyed_session, resolve_session_id}

-- No underscore stands in a text.
abbrev pub NoUnderscore : Text → Type 0
NoUnderscore = All (λ c. c ≢ 95)

tail_of : Text → Text
tail_of [] = []
tail_of (x ∷ xs) = xs

-- The beginnings of equal texts are equal if they are equally long.
prefix_unique :
    (xs ys rest rest' : Text) → length xs ≡ length ys → xs ++ rest ≡ ys ++ rest' → xs ≡ ys
unfolding tail_of
prefix_unique [] [] rest rest' l e = refl
prefix_unique [] (y ∷ ys) rest rest' l e = absurd (omega (arith, l))
prefix_unique (x ∷ xs) [] rest rest' l e = absurd (omega (arith, l))
prefix_unique (x ∷ xs) (y ∷ ys) rest rest' l e =
    cc (prefix_unique xs ys rest rest' (omega (arith, l)) (ap tail_of e), e)

-- A text with an underscore in it is not one without.
joined_ne : (t k s : Text) → NoUnderscore s → t ++ 95 ∷ k ≢ s
unfolding tail_of
joined_ne [] k [] h e = absurd (cc e)
joined_ne [] k (c ∷ s) h e = h.0 (cc e)
joined_ne (x ∷ t) k [] h e = absurd (cc e)
joined_ne (x ∷ t) k (c ∷ s) h e = joined_ne t k s h.1 (ap tail_of e)

pub record Caller : Type 0 where
  pub idempotency_key : Option Text
  pub tenant_id : Text
  pub api_key : Text
  pub seconds : ℕ
  pub raw_payload : Bytes

module _ (u : Unicode) (digest : Bytes → Text) where
  -- The session of a caller with the header of a session id.
  abbrev pub session_of : Option Text → Caller → Text
  session_of provided c =
      resolve_session_id u digest provided c.idempotency_key c.tenant_id c.api_key c.seconds
        c.raw_payload

  session_keyed :
      (provided : Option Text) (c : Caller) (key : Text)
      → usable u provided ≡ none
      → usable u c.idempotency_key ≡ some key
      → session_of provided c ≡ c.tenant_id ++ 95 ∷ key
  unfolding resolve_session_id keyed_session
  session_keyed provided c key e k = rw (e, resolve_session_id) (rw (k, resolve_session_id) refl)

  session_hashed :
      (provided : Option Text) (c : Caller)
      → usable u provided ≡ none
      → usable u c.idempotency_key ≡ none
      → session_of provided c
        ≡ digest (session_preimage c.tenant_id c.api_key c.seconds c.raw_payload)
  unfolding resolve_session_id
  session_hashed provided c e k = rw (e, resolve_session_id) (rw (k, resolve_session_id) refl)

  -- Two requests that bring no session id of their own share a session only within one tenant: if
  -- the digest has no collisions and no underscore, and the tenants' ids have as many characters
  -- and as many bytes, equal sessions mean tenants with the same bytes, whether the requests have
  -- idempotency keys or not.
  pub resolve_session_id-tenant :
      (p p' : Option Text) (c c' : Caller)
      → ((a b : Bytes) → digest a ≡ digest b → a ≡ b)
      → ((a : Bytes) → NoUnderscore (digest a))
      → usable u p ≡ none
      → usable u p' ≡ none
      → length c.tenant_id ≡ length c'.tenant_id
      → length (as_bytes c.tenant_id) ≡ length (as_bytes c'.tenant_id)
      → session_of p c ≡ session_of p' c'
      → as_bytes c.tenant_id ≡ as_bytes c'.tenant_id
  unfolding session_preimage
  resolve_session_id-tenant p p' c c' free plain e e' l b same =
      elim (Option-cases (usable u c.idempotency_key)) [
        | inl k ↦ elim (Option-cases (usable u c'.idempotency_key)) [
          | inl k' ↦ prefix_unique (as_bytes c.tenant_id) (as_bytes c'.tenant_id) _ _ b (
              free (session_preimage c.tenant_id c.api_key c.seconds c.raw_payload)
                (session_preimage c'.tenant_id c'.api_key c'.seconds c'.raw_payload)
                (cc (session_hashed p c e k, session_hashed p' c' e' k', same)))
          | inr (key', k') ↦ absurd (
              joined_ne c'.tenant_id key'
                (digest (session_preimage c.tenant_id c.api_key c.seconds c.raw_payload))
                (plain (session_preimage c.tenant_id c.api_key c.seconds c.raw_payload))
                (cc (session_hashed p c e k, session_keyed p' c' key' e' k', same)))
        ]
        | inr (key, k) ↦ elim (Option-cases (usable u c'.idempotency_key)) [
          | inl k' ↦ absurd (
              joined_ne c.tenant_id key
                (digest (session_preimage c'.tenant_id c'.api_key c'.seconds c'.raw_payload))
                (plain (session_preimage c'.tenant_id c'.api_key c'.seconds c'.raw_payload))
                (cc (session_keyed p c key e k, session_hashed p' c' e' k', same)))
          | inr (key', k') ↦ ap as_bytes (
              prefix_unique c.tenant_id c'.tenant_id (95 ∷ key) (95 ∷ key') l
                (cc (session_keyed p c key e k, session_keyed p' c' key' e' k', same)))
        ]
      ]

  -- A client that names a session is in it, whatever its tenant, its key, its clock and its body: a
  -- session id is shared by all the tenants that send it.
  pub session_shared :
      (sid : Text) (p : Option Text) (c c' : Caller)
      → usable u p ≡ some sid
      → (session_of p c ≡ sid) × (session_of p c' ≡ sid)
  unfolding resolve_session_id
  session_shared sid p c c' e = (rw (e, resolve_session_id) refl, rw (e, resolve_session_id) refl)

  -- The session of tenant `t_v` with idempotency key `k` is that of tenant `t` with key `v_k`.
  pub keyed_session_ambiguous :
      (t v k : Text) → keyed_session (t ++ 95 ∷ v) k ≡ keyed_session t (v ++ 95 ∷ k)
  unfolding keyed_session
  keyed_session_ambiguous t v k = append_assoc t (95 ∷ v) (95 ∷ k)
