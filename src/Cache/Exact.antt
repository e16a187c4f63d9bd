-- ===== src/Cache/Exact.antt =====
-- The exact layer as a map by tenant and prompt.
use kryneth_oss.Prelude.{
  ◌≡◌, ◌≢◌, refl, sym, ap, ◌∙◌, ◌&&◌, some, [], ◌∷◌, ◌++◌, Text, Bytes, arith, lookup-insert,
  text_eq, text_eq_iff, as_bytes, if◌then◌else◌, NoColon,
}
use kryneth_oss.Cache.{L1Cache, exact_cache_key, get_exact, insert_exact}

tail : Text → Text
tail [] = []
tail (x ∷ xs) = xs

colon_inside : (t h h' : Text) → NoColon h' → h' ≢ t ++ 58 ∷ h
colon_inside [] h [] n e = cc
colon_inside [] h (c ∷ h') n e = n.0 (cc e)
colon_inside (x ∷ t) h [] n e = cc
colon_inside (x ∷ t) h (c ∷ h') n e = colon_inside t h h' n.1 (unfold tail in ap tail e)

-- What stands behind the last colon is determined, and so is what stands before it.
last_colon :
    (t t' h h' : Text) → NoColon h → NoColon h' → t ++ 58 ∷ h ≡ t' ++ 58 ∷ h' → (t ≡ t') × (h ≡ h')
unfolding tail
last_colon [] [] h h' n n' e = (refl, ap tail e)
last_colon [] (c ∷ t') h h' n n' e = absurd (colon_inside t' h' h n (ap tail e))
last_colon (c ∷ t) [] h h' n n' e = absurd (colon_inside t h h' n' (sym (ap tail e)))
last_colon (c ∷ t) (c' ∷ t') h h' n n' e =
    let (same, rest) = last_colon t t' h h' n n' (ap tail e) in (cc (same, e), rest)

module _ (sha256_hex : Bytes → Text) (no_colon : (b : Bytes) → NoColon (sha256_hex b))
    (free : (a b : Bytes) → sha256_hex a ≡ sha256_hex b → a ≡ b) where
  exact_cache_key-injective :
      (t t' p p' : Text)
      → exact_cache_key sha256_hex t p ≡ exact_cache_key sha256_hex t' p'
      → (t ≡ t') × (as_bytes p ≡ as_bytes p')
  unfolding exact_cache_key
  exact_cache_key-injective t t' p p' e =
      let (same, hash) =
        last_colon t t' (sha256_hex (as_bytes p)) (sha256_hex (as_bytes p')) (no_colon _)
          (no_colon _) e in
      (same, free (as_bytes p) (as_bytes p') hash)

  keys_meet :
      (t t' p p' : Text)
      → t' ≡ t
      → as_bytes p' ≡ as_bytes p
      → exact_cache_key sha256_hex t' p' ≡ exact_cache_key sha256_hex t p
  unfolding exact_cache_key
  keys_meet t t' p p' e f = rw (e, f) refl

  text_eq-exact_cache_key :
      (t t' p p' : Text)
      → text_eq (exact_cache_key sha256_hex t' p') (exact_cache_key sha256_hex t p)
        ≡ (text_eq t' t && text_eq (as_bytes p') (as_bytes p))
  text_eq-exact_cache_key t t' p p' = ground (
    arith,
    keys_meet t t' p p',
    text_eq_iff (exact_cache_key sha256_hex t' p') (exact_cache_key sha256_hex t p),
    text_eq_iff t' t,
    text_eq_iff (as_bytes p') (as_bytes p),
    exact_cache_key-injective t' t p' p,
  )

  -- With a hash that has no collisions and is written without a colon, as SHA-256 in hexadecimal is,
  -- the exact layer is a map by tenant and prompt: an insertion gives the response to its own
  -- tenant's own prompt, byte for byte, and changes the answer to no other tenant and no other
  -- prompt.
  pub get_exact-insert_exact :
      {V : Type 0} (t t' p p' response : Text) (c : L1Cache V)
      → get_exact sha256_hex t p (insert_exact sha256_hex t' p' response c) ≡ (
          if text_eq t' t && text_eq (as_bytes p') (as_bytes p)
          then some response
          else get_exact sha256_hex t p c)
  unfolding get_exact insert_exact
  get_exact-insert_exact t t' p p' response c =
      lookup-insert (exact_cache_key sha256_hex t' p') (exact_cache_key sha256_hex t p) response
        c.exact_cache
      ∙ rw (text_eq-exact_cache_key t t' p p') refl
