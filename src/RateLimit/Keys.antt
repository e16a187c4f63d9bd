-- ===== src/RateLimit/Keys.antt =====
-- Which requests share a bucket.
use kryneth_oss.Prelude.{
  ℕ, zero, suc, ◌≡◌, ◌≢◌, refl, sym, ap, ◌∙◌, Option, none, some, [], ◌∷◌, ◌++◌, Text, Bytes, Map,
  codes, lookup, lookup-insert_ne, text_eq_ne, NoColon, split_unique, length, ◌⊎◌, inl, inr,
}
use mathlib.Core.List.{append_assoc}
use kryneth_oss.Config.{RoutingState}
use kryneth_oss.RateLimit.{LocalBucket, Request, bucket_key, route_of, rate_limit_middleware}

-- What follows the prefix of a key.
strip : ℕ → Text → Text
strip zero s = s
strip (suc n) [] = []
strip (suc n) (c ∷ s) = strip n s

-- The part of a bucket's key that stands for the model.
unfoldable pub model_part : Option Text → Text
model_part (some m) = m
model_part none = codes "global"

strip-bucket_key : (t : Text) (m : Option Text) → strip 6 (bucket_key t m) ≡ t ++ 58 ∷ model_part m
unfolding strip bucket_key model_part
strip-bucket_key t (some m) = refl
strip-bucket_key t none = refl

-- Two tenants whose ids hold no colon share no bucket.
pub bucket_key-tenant :
    (t t' : Text) (m m' : Option Text)
    → NoColon t
    → NoColon t'
    → bucket_key t m ≡ bucket_key t' m'
    → t ≡ t'
bucket_key-tenant t t' m m' h h' same =
    split_unique t t' (model_part m) (model_part m') h h'
      (sym (strip-bucket_key t m) ∙ ap (strip 6) same ∙ strip-bucket_key t' m')

strip-append : (t r : Text) → strip (suc (length t)) (t ++ 58 ∷ r) ≡ r
unfolding strip
strip-append [] r = refl
strip-append (c ∷ t) r = strip-append t r

-- Nor do two models of a tenant, if their parts of the key differ.
pub bucket_key-model :
    (t : Text) (m m' : Option Text)
    → bucket_key t m ≡ bucket_key t m'
    → model_part m ≡ model_part m'
bucket_key-model t m m' same =
    sym (strip-append t (model_part m))
    ∙ ap (strip (suc (length t)))
        (sym (strip-bucket_key t m) ∙ ap (strip 6) same ∙ strip-bucket_key t m')
    ∙ strip-append t (model_part m')

-- A request that names the model `global` shares the bucket of the tenant's requests that name
-- none, and tenant `t:u` with model `m` shares that of tenant `t` with model `u:m`.
pub bucket_key_shared :
    (t u m : Text)
    → (bucket_key t (some (codes "global")) ≡ bucket_key t none)
      × (bucket_key (t ++ 58 ∷ u) (some m) ≡ bucket_key t (some (u ++ 58 ∷ m)))
unfolding bucket_key
bucket_key_shared t u m =
    (refl, ap (λ (s : Text). codes "rl:tb:" ++ s) (append_assoc t (58 ∷ u) (58 ∷ m)))

module _ (to_str : Bytes → Option Text) (routing : RoutingState) (rate_limit_max : ℕ) where
  -- A request changes no bucket but the one of its own route: none of another tenant, and none of
  -- another model of its tenant, where a request without a model counts as one for `global`. The
  -- tenants' ids hold no colon.
  pub other_tenant_untouched :
      (q : Request) (buckets : Map LocalBucket) (t : Text) (m : Option Text)
      → NoColon (route_of to_str q).0
      → NoColon t
      → ((route_of to_str q).0 ≢ t) ⊎ (model_part (route_of to_str q).1 ≢ model_part m)
      → lookup (bucket_key t m) (rate_limit_middleware to_str routing rate_limit_max q buckets).1
        ≡ lookup (bucket_key t m) buckets
  unfolding rate_limit_middleware
  other_tenant_untouched q buckets t m h h' other =
      let (t0, m0) = route_of to_str q in
      lookup-insert_ne (bucket_key t0 m0) (bucket_key t m) _ buckets (
        text_eq_ne (bucket_key t0 m0) (bucket_key t m) (λ same.
          let tenants : t0 ≡ t = bucket_key-tenant t0 t m0 m h h' same in
          elim other [
            | inl n ↦ n tenants
            | inr n ↦ n (bucket_key-model t m0 m (ap (λ x. bucket_key x m0) (sym tenants) ∙ same))
          ]))
