-- ===== src/RateLimit.antt =====
-- The rate limiter: src/api/middleware/rate_limit.rs, and the worker that resets its buckets,
-- `OssRateLimit` of src/infrastructure/oss_adapters.rs. `to_str` stands for `HeaderValue::to_str` of
-- the crate http. A request is one step here; RateLimit/Race.antt takes it apart.
mod Examples
pub mod Window
pub mod Race
pub mod Keys
use kryneth_oss.Prelude.{
  ℕ, ◌+◌, Bool, true, false, Option, none, some, List, [], ◌∷◌, ◌++◌, Text, Bytes, Map, codes,
  lookup, insert, leb, ◌==◌, if◌then◌else◌, u32,
}
use kryneth_oss.Config.{ModelConfig, RoutingState}

pub record LocalBucket : Type 0 where
  pub consumed : ℕ  -- AtomicU32
  pub is_blocked : Bool
  pub capacity_rpm : ℕ

-- What the middleware reads of a request: its headers and the peer's address, if it is known.
pub record Request : Type 0 where
  pub headers : Map Bytes
  pub peer : Option Text

pub data Verdict : Type 0 where
  limited : ℕ → Verdict
  forwarded : Verdict

abbrev pub or_else : Option Text → Text → Text
or_else none d = d
or_else (some t) d = t

abbrev pub fallback_addr : Text
fallback_addr = codes "127.0.0.1"

module _ (to_str : Bytes → Option Text) where
  abbrev header : Text → Map Bytes → Option Text
  header name headers = elim (lookup name headers) [ none ↦ none | some v ↦ to_str v ]

  unfoldable pub extract_identifiers : Map Bytes → Text → Text × Text
  extract_identifiers headers addr = (
    or_else (header (codes "x-tenant-id") headers) addr,
    or_else (header (codes "x-user-id") headers) (codes "anon_user"),
  )

  unfoldable pub extract_model_name : Map Bytes → Option Text
  extract_model_name headers = header (codes "x-kryneth-model") headers

  -- The tenant and the model of a request.
  unfoldable pub route_of : Request → Text × Option Text
  unfolding extract_identifiers extract_model_name
  route_of q = (
    (extract_identifiers q.headers (or_else q.peer fallback_addr)).0,
    extract_model_name q.headers,
  )

-- `model_cfg.rate_limit_rpm` of the tenant's model, or the global limit.
unfoldable pub capacity_of : RoutingState → ℕ → Text → Option Text → ℕ
capacity_of routing rate_limit_max tenant_id none = rate_limit_max
capacity_of routing rate_limit_max tenant_id (some model) = elim (lookup tenant_id routing.state) [
  | none ↦ rate_limit_max
  | some models ↦ elim (lookup model models) [
    | none ↦ rate_limit_max
    | some cfg ↦ elim cfg.rate_limit_rpm [ none ↦ rate_limit_max | some rpm ↦ rpm ]
  ]
]

unfoldable pub bucket_key : Text → Option Text → Text
bucket_key tenant_id (some m) = codes "rl:tb:" ++ (tenant_id ++ 58 ∷ m)
bucket_key tenant_id none = codes "rl:tb:" ++ (tenant_id ++ 58 ∷ codes "global")

abbrev pub new_bucket : ℕ → LocalBucket
new_bucket capacity = record { consumed = 0; is_blocked = false; capacity_rpm = capacity }

-- `.entry(key).or_insert_with(…)`
abbrev pub or_new : ℕ → Option LocalBucket → LocalBucket
or_new capacity none = new_bucket capacity
or_new capacity (some b) = b

-- The part of the middleware on the bucket, from the store of its capacity on.
unfoldable pub admit : ℕ → LocalBucket → Verdict × LocalBucket
admit capacity b =
    let b' = record b { capacity_rpm = capacity } in
    let taken = record b' { consumed = u32 (b.consumed + 1) } in
    if b.is_blocked
    then (limited capacity, b')
    else if capacity == 0
    then (forwarded, b')
    else if leb capacity b.consumed
    then (limited capacity, record taken { is_blocked = true })
    else (forwarded, taken)

module _ (to_str : Bytes → Option Text) (routing : RoutingState) (rate_limit_max : ℕ) where
  unfoldable pub rate_limit_middleware : Request → Map LocalBucket → Verdict × Map LocalBucket
  unfolding route_of capacity_of bucket_key admit
  rate_limit_middleware q buckets =
      let (tenant_id, model) = route_of to_str q in
      let capacity = capacity_of routing rate_limit_max tenant_id model in
      let key = bucket_key tenant_id model in
      let (verdict, b') = admit capacity (or_new capacity (lookup key buckets)) in
      (verdict, insert key b' buckets)

-- One round of the worker: every bucket starts a new minute.
unfoldable pub reset_bucket : LocalBucket → LocalBucket
reset_bucket b = record b { consumed = 0; is_blocked = false }

unfoldable pub reset_buckets : Map LocalBucket → Map LocalBucket
unfolding reset_bucket
reset_buckets [] = []
reset_buckets ((k, b) ∷ rest) = (k, reset_bucket b) ∷ reset_buckets rest
