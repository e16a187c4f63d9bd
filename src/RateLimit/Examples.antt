-- ===== src/RateLimit/Examples.antt =====
-- The theorems about the rate limiter at concrete buckets and requests.
use kryneth_oss.Prelude.{
  ◌≡◌, inl, ◌≢◌, true, false, Option, none, some, List, [], ◌∷◌, Text, Bytes, codes, arith, lookup,
  NoColon, text_eq,
}
use Prim.Native.Nat.{min}
use kryneth_oss.Config.{RoutingState}
use kryneth_oss.RateLimit.{
  LocalBucket, Request, bucket_key, route_of, rate_limit_middleware, reset_bucket,
}
use kryneth_oss.RateLimit.Window.{admit_many, admit_many_exact}
use kryneth_oss.RateLimit.Race.{Traffic, Event, check, add, block, run, IsWithin, run-IsWithin}
use kryneth_oss.RateLimit.Keys.{other_tenant_untouched}

abbrev spent : LocalBucket
spent = record { consumed = 9; is_blocked = true; capacity_rpm = 2 }

admit_many_exact_example : (admit_many 2 5 (reset_bucket spent)).0 ≡ min 5 2
admit_many_exact_example = admit_many_exact 2 5 spent (omega arith) (omega arith)

abbrev quiet : Traffic
quiet = record {
  consumed = 1;
  is_blocked = false;
  checked = 2;
  to_block = 1;
  forwarded = 1;
  refused = 0;
}

abbrev race : List Event
race = check ∷ add ∷ add ∷ block ∷ []

run-IsWithin_example : IsWithin 2 10 (run 2 race quiet)
run-IsWithin_example =
    run-IsWithin 2 race quiet 10 (omega arith)
      (record { limit = omega arith; counted = omega arith; far = omega arith })

abbrev unlimited_routing : RoutingState
unlimited_routing = record { state = []; client_configs = [] }

abbrev of_alice : Request
of_alice = record { headers = (codes "x-tenant-id", codes "alice") ∷ []; peer = none }

abbrev readable : Bytes → Option Text
readable b = some b

alice-NoColon : NoColon (route_of readable of_alice).0
unfolding route_of lookup text_eq
alice-NoColon = ground arith

bob-NoColon : NoColon (codes "bob")
bob-NoColon = ground arith

alice_ne_bob : (route_of readable of_alice).0 ≢ codes "bob"
unfolding route_of lookup text_eq
alice_ne_bob e = cc

other_tenant_untouched_example :
    lookup
      (bucket_key (codes "bob") none)
      (rate_limit_middleware readable unlimited_routing 60 of_alice []).1
    ≡ lookup (bucket_key (codes "bob") none) []
other_tenant_untouched_example =
    other_tenant_untouched readable unlimited_routing 60 of_alice [] (codes "bob") none
      alice-NoColon bob-NoColon (inl alice_ne_bob)
