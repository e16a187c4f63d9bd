-- ===== src/RateLimit/Window.antt =====
-- One minute of one bucket: how many of its requests are forwarded.
use kryneth_oss.Prelude.{ℕ, zero, suc, ◌+◌, ◌-◌, ◌≤◌, ◌<◌, ◌≡◌, refl, true, false, arith}
use Prim.Native.Nat.{min}
use native.Mathlib.Decide.{dec_lt}
use kryneth_oss.RateLimit.{LocalBucket, limited, forwarded, admit, reset_bucket}

-- A number of requests, one after the other, and how many of them are forwarded.
unfoldable pub admit_many : ℕ → ℕ → LocalBucket → ℕ × LocalBucket
admit_many capacity zero b = (0, b)
admit_many capacity (suc n) b =
    let (verdict, b') = admit capacity b in
    let (count, b'') = admit_many capacity n b' in
    (elim verdict [ limited c ↦ count | forwarded ↦ count + 1 ], b'')

admit_blocked :
    (capacity n : ℕ) (b : LocalBucket) → b.is_blocked ≡ true → (admit_many capacity n b).0 ≡ 0
unfolding admit_many admit
admit_blocked capacity zero b h = refl
admit_blocked capacity (suc n) b h =
    ground (arith, admit_blocked capacity n (record b { capacity_rpm = capacity }) h)

admit_room :
    (capacity : ℕ) (b : LocalBucket)
    → b.is_blocked ≡ false
    → b.consumed < capacity
    → capacity < 4294967296
    → admit capacity b
      ≡ (forwarded, record b { consumed = b.consumed + 1; capacity_rpm = capacity })
unfolding admit
admit_room capacity b h room w = ground arith

admit_full :
    (capacity : ℕ) (b : LocalBucket)
    → b.is_blocked ≡ false
    → 0 < capacity
    → capacity ≤ b.consumed
    → (admit capacity b).0 ≡ limited capacity × ((admit capacity b).1.is_blocked ≡ true)
unfolding admit
admit_full capacity b h pos full = ground arith

admit_open :
    (capacity n : ℕ) (b : LocalBucket)
    → b.is_blocked ≡ false
    → 0 < capacity
    → b.consumed ≤ capacity
    → capacity < 4294967296
    → (admit_many capacity n b).0 ≡ min n (capacity - b.consumed)
unfolding admit_many
admit_open capacity zero b h pos le w = omega arith
admit_open capacity (suc n) b h pos le w = elim (dec_lt b.consumed capacity) [
  | yes room ↦
      let next = record b { consumed = b.consumed + 1; capacity_rpm = capacity } in
      let e = admit_room capacity b h room w in
      let ih : (admit_many capacity n (admit capacity b).1).0 ≡ min n (capacity - next.consumed) =
        rw e (admit_open capacity n next h pos (omega arith) w) in
      rw (e, admit_many) (omega (arith, ih))
  | no full ↦
      let (refused, shut) = admit_full capacity b h pos (omega arith) in
      rw (refused, admit_many) (omega (arith, admit_blocked capacity n (admit capacity b).1 shut))
]

-- After a reset, of any number of requests while the limit of the route stays the same, a positive
-- `u32`, exactly as many are forwarded as the limit allows.
pub admit_many_exact :
    (capacity n : ℕ) (b : LocalBucket)
    → 0 < capacity
    → capacity < 4294967296
    → (admit_many capacity n (reset_bucket b)).0 ≡ min n capacity
unfolding reset_bucket
admit_many_exact capacity n b pos w =
    omega (arith, admit_open capacity n (reset_bucket b) refl pos (omega arith) w)

-- A limit of zero means no limit: every request after a reset is forwarded.
pub admit_many_unlimited :
    (n : ℕ) (b : LocalBucket) → b.is_blocked ≡ false → (admit_many 0 n b).0 ≡ n
unfolding admit_many admit
admit_many_unlimited zero b h = refl
admit_many_unlimited (suc n) b h =
    ground (arith, admit_many_unlimited n (record b { capacity_rpm = 0 }) h)
