-- ===== src/RateLimit/Race.antt =====
-- The same middleware with its atomic steps taken apart, for any number of concurrent requests: the
-- load of `is_blocked`, the `fetch_add` on `consumed`, the store to `is_blocked`, and the two stores
-- of the reset worker. The limit of the route stays the same; a limit of zero is none, and a request
-- that is not blocked is forwarded without being counted.
use kryneth_oss.Prelude.{
  ℕ, zero, suc, ◌+◌, ◌-◌, ◌≤◌, ◌<◌, ◌≡◌, refl, Bool, true, false, List, [], ◌∷◌, arith, leb, ◌==◌,
  ◌||◌, if◌then◌else◌, u32, length, replicate,
}

-- The bucket, and the requests by where they are: past the check with the addition to come, refused
-- with the store of `is_blocked` to come, and answered in this minute.
pub record Traffic : Type 0 where
  pub consumed : ℕ
  pub is_blocked : Bool
  pub checked : ℕ
  pub to_block : ℕ
  pub forwarded : ℕ
  pub refused : ℕ

pub data Event : Type 0 where
  check add block clear_consumed clear_blocked : Event

unfoldable pub on_add : ℕ → Traffic → Traffic
on_add capacity t =
    let t' = record t { consumed = u32 (t.consumed + 1); checked = t.checked - 1 } in
    if leb capacity t.consumed
    then record t' { to_block = t.to_block + 1; refused = t.refused + 1 }
    else record t' { forwarded = t.forwarded + 1 }

-- An event that has no request to act on does nothing; where the limit is zero, no request gets to the
-- addition.
unfoldable pub step : ℕ → Event → Traffic → Traffic
unfolding on_add
step capacity check t =
    if t.is_blocked
    then record t { refused = t.refused + 1 }
    else if capacity == 0
    then record t { forwarded = t.forwarded + 1 }
    else record t { checked = t.checked + 1 }
step capacity add t = if t.checked == 0 || capacity == 0 then t else on_add capacity t
step capacity block t =
    if t.to_block == 0 then t else record t { is_blocked = true; to_block = t.to_block - 1 }
step capacity clear_consumed t = record t { consumed = 0; forwarded = 0; refused = 0 }
step capacity clear_blocked t = record t { is_blocked = false }

unfoldable pub run : ℕ → List Event → Traffic → Traffic
run capacity [] t = t
run capacity (e ∷ es) t = run capacity es (step capacity e t)

-- Far from the wrap-around of `consumed`, the forwarded requests of a minute are within the limit
-- and counted by `consumed`.
pub record IsWithin (capacity room : ℕ) (t : Traffic) : Type 0 where
  pub limit : t.forwarded ≤ capacity
  pub counted : t.forwarded ≤ t.consumed
  pub far : t.consumed + room < 4294967296

step-IsWithin :
    (capacity room : ℕ) (e : Event) (t : Traffic)
    → 0 < capacity
    → IsWithin capacity (suc room) t
    → IsWithin capacity room (step capacity e t)
unfolding step
step-IsWithin capacity room check t limited h = ground arith
step-IsWithin capacity room add t limited h = ground arith
step-IsWithin capacity room block t limited h = ground arith
step-IsWithin capacity room clear_consumed t limited h = ground arith
step-IsWithin capacity room clear_blocked t limited h = ground arith

-- From a bucket that is within its limit, which is not zero, whatever the order of the atomic steps of
-- any number of requests and of the worker, no more requests are forwarded in a minute than the limit
-- allows, as long as the counter is farther below 2 ^ 32 than there are steps.
pub run-IsWithin :
    (capacity : ℕ) (es : List Event) (t : Traffic) (room : ℕ)
    → 0 < capacity
    → IsWithin capacity (length es + room) t
    → IsWithin capacity room (run capacity es t)
unfolding run
run-IsWithin capacity [] t room limited h = ground arith
run-IsWithin capacity (e ∷ es) t room limited h =
    run-IsWithin capacity es (step capacity e t) room limited
      (step-IsWithin capacity (length es + room) e t limited (ground arith))

blocked_refuses :
    (capacity n : ℕ) (t : Traffic)
    → t.is_blocked ≡ true
    → let t' = run capacity (replicate n check) t in
      (t'.forwarded ≡ t.forwarded) × (t'.refused ≡ t.refused + n)
unfolding run step
blocked_refuses capacity zero t h = (refl, omega arith)
blocked_refuses capacity (suc n) t h =
    ground (arith, blocked_refuses capacity n (record t { refused = t.refused + 1 }) h)

-- A request that was refused before a reset, and stores `is_blocked` after it, blocks a bucket of
-- which nothing is consumed: until the next reset every request that checks it is refused.
pub late_block_starves :
    (capacity n : ℕ) (t : Traffic)
    → 0 < t.to_block
    → let t' = run capacity (clear_consumed ∷ clear_blocked ∷ block ∷ []) t in
      (t'.consumed ≡ 0)
      × ((run capacity (replicate n check) t').forwarded ≡ 0)
      × ((run capacity (replicate n check) t').refused ≡ n)
unfolding run step
late_block_starves capacity n t h = ground (
  arith,
  blocked_refuses capacity n (record t {
    consumed = 0;
    forwarded = 0;
    refused = 0;
    is_blocked = true;
    to_block = t.to_block - 1;
  }),
)
