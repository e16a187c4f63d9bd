-- ===== src/Guardian/Limits/Counts.antt =====
-- When a request passes the guardian, and what it leaves in the counters.
use kryneth_oss.Prelude.{
  ℕ, ◌+◌, ◌≤◌, ◌<◌, ◌≡◌, ◌↔◌, refl, sym, ap, ◌∙◌, true, false, Option, none, some, List, [], ◌∷◌,
  Text, Bytes, Map, arith, insert, lookup-insert, text_eq, text_eq_refl, text_eq_sound, ltb, u32,
  length, if◌then◌else◌, Bool-cases, inl, inr,
}
use native.Mathlib.Decide.{dec_lt, dec_le}
use kryneth_oss.Guardian.Json.{BorrowedValue}
use kryneth_oss.Guardian.Hash.{AHasher}
use kryneth_oss.Guardian.Limits.{
  Verdict, passed, agent_tool_storm, agent_runaway_loop, Guardian, count_of, block, check_calls,
  storm_key, call_keys, enforce_oss_tool_calls,
}

-- How often a key occurs among the calls of a request.
unfoldable pub occurrences : Text → List (Option Text) → ℕ
occurrences k [] = 0
occurrences k (none ∷ keys) = occurrences k keys
occurrences k (some j ∷ keys) = (if text_eq j k then 1 else 0) + occurrences k keys

count_of-insert :
    (j k : Text) (n : ℕ) (cache : Map ℕ)
    → count_of k (insert j n cache) ≡ (if text_eq j k then n else count_of k cache)
unfolding count_of
count_of-insert j k n cache = ground (arith, lookup-insert j k n cache)

-- Every signature among the calls stays within the limit, what was counted before included.
abbrev pub WithinLimit : ℕ → List (Option Text) → Map ℕ → Type 0
WithinLimit max keys cache =
    (k : Text) → 0 < occurrences k keys → count_of k cache + occurrences k keys ≤ max

-- The counters are far enough from the wrap-around of `u32`.
abbrev pub Far : List (Option Text) → Map ℕ → Type 0
Far keys cache = (k : Text) → count_of k cache + length keys < 4294967296

-- The counters with one more call of key `j`.
abbrev bumped : Text → Map ℕ → Map ℕ
bumped j cache = insert j (u32 (count_of j cache + 1)) cache

module _ (j : Text) (cache : Map ℕ) (near : count_of j cache + 1 < 4294967296) where
  count_of-bumped :
      (k : Text) → count_of k (bumped j cache) ≡ count_of k cache + (if text_eq j k then 1 else 0)
  count_of-bumped k = elim (Bool-cases (text_eq j k)) [
    | inl e ↦
        rw (count_of-insert j k (u32 (count_of j cache + 1)) cache, e)
          (omega (arith, near, ap (λ (t : Text). count_of t cache) (text_eq_sound j k e)))
    | inr e ↦ rw (count_of-insert j k (u32 (count_of j cache + 1)) cache, e) (omega arith)
  ]

  Far-bumped : (keys : List (Option Text)) → Far (some j ∷ keys) cache → Far keys (bumped j cache)
  Far-bumped keys far k = ground (arith, count_of-bumped k, far k)

  WithinLimit-bumped :
      (max : ℕ) (keys : List (Option Text))
      → count_of j cache + 1 ≤ max
      → WithinLimit max keys (bumped j cache) ↔ WithinLimit max (some j ∷ keys) cache
  unfolding occurrences
  WithinLimit-bumped max keys room = (
    λ h k pos. elim (Bool-cases (text_eq j k)) [
      | inl e ↦ elim (dec_lt 0 (occurrences k keys)) [
        | yes more ↦ ground (arith, h k more, count_of-bumped k, e)
        | no last ↦
            rw e
              (omega (arith, room, last, ap (λ (t : Text). count_of t cache) (text_eq_sound j k e)))
      ]
      | inr e ↦ ground (arith, h k (ground (arith, pos, e)), count_of-bumped k, e)
    ],
    λ h k pos. ground (arith, h k (ground arith), count_of-bumped k),
  )

within : (max n : ℕ) → n ≤ max → n < 4294967296 → ltb max (u32 n) ≡ false
within max n h near = ground arith

beyond : (max n : ℕ) → max < n → n < 4294967296 → ltb max (u32 n) ≡ true
beyond max n h near = ground arith

module _ (max : ℕ) (j : Text) (keys : List (Option Text)) (g : Guardian) where
  check_calls-pass :
      count_of j g.cache + 1 ≤ max
      → count_of j g.cache + 1 < 4294967296
      → check_calls max (some j ∷ keys) g
        ≡ check_calls max keys (record g { cache = bumped j g.cache })
  unfolding check_calls
  check_calls-pass room near = rw (within max (count_of j g.cache + 1) room near, check_calls)

  check_calls-fail :
      max < count_of j g.cache + 1
      → count_of j g.cache + 1 < 4294967296
      → check_calls max (some j ∷ keys) g ≡ (agent_runaway_loop, block g)
  unfolding check_calls block
  check_calls-fail over near = rw (beyond max (count_of j g.cache + 1) over near, check_calls)

occurrences_self : (j : Text) (keys : List (Option Text)) → 0 < occurrences j (some j ∷ keys)
unfolding occurrences
occurrences_self j keys = rw (text_eq_refl j) (omega arith)

Far-rest :
    (o : Option Text) (keys : List (Option Text)) (cache : Map ℕ)
    → Far (o ∷ keys) cache
    → Far keys cache
Far-rest o keys cache far k = omega (arith, far k)

-- The check of identical calls passes exactly when for every signature among the calls those
-- counted before and those of this request are together within the limit, as long as the counters
-- are far from the wrap-around of `u32`.
pub check_calls_iff :
    (max : ℕ) (keys : List (Option Text)) (g : Guardian)
    → Far keys g.cache
    → ((check_calls max keys g).0 ≡ passed) ↔ WithinLimit max keys g.cache
unfolding check_calls occurrences
check_calls_iff max [] g far = (λ h k pos. absurd (omega arith), λ h. refl)
check_calls_iff max (none ∷ keys) g far =
    check_calls_iff max keys g (Far-rest none keys g.cache far)
check_calls_iff max (some j ∷ keys) g far =
    let near : count_of j g.cache + 1 < 4294967296 = omega (arith, far j) in
    elim (dec_le (count_of j g.cache + 1) max) [
      | yes room ↦
          let (to, fro) = WithinLimit-bumped j g.cache near max keys room in
          let ih =
            check_calls_iff max keys (record g { cache = bumped j g.cache })
              (Far-bumped j g.cache near keys far) in
          rw (check_calls-pass max j keys g room near) (λ h. to (ih.0 h), λ h. ih.1 (fro h))
      | no over ↦ rw (check_calls-fail max j keys g (omega (arith, over)) near) (
        λ h. cc,
        λ h. absurd (omega (arith, over, h j (occurrences_self j keys), occurrences_self j keys)),
      )
    ]

-- A request that passes the check of identical calls has raised the counter of every signature by
-- the number of its calls with that signature, and changed no other counter, as long as the counters
-- are far from the wrap-around of `u32`.
pub check_calls-counts :
    (max : ℕ) (keys : List (Option Text)) (g : Guardian) (k : Text)
    → Far keys g.cache
    → (check_calls max keys g).0 ≡ passed
    → count_of k (check_calls max keys g).1.cache ≡ count_of k g.cache + occurrences k keys
unfolding check_calls occurrences
check_calls-counts max [] g k far h = omega arith
check_calls-counts max (none ∷ keys) g k far h =
    check_calls-counts max keys g k (Far-rest none keys g.cache far) h
check_calls-counts max (some j ∷ keys) g k far h =
    let near : count_of j g.cache + 1 < 4294967296 = omega (arith, far j) in
    elim (dec_le (count_of j g.cache + 1) max) [
      | yes room ↦
          let e = check_calls-pass max j keys g room near in
          let g' = record g { cache = bumped j g.cache } in
          rw e (
            check_calls-counts max keys g' k (Far-bumped j g.cache near keys far)
              (sym (ap (λ (r : Verdict × Guardian). r.0) e) ∙ h)
            ∙ omega (arith, count_of-bumped j g.cache near k))
      | no over ↦ cc (h, check_calls-fail max j keys g (omega (arith, over)) near)
    ]

module _ {H : Type 0} (hasher : AHasher H) (i64_to_f64 u64_to_f64 : ℕ → ℕ)
    (to_string : BorrowedValue → Text) (parse : Bytes → Option BorrowedValue)
    (max_session max_identical : ℕ) (session_id : Text) (tool_calls : List BorrowedValue)
    (g : Guardian) where
  abbrev storm : Text
  storm = storm_key hasher i64_to_f64 u64_to_f64 to_string parse session_id

  abbrev keys : List (Option Text)
  keys = call_keys hasher i64_to_f64 u64_to_f64 to_string parse session_id tool_calls

  abbrev enforced : Verdict × Guardian
  enforced =
      enforce_oss_tool_calls hasher i64_to_f64 u64_to_f64 to_string parse
        (max_session, max_identical) session_id tool_calls g

  abbrev counted : Map ℕ
  counted = insert storm (u32 (count_of storm g.cache + u32 (length tool_calls))) g.cache

  count_of-counted :
      (k : Text)
      → 0 < occurrences k keys
      → occurrences storm keys ≡ 0
      → count_of k counted ≡ count_of k g.cache
  count_of-counted k pos apart = elim (Bool-cases (text_eq storm k)) [
    | inl e ↦
        absurd (
          omega
            (arith, pos, apart, ap (λ (t : Text). occurrences t keys) (text_eq_sound storm k e)))
    | inr e ↦ rw (count_of-insert storm k _ g.cache, e)
  ]

  stored :
      count_of storm g.cache + length tool_calls < 4294967296
      → u32 (count_of storm g.cache + u32 (length tool_calls))
        ≡ u32 (count_of storm g.cache + length tool_calls)
  stored near = omega arith

  WithinLimit-counted :
      occurrences storm keys ≡ 0
      → WithinLimit max_identical keys counted ↔ WithinLimit max_identical keys g.cache
  WithinLimit-counted apart = (
    λ h k pos. omega (arith, h k pos, count_of-counted k pos apart),
    λ h k pos. omega (arith, h k pos, count_of-counted k pos apart),
  )

  enforced-storm :
      max_session < count_of storm g.cache + length tool_calls
      → count_of storm g.cache + length tool_calls < 4294967296
      → enforced ≡ (agent_tool_storm, block g)
  unfolding enforce_oss_tool_calls block
  enforced-storm over near =
      rw (stored near, beyond max_session (count_of storm g.cache + length tool_calls) over near)

  enforced-calls :
      count_of storm g.cache + length tool_calls ≤ max_session
      → count_of storm g.cache + length tool_calls < 4294967296
      → enforced ≡ check_calls max_identical keys (record g { cache = counted })
  unfolding enforce_oss_tool_calls
  enforced-calls room near =
      rw (stored near, within max_session (count_of storm g.cache + length tool_calls) room near)

  -- A request passes exactly when the session's tool calls, those of this request included, are
  -- within the limit of the session, and those of each signature within the limit of identical
  -- calls; and beyond the limit of the session it is refused as a tool storm, and no counter
  -- changes. The session's own counter has another key than the calls', and the counters are far
  -- from the wrap-around of `u32`.
  pub enforce_oss_tool_calls_lem :
      occurrences storm keys ≡ 0
      → count_of storm g.cache + length tool_calls < 4294967296
      → Far keys counted
      → ((enforced.0 ≡ passed) ↔ (
          (count_of storm g.cache + length tool_calls ≤ max_session)
          × WithinLimit max_identical keys g.cache))
        × (max_session < count_of storm g.cache + length tool_calls
            → enforced ≡ (agent_tool_storm, block g))
  enforce_oss_tool_calls_lem apart near far = (
    elim (dec_le (count_of storm g.cache + length tool_calls) max_session) [
      | yes room ↦
          let (to, fro) = check_calls_iff max_identical keys (record g { cache = counted }) far in
          let (out, back) = WithinLimit-counted apart in
          rw (enforced-calls room near) (λ h. (room, out (to h)), λ h. fro (back h.1))
      | no over ↦
          rw (enforced-storm (omega (arith, over)) near)
            (λ h. cc, λ h. absurd (omega (arith, over, h.0)))
    ],
    λ over. enforced-storm over near,
  )
