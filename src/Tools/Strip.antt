-- ===== src/Tools/Strip.antt =====
-- What `strip_non_essential_metadata` removes, and what it keeps.
use kryneth_oss.Prelude.{
  ◌≡◌, inl, inr, refl, ap, true, false, none, some, Text, text_eq, text_eq_sound, if◌then◌else◌,
  arith, Bool-cases,
}
use kryneth_oss.Json.{
  Value, null, bool, number, string, array, object, Values, no_value, value, Members, no_member,
  member, find, get, and_then,
}
use kryneth_oss.Tools.{is_metadata, strip_non_essential_metadata, strip_values, strip_members}

-- No object of a value, at any depth, has a key that is metadata.
unfoldable mutual
  pub IsStripped : Value → Type 0
  IsStripped (object ms) = AreStrippedMembers ms
  IsStripped (array vs) = AreStripped vs
  IsStripped _ = Unit

  pub AreStripped : Values → Type 0
  AreStripped no_value = Unit
  AreStripped (value v vs) = IsStripped v × AreStripped vs

  pub AreStrippedMembers : Members → Type 0
  AreStrippedMembers no_member = Unit
  AreStrippedMembers (member k v ms) =
      (is_metadata k ≡ false) × IsStripped v × AreStrippedMembers ms

mutual
  unfolding IsStripped strip_non_essential_metadata

  stripped : (v : Value) → IsStripped (strip_non_essential_metadata v)
  stripped (object ms) = stripped_members ms
  stripped (array vs) = stripped_values vs
  stripped null = tt
  stripped (bool b) = tt
  stripped (number n) = tt
  stripped (string s) = tt

  stripped_values : (vs : Values) → AreStripped (strip_values vs)
  stripped_values no_value = tt
  stripped_values (value v vs) = (stripped v, stripped_values vs)

  stripped_members : (ms : Members) → AreStrippedMembers (strip_members ms)
  stripped_members no_member = tt
  stripped_members (member k v ms) = elim (Bool-cases (is_metadata k)) [
    | inl e ↦ rw e (stripped_members ms)
    | inr e ↦ rw e (e, stripped v, stripped_members ms)
  ]

mutual
  unfolding IsStripped strip_non_essential_metadata

  strip_same : (v : Value) → IsStripped v → strip_non_essential_metadata v ≡ v
  strip_same (object ms) h = ap object (strip_members_same ms h)
  strip_same (array vs) h = ap array (strip_values_same vs h)
  strip_same null h = refl
  strip_same (bool b) h = refl
  strip_same (number n) h = refl
  strip_same (string s) h = refl

  strip_values_same : (vs : Values) → AreStripped vs → strip_values vs ≡ vs
  strip_values_same no_value h = refl
  strip_values_same (value v vs) h = cc (strip_same v h.0, strip_values_same vs h.1)

  strip_members_same : (ms : Members) → AreStrippedMembers ms → strip_members ms ≡ ms
  strip_members_same no_member h = refl
  strip_members_same (member k v ms) (e, hv, hms) =
      rw e (cc (strip_same v hv, strip_members_same ms hms))

-- Stripping leaves no key `description`, `title` or `examples` in any object at any depth, and
-- stripping again changes nothing; a value without such keys is not changed at all.
pub strip_non_essential_metadata-IsStripped :
    (v : Value)
    → IsStripped (strip_non_essential_metadata v)
      × (strip_non_essential_metadata (strip_non_essential_metadata v)
          ≡ strip_non_essential_metadata v)
strip_non_essential_metadata-IsStripped v =
    (stripped v, strip_same (strip_non_essential_metadata v) (stripped v))

pub find-strip_members :
    (k : Text) (ms : Members)
    → find k (strip_members ms) ≡ (
        if is_metadata k
        then none
        else and_then (find k ms) (λ v. some (strip_non_essential_metadata v)))
unfolding find strip_non_essential_metadata
find-strip_members k no_member = ground arith
find-strip_members k (member j v ms) = elim (Bool-cases (text_eq j k)) [
  | inl e ↦
      let same = text_eq_sound j k e in
      elim (Bool-cases (is_metadata j)) [
        | inl m ↦
            let m' : is_metadata k ≡ true = rw same at m in
            rw (m, m') (rw m' at (find-strip_members k ms))
        | inr m ↦ let m' : is_metadata k ≡ false = rw same at m in rw (m, find, e, m') refl
      ]
  | inr e ↦ elim (Bool-cases (is_metadata j)) [
    | inl m ↦ rw (m, find, e) (find-strip_members k ms)
    | inr m ↦ rw (m, find, e) (find-strip_members k ms)
  ]
]

-- A member of an object is lost by stripping exactly where its key is `description`, `title` or
-- `examples`; every other member stays, stripped itself. So a tool's parameter that has one of these
-- names, as a key of the schema's `properties`, is lost with its type.
pub get-strip_non_essential_metadata :
    (k : Text) (ms : Members)
    → get k (strip_non_essential_metadata (object ms)) ≡ (
        if is_metadata k
        then none
        else and_then (get k (object ms)) (λ v. some (strip_non_essential_metadata v)))
unfolding get strip_non_essential_metadata
get-strip_non_essential_metadata k ms = find-strip_members k ms
