-- ===== src/Json.antt =====
-- `serde_json::Value`, as the tool router and the provider plugins build and read it. An object is a
-- `BTreeMap`: its members stand in the order of their keys, and `insert` keeps that order. A number
-- is kept as its text.
use kryneth_oss.Prelude.{
  ◌≡◌, refl, ap, Bool, true, false, Option, none, some, List, [], ◌∷◌, Text, text_eq, text_eq_iff,
  ltb, ◌==◌, if◌then◌else◌, arith,
}

mutual
  pub data Value : Type 0 where
    null : Value
    bool : Bool → Value
    number : Text → Value
    string : Text → Value
    array : Values → Value
    object : Members → Value

  pub data Values : Type 0 where
    no_value : Values
    value : Value → Values → Values

  pub data Members : Type 0 where
    no_member : Members
    member : Text → Value → Members → Members

-- The order of the keys.
unfoldable pub text_less : Text → Text → Bool
text_less s [] = false
text_less [] (y ∷ ys) = true
text_less (x ∷ xs) (y ∷ ys) = let rest = text_less xs ys in if x == y then rest else ltb x y

unfoldable pub find : Text → Members → Option Value
find k no_member = none
find k (member j v ms) = if text_eq j k then some v else find k ms

unfoldable pub put : Text → Value → Members → Members
unfolding text_less
put k v no_member = member k v no_member
put k v (member j w ms) =
    if text_eq j k
    then member k v ms
    else if text_less k j
    then member k v (member j w ms)
    else member j w (put k v ms)

-- `value.get(key)`
unfoldable pub get : Text → Value → Option Value
unfolding find
get k (object ms) = find k ms
get k _ = none

unfoldable pub as_str : Value → Option Text
as_str (string s) = some s
as_str _ = none

unfoldable pub values_list : Values → List Value
values_list no_value = []
values_list (value v vs) = v ∷ values_list vs

unfoldable pub values_of : List Value → Values
values_of [] = no_value
values_of (v ∷ vs) = value v (values_of vs)

unfoldable pub as_array : Value → Option (List Value)
unfolding values_list
as_array (array vs) = some (values_list vs)
as_array _ = none

-- `if let Some(x) = …`, and `and_then`.
abbrev pub and_then {ℓ κ} : {A : Type ℓ} {B : Type κ} → Option A → (A → Option B) → Option B
and_then none f = none
and_then (some a) f = f a

-- The member of a member, as a text.
unfoldable pub get_str : Text → Value → Option Text
unfolding get as_str
get_str k v = and_then (get k v) as_str

pub values_list-values_of : (vs : List Value) → values_list (values_of vs) ≡ vs
unfolding values_list values_of
values_list-values_of [] = refl
values_list-values_of (v ∷ vs) = ap (λ r. v ∷ r) (values_list-values_of vs)

pub find-put :
    (k j : Text) (v : Value) (ms : Members)
    → find j (put k v ms) ≡ (if text_eq k j then some v else find j ms)
unfolding find put
find-put k j v no_member = refl
find-put k j v (member i w ms) =
    ground (arith, text_eq_iff k j, text_eq_iff i k, text_eq_iff i j, find-put k j v ms)
