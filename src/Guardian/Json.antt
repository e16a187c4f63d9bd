-- ===== src/Guardian/Json.antt =====
-- The value that simd_json parses a body into, by the constructors that behavior_guard.rs takes
-- apart, and the accessors that it calls. An object has each key once.
use kryneth_oss.Prelude.{
  ℕ, Bool, true, false, Option, none, some, List, [], ◌∷◌, Text, text_eq, if◌then◌else◌,
}

pub data StaticNode : Type 0 where
  i64 : ℕ → StaticNode
  u64 : ℕ → StaticNode
  f64 : ℕ → StaticNode
  bool : Bool → StaticNode
  null : StaticNode

mutual
  pub data BorrowedValue : Type 0 where
    static : StaticNode → BorrowedValue
    string : Text → BorrowedValue
    array : Items → BorrowedValue
    object : Members → BorrowedValue

  pub data Items : Type 0 where
    no_item : Items
    item : BorrowedValue → Items → Items

  pub data Members : Type 0 where
    no_member : Members
    member : Text → BorrowedValue → Members → Members

abbrev pub null_value : BorrowedValue
null_value = static StaticNode.null

unfoldable pub items : Items → List BorrowedValue
items no_item = []
items (item v vs) = v ∷ items vs

unfoldable pub member_of : Text → Members → Option BorrowedValue
member_of k no_member = none
member_of k (member j v ms) = if text_eq j k then some v else member_of k ms

unfoldable pub get : Text → BorrowedValue → Option BorrowedValue
unfolding member_of
get k (object ms) = member_of k ms
get k _ = none

unfoldable pub as_str : BorrowedValue → Option Text
as_str (string s) = some s
as_str _ = none

unfoldable pub as_array : BorrowedValue → Option (List BorrowedValue)
unfolding items
as_array (array vs) = some (items vs)
as_array _ = none

unfoldable pub is_object : BorrowedValue → Bool
is_object (object ms) = true
is_object _ = false
