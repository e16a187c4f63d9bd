-- ===== src/Mcp/Scan.antt =====
-- `NameScanFsm`: the byte machine that reads the value of the first `"name"` key of a JSON text,
-- and `std::str::from_utf8` on what it has read.
pub mod Chunks
pub mod Capture
use kryneth_oss.Prelude.{
  ℕ, zero, suc, ◌+◌, ◌-◌, ◌*◌, ◌≡◌, Bool, true, false, not, ◌&&◌, ◌||◌, Option, none, some, List,
  [], ◌∷◌, ◌++◌, Text, Bytes, codes, as_bytes, text_eq, text_eq_sound, leb, ltb, ◌==◌,
  if◌then◌else◌, arith, Bool-cases, inl, inr,
}

pub data FsmState : Type 0 where
  idle : FsmState
  match_key : ℕ → FsmState
  after_key_close after_colon in_value in_value_escape : FsmState

pub record NameScanFsm : Type 0 where
  pub state : FsmState
  pub value_buf : Bytes

abbrev pub new : NameScanFsm
new = record { state = idle; value_buf = [] }

-- `p < 4 && b == KEY[p]`
unfoldable pub matches_at : Bytes → ℕ → ℕ → Bool
matches_at [] p b = false
matches_at (k ∷ ks) zero b = b == k
matches_at (k ∷ ks) (suc p) b = matches_at ks p b

abbrev pub is_blank : ℕ → Bool
is_blank b = b == 32 || b == 9 || b == 13 || b == 10

-- What the machine does with a byte: it goes on, or it returns the value it has read.
pub data Fed : Type 0 where
  pending : NameScanFsm → Fed
  captured : NameScanFsm → Bytes → Fed

-- One round of the loop of `feed`.
unfoldable pub feed_byte : FsmState → Bytes → ℕ → Fed
unfolding matches_at
feed_byte idle buf b =
    pending (record { state = if b == 34 then match_key 0 else idle; value_buf = buf })
feed_byte (match_key p) buf b = pending (record {
  state =
      if matches_at (codes "name") p b
      then match_key (p + 1)
      else if p == 4 && b == 34
      then after_key_close
      else if b == 34
      then match_key 0
      else idle;
  value_buf = buf;
})
feed_byte after_key_close buf b = pending (record {
  state = if b == 58 then after_colon else if is_blank b then after_key_close else idle;
  value_buf = buf;
})
feed_byte after_colon buf b =
    if b == 34
    then pending (record { state = in_value; value_buf = [] })
    else if is_blank b
    then pending (record { state = after_colon; value_buf = buf })
    else pending (record { state = idle; value_buf = buf })
feed_byte in_value buf b =
    if b == 34
    then captured (record { state = idle; value_buf = [] }) buf
    else if b == 92
    then pending (record { state = in_value_escape; value_buf = buf })
    else pending (record { state = in_value; value_buf = buf ++ b ∷ [] })
feed_byte in_value_escape buf b = pending (record { state = in_value; value_buf = buf ++ b ∷ [] })

-- The bytes behind the quote that completes a value are not looked at.
unfoldable pub feed : NameScanFsm → Bytes → Fed
unfolding feed_byte
feed f [] = pending f
feed f (b ∷ bs) = elim (feed_byte f.state f.value_buf b) [
  | pending g ↦ feed g bs
  | captured g v ↦ captured g v
]

-- The code points that bytes stand for where they are UTF-8.
unfoldable pub decode : Bytes → Text
decode [] = []
decode (a ∷ []) = a ∷ []
decode (a ∷ b ∷ []) =
    let rest = decode (b ∷ []) in if ltb a 128 then a ∷ rest else ((a - 192) * 64 + (b - 128)) ∷ []
decode (a ∷ b ∷ c ∷ []) =
    let one = decode (b ∷ c ∷ []) in
    let two = decode (c ∷ []) in
    if ltb a 128
    then a ∷ one
    else if ltb a 224
    then ((a - 192) * 64 + (b - 128)) ∷ two
    else ((a - 224) * 4096 + (b - 128) * 64 + (c - 128)) ∷ []
decode (a ∷ b ∷ c ∷ d ∷ bs) =
    let one = decode (b ∷ c ∷ d ∷ bs) in
    let two = decode (c ∷ d ∷ bs) in
    let three = decode (d ∷ bs) in
    let four = decode bs in
    if ltb a 128
    then a ∷ one
    else if ltb a 224
    then ((a - 192) * 64 + (b - 128)) ∷ two
    else if ltb a 240
    then ((a - 224) * 4096 + (b - 128) * 64 + (c - 128)) ∷ three
    else ((a - 240) * 262144 + (b - 128) * 4096 + (c - 128) * 64 + (d - 128)) ∷ four

-- A `char`: a code point that is no surrogate.
unfoldable pub are_chars : Text → Bool
are_chars [] = true
are_chars (c ∷ s) = ltb c 1114112 && not (leb 55296 c && leb c 57343) && are_chars s

-- `std::str::from_utf8`: bytes are valid where they are the encoding of what they decode to.
unfoldable pub from_utf8 : Bytes → Option Text
unfolding decode are_chars
from_utf8 bytes =
    let s = decode bytes in if are_chars s && text_eq (as_bytes s) bytes then some s else none

pub from_utf8_sound : (bytes s : Bytes) → from_utf8 bytes ≡ some s → as_bytes s ≡ bytes
unfolding from_utf8
from_utf8_sound bytes s h = elim (Bool-cases (text_eq (as_bytes (decode bytes)) bytes)) [
  | inl e ↦ ground (arith, text_eq_sound (as_bytes (decode bytes)) bytes e)
  | inr e ↦ ground arith
]
