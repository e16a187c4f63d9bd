-- ===== src/Router/Rewrite.antt =====
-- `rewrite_model_field`: the scan of a JSON body for the value of its top-level `model` key, and the
-- splice of the target model in its place. The scan's position is kept as the bytes before it and
-- those after it; `depth` is an `i32` there, and wraps.
pub mod Splice
use kryneth_oss.Prelude.{
  ℕ, ◌+◌, Bool, true, false, ◌||◌, Option, none, some, List, [], ◌∷◌, ◌++◌, Text, Bytes, codes,
  starts_with, ◌==◌, if◌then◌else◌, drop, u32,
}

-- `u8::is_ascii_whitespace`
unfoldable pub is_ascii_whitespace : ℕ → Bool
is_ascii_whitespace b = b == 32 || b == 9 || b == 10 || b == 12 || b == 13

-- A position: what stands before it, and what follows.
abbrev pub Split : Type 0
Split = Bytes × Bytes

-- `while j < len && body_bytes[j].is_ascii_whitespace() { j += 1; }`
unfoldable pub skip_whitespace : Bytes → Bytes → Split
unfolding is_ascii_whitespace
skip_whitespace before [] = (before, [])
skip_whitespace before (b ∷ rest) =
    let skipped = skip_whitespace (before ++ b ∷ []) rest in
    if is_ascii_whitespace b then skipped else (before, b ∷ rest)

-- The loop that looks for the closing quote; an escape skips two bytes, and one at the very end
-- leaves the loop.
unfoldable pub closing_quote : Bytes → Bytes → Option Split
closing_quote before [] = none
closing_quote before (b ∷ []) =
    if b == 92 then none else if b == 34 then some (before, b ∷ []) else none
closing_quote before (b ∷ c ∷ rest) =
    let escaped = closing_quote (before ++ b ∷ c ∷ []) rest in
    let plain = closing_quote (before ++ b ∷ []) (c ∷ rest) in
    if b == 92 then escaped else if b == 34 then some (before, b ∷ c ∷ rest) else plain

-- From the byte after the opening quote of the value on: the text up to and with that quote, the
-- target model, and the rest from the closing quote on.
unfoldable pub splice : Bytes → Bytes → Bytes → Option Bytes
unfolding closing_quote
splice target before after = elim (closing_quote before after) [
  | none ↦ none
  | some (value_end, rest) ↦ some (before ++ (target ++ rest))
]

-- After the whitespace behind the colon: the value has to be a string.
unfoldable pub on_value : Bytes → Split → Option Bytes
unfolding splice
on_value target (before, []) = none
on_value target (before, b ∷ rest) = if b == 34 then splice target (before ++ b ∷ []) rest else none

unfoldable pub on_colon : Bytes → Split → Option Bytes
unfolding on_value skip_whitespace
on_colon target (before, []) = none
on_colon target (before, b ∷ rest) =
    if b == 58 then on_value target (skip_whitespace (before ++ b ∷ []) rest) else none

abbrev pub model_key : Bytes
model_key = codes "\"model\""

-- The part of the scan at a quote at depth 1 that opens the key `model`.
unfoldable pub at_model_key : Bytes → Bytes → Bytes → Option Bytes
unfolding on_colon skip_whitespace
at_model_key target before here =
    if starts_with model_key here
    then on_colon target (skip_whitespace (before ++ model_key) (drop 7 here))
    else none

-- `Result<Vec<u8>, String>`.
pub data Result (A : Type 0) : Type 0 where
  ok : A → Result A
  err : Text → Result A

abbrev pub not_found : Text
not_found = codes "Could not find \"model\" field for zero-copy rewrite"

abbrev pub or_scan : Option Bytes → Option Bytes → Option Bytes
or_scan none r = r
or_scan (some r) _ = some r

-- The outer loop: `in_string`, `escape` and `depth` as in the source.
unfoldable pub scan : Bytes → Bool → Bool → ℕ → Bytes → Bytes → Option Bytes
unfolding at_model_key
scan target in_string escape depth before [] = none
scan target in_string escape depth before (b ∷ rest) =
    let here = before ++ b ∷ [] in
    let in_text = λ (i e : Bool). scan target i e depth here rest in
    let opened = in_text true escape in
    let nested = scan target false escape (u32 (depth + 1)) here rest in
    let unnested = scan target false escape (u32 (depth + 4294967295)) here rest in
    let other = in_text false escape in
    let unescaped = in_text true false in
    let escaping = in_text true true in
    let inside = in_text true false in
    let closed = in_text false false in
    if in_string
    then (if escape
        then unescaped
        else if b == 92
        then escaping
        else if b == 34
        then closed
        else inside)
    else if b == 34
    then (if depth == 1 then or_scan (at_model_key target before (b ∷ rest)) opened else opened)
    else if b == 123
    then nested
    else if b == 125
    then unnested
    else other

unfoldable pub rewrite_model_field : Bytes → Bytes → Result Bytes
unfolding scan
rewrite_model_field body target = elim (scan target false false 0 [] body) [
  | none ↦ err not_found
  | some r ↦ ok r
]
