-- ===== src/Mcp/Scan/Capture.antt =====
-- What the machine reads behind a `"name"` key.
use kryneth_oss.Prelude.{
  ◌≡◌, refl, ap, ◌∙◌, true, ◌||◌, [], ◌∷◌, ◌++◌, Bytes, codes, ◌==◌, if◌then◌else◌, arith, All,
  Bool-cases, inl, inr,
}
use mathlib.Core.List.{append_assoc, append-nil}
use kryneth_oss.Mcp.Scan.{
  FsmState, idle, after_key_close, after_colon, in_value, NameScanFsm, new, is_blank, pending,
  captured, feed_byte, feed, matches_at,
}
use kryneth_oss.Mcp.Scan.Chunks.{resume, feed-append}

-- A text with a backslash before each quote and backslash.
unfoldable pub escape : Bytes → Bytes
escape [] = []
escape (b ∷ v) = let rest = escape v in if b == 34 || b == 92 then 92 ∷ b ∷ rest else b ∷ rest

abbrev fsm : FsmState → Bytes → NameScanFsm
fsm s buf = record { state = s; value_buf = buf }

-- The machine reads an escaped value back.
feed-escape :
    (buf v rest : Bytes) → feed (fsm in_value buf) (escape v ++ 34 ∷ rest) ≡ captured new (buf ++ v)
unfolding feed feed_byte escape
feed-escape buf [] rest = rw append-nil refl
feed-escape buf (b ∷ v) rest = elim (Bool-cases (b == 34 || b == 92)) [
  | inl e ↦
      rw e (feed-escape (buf ++ b ∷ []) v rest ∙ ap (captured new) (append_assoc buf (b ∷ []) v))
  | inr e ↦
      let next = feed-escape (buf ++ b ∷ []) v rest in
      rw e (ground (arith, next, append_assoc buf (b ∷ []) v))
]

abbrev pub IsBlank : Bytes → Type 0
IsBlank = All (λ b. is_blank b ≡ true)

skip_before_colon :
    (buf ws rest : Bytes)
    → IsBlank ws
    → feed (fsm after_key_close buf) (ws ++ rest) ≡ feed (fsm after_key_close buf) rest
unfolding feed feed_byte
skip_before_colon buf [] rest h = refl
skip_before_colon buf (b ∷ ws) rest h =
    let next = skip_before_colon buf ws rest h.1 in ground (arith, next, h.0)

skip_after_colon :
    (buf ws rest : Bytes)
    → IsBlank ws
    → feed (fsm after_colon buf) (ws ++ rest) ≡ feed (fsm after_colon buf) rest
unfolding feed feed_byte
skip_after_colon buf [] rest h = refl
skip_after_colon buf (b ∷ ws) rest h =
    let next = skip_after_colon buf ws rest h.1 in ground (arith, next, h.0)

feed-name_field :
    (buf ws ws' v rest : Bytes)
    → IsBlank ws
    → IsBlank ws'
    → feed (fsm idle buf) (codes "\"name\"" ++ (ws ++ 58 ∷ (ws' ++ 34 ∷ (escape v ++ 34 ∷ rest))))
      ≡ captured new v
unfolding feed feed_byte matches_at
feed-name_field buf ws ws' v rest h h' =
    skip_before_colon buf ws (58 ∷ (ws' ++ 34 ∷ (escape v ++ 34 ∷ rest))) h
    ∙ skip_after_colon buf ws' (34 ∷ (escape v ++ 34 ∷ rest)) h'
    ∙ feed-escape [] v rest

-- Behind any text at whose end the machine is idle, the field `"name": "v"`, with any blanks around
-- the colon and with the quotes and backslashes of `v` escaped, is read as `v`, whatever follows.
pub feed-captures :
    (before : Bytes) (buf ws ws' v rest : Bytes)
    → feed new before ≡ pending (fsm idle buf)
    → IsBlank ws
    → IsBlank ws'
    → feed new (before ++ (codes "\"name\"" ++ (ws ++ 58 ∷ (ws' ++ 34 ∷ (escape v ++ 34 ∷ rest)))))
      ≡ captured new v
unfolding resume
feed-captures before buf ws ws' v rest idle_there h h' =
    feed-append new before _ ∙ rw idle_there (feed-name_field buf ws ws' v rest h h')
