-- ===== src/Mcp/Scan/Chunks.antt =====
-- The machine on a text that comes in pieces.
use kryneth_oss.Prelude.{◌≡◌, refl, [], ◌∷◌, ◌++◌, Bytes}
use kryneth_oss.Mcp.Scan.{NameScanFsm, Fed, pending, captured, feed_byte, feed}

-- What the machine does with a further piece.
unfoldable pub resume : Fed → Bytes → Fed
resume (pending g) ys = feed g ys
resume (captured g v) ys = captured g v

resume-byte :
    (r : Fed) (xs ys : Bytes)
    → ((g : NameScanFsm) → feed g (xs ++ ys) ≡ resume (feed g xs) ys)
    → elim r [ pending g ↦ feed g (xs ++ ys) | captured g v ↦ captured g v ]
      ≡ resume (elim r [ pending g ↦ feed g xs | captured g v ↦ captured g v ]) ys
unfolding resume
resume-byte (pending g) xs ys ih = ih g
resume-byte (captured g v) xs ys ih = refl

-- Feeding a text in two pieces, cut anywhere, also inside of a key, an escape or a value, does what
-- feeding it at once does: as long as no value was complete, the second piece goes on where the
-- first stopped.
pub feed-append : (f : NameScanFsm) (xs ys : Bytes) → feed f (xs ++ ys) ≡ resume (feed f xs) ys
unfolding feed resume
feed-append f [] ys = refl
feed-append f (b ∷ xs) ys =
    resume-byte (feed_byte f.state f.value_buf b) xs ys (λ g. feed-append g xs ys)
