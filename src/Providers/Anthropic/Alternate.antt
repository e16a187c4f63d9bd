-- ===== src/Providers/Anthropic/Alternate.antt =====
-- The messages of an Anthropic request alternate, and are those of the conversation.
use kryneth_oss.Prelude.{◌≡◌, false, Option, none, some, List, [], ◌∷◌}
use kryneth_oss.Providers.{KrynethMessage}
use kryneth_oss.Providers.Anthropic.{
  AnthropicRole, AnthropicMessage, role_of, blocks_of, dummy, repeats,
}

-- No message has the role of the one before it.
abbrev pub Alternates : Option AnthropicRole → List AnthropicMessage → Type 0
Alternates last [] = Unit
Alternates last (m ∷ ms) = (repeats last m.role ≡ false) × Alternates (some m.role) ms

-- The messages without a role of the system's, each in the form that Anthropic takes.
unfoldable pub translated : List KrynethMessage → List AnthropicMessage
translated [] = []
translated (m ∷ ms) =
    let rest = translated ms in
    elim (role_of m.role) [
      | none ↦ rest
      | some r ↦ record { role = r; content = blocks_of m.content } ∷ rest
    ]

-- A list with dummies put between its elements.
pub data WithDummies : List AnthropicMessage → List AnthropicMessage → Type 0 where
  end : WithDummies [] []
  kept :
      (m : AnthropicMessage) (xs ys : List AnthropicMessage)
      → WithDummies xs ys
      → WithDummies (m ∷ xs) (m ∷ ys)
  added :
      (r : AnthropicRole) (xs ys : List AnthropicMessage)
      → WithDummies xs ys
      → WithDummies xs (dummy r ∷ ys)
