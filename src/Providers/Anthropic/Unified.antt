-- ===== src/Providers/Anthropic/Unified.antt =====
-- The tool calls of a unified response.
use kryneth_oss.Prelude.{
  ℕ, ◌≡◌, ◌⊎◌, inl, inr, refl, ap, ◌∙◌, Option, none, some, List, [], ◌∷◌, Text, codes, text_eq,
  text_eq_sound, sym, Option-cases, Bool-cases,
}
use mathlib.Core.Path.{subst}
use kryneth_oss.Json.{
  Value, object, Members, get, find, as_array, as_str, get_str, and_then, values_list,
  values_list-values_of,
}
use kryneth_oss.Providers.Anthropic.{
  call_value, openai_call, calls_of_blocks, is_tool_use, map_anthropic_tool_use_to_openai_calls,
  if_any, response, unify_response,
}

-- Where an OpenAI client looks for the tool calls: `choices[0].message.tool_calls`.
unfoldable pub tool_calls_of : Value → Option (List Value)
tool_calls_of v = elim (and_then (get (codes "choices") v) as_array) [
  | some (choice ∷ _) ↦
      and_then (and_then (get (codes "message") choice) (get (codes "tool_calls"))) as_array
  | _ ↦ none
]

module _ (to_string : Value → Text) where
  -- A content block with the type `tool_use`, and an id, a name and an object as its input.
  pub record IsToolUse (block : Value) (id name : Text) (input : Members) : Type 0 where
    pub typed : get_str (codes "type") block ≡ some (codes "tool_use")
    pub identified : get_str (codes "id") block ≡ some id
    pub named : get_str (codes "name") block ≡ some name
    pub given : get (codes "input") block ≡ some (object input)

  -- A tool call of OpenAI's format.
  pub record IsFunctionCall (call : Value) (id name arguments : Text) : Type 0 where
    pub typed : get_str (codes "type") call ≡ some (codes "function")
    pub identified : get_str (codes "id") call ≡ some id
    pub named : and_then (get (codes "function") call) (get_str (codes "name")) ≡ some name
    pub given :
        and_then (get (codes "function") call) (get_str (codes "arguments")) ≡ some arguments

  -- The blocks of a response and the calls that stand for them: one for each tool use, in order,
  -- with its id and name and the printed input, and none for another block.
  pub data Stands : List Value → List Value → Type 0 where
    nothing : Stands [] []
    called :
        {block call : Value} {blocks calls : List Value} (id name : Text) (input : Members)
        → IsToolUse block id name input
        → IsFunctionCall call id name (to_string (object input))
        → Stands blocks calls
        → Stands (block ∷ blocks) (call ∷ calls)
    other :
        {block : Value} {blocks calls : List Value}
        → ((id name : Text) (input : Members) → ¬ (IsToolUse block id name input))
        → Stands blocks calls
        → Stands (block ∷ blocks) calls

  made-IsFunctionCall :
      (id name arguments : Text) → IsFunctionCall (call_value id name arguments) id name arguments
  unfolding get find get_str as_str text_eq
  made-IsFunctionCall id name arguments = record {
    typed = refl;
    identified = refl;
    named = refl;
    given = refl;
  }

  openai_call-made :
      (block : Value) (id name : Text) (input : Members)
      → IsToolUse block id name input
      → openai_call to_string block ≡ some (call_value id name (to_string (object input)))
  unfolding openai_call is_tool_use text_eq
  openai_call-made block id name input u =
      rw (openai_call, is_tool_use, u.typed, u.identified, u.named, u.given) refl

  use_cases :
      (block : Value)
      → ((id : Text) × (name : Text) × (input : Members) × IsToolUse block id name input)
        ⊎ (openai_call to_string block ≡ none)
  unfolding openai_call is_tool_use
  use_cases block = elim (Option-cases (get_str (codes "type") block)) [
    | inl t ↦ inr (rw (openai_call, is_tool_use, t) refl)
    | inr (t, et) ↦ elim (Bool-cases (text_eq t (codes "tool_use"))) [
      | inr f ↦ inr (rw (openai_call, is_tool_use, et, f) refl)
      | inl f ↦ elim (Option-cases (get_str (codes "id") block)) [
        | inl i ↦ inr (rw (openai_call, is_tool_use, et, f, i) refl)
        | inr (id, i) ↦ elim (Option-cases (get_str (codes "name") block)) [
          | inl n ↦ inr (rw (openai_call, is_tool_use, et, f, i, n) refl)
          | inr (name, n) ↦ elim (Option-cases (get (codes "input") block)) [
            | inl g ↦ inr (rw (openai_call, is_tool_use, et, f, i, n, g) refl)
            | inr (object ms, g) ↦ inl (
              id,
              name,
              ms,
              record {
                typed = et ∙ ap some (text_eq_sound t (codes "tool_use") f);
                identified = i;
                named = n;
                given = g;
              },
            )
            | inr (_, g) ↦ inr (rw (openai_call, is_tool_use, et, f, i, n, g) refl)
          ]
        ]
      ]
    ]
  ]

  calls_of_blocks-Stands : (blocks : List Value) → Stands blocks (calls_of_blocks to_string blocks)
  unfolding calls_of_blocks
  calls_of_blocks-Stands [] = nothing
  calls_of_blocks-Stands (b ∷ bs) = elim (use_cases b) [
    | inl (id, name, input, u) ↦
        rw (calls_of_blocks, openai_call-made b id name input u)
          (called id name input u (made-IsFunctionCall id name (to_string (object input)))
            (calls_of_blocks-Stands bs))
    | inr e ↦
        rw (calls_of_blocks, e)
          (other
            (λ id name input u.
              let stop : none ≡ some (call_value id name (to_string (object input))) =
                sym e ∙ openai_call-made b id name input u in
              cc)
            (calls_of_blocks-Stands bs))
  ]

  in_response :
      (id model content : Text) (calls : Option (List Value)) (input_tokens output_tokens : ℕ)
      → tool_calls_of (response to_string id model content calls input_tokens output_tokens) ≡ calls
  unfolding tool_calls_of get find as_array values_list text_eq
  in_response id model content none input_tokens output_tokens = refl
  in_response id model content (some calls) input_tokens output_tokens =
      rw (values_list-values_of calls) refl

  -- What `Some` of a list that is not empty, and `None`, are read as.
  abbrev pub listed : Option (List Value) → List Value
  listed none = []
  listed (some calls) = calls

  listed-if_any : (calls : List Value) → listed (if_any calls) ≡ calls
  listed-if_any [] = refl
  listed-if_any (c ∷ cs) = refl

  -- The tool calls of a unified response, where an OpenAI client looks for them, are those of the
  -- content blocks of the response: one for each block of the type `tool_use` with an id, a name and
  -- an object as its input, in order, with that id and name and the printed input as its arguments,
  -- and none for another block; where there are none, the response names none.
  pub unify_response-Stands :
      (as_u64 : Value → Option ℕ) (raw : Value) (blocks : List Value)
      → and_then (get (codes "content") raw) as_array ≡ some blocks
      → Stands blocks (listed (tool_calls_of (unify_response to_string as_u64 raw)))
  unfolding unify_response map_anthropic_tool_use_to_openai_calls
  unify_response-Stands as_u64 raw blocks e =
      subst (Stands blocks)
        (sym (
          ap listed (
            in_response _ _ _ _ _ _
            ∙ ap (λ o. and_then o (map_anthropic_tool_use_to_openai_calls to_string)) e)
          ∙ listed-if_any (calls_of_blocks to_string blocks)))
        (calls_of_blocks-Stands blocks)
