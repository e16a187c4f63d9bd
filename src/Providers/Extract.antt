-- ===== src/Providers/Extract.antt =====
-- `extract_calls` of the four plugins, from the payload on that simd_json has parsed. `to_string`
-- stands for the printing of such a value by serde_json, with the members in their order.
pub mod Sound
use kryneth_oss.Prelude.{
  Bool, true, false, Option, none, some, List, [], ◌∷◌, Text, Bytes, codes, text_eq, if◌then◌else◌,
}
use kryneth_oss.Errors.{GatewayError, invalid_json}
use kryneth_oss.Json.{and_then}
use kryneth_oss.Guardian.Json.{BorrowedValue, string, array, object, items, get, as_str, as_array}
use kryneth_oss.Providers.{UniversalToolCall, Outcome, ok, failed, then_try}

abbrev pub or_else {ℓ} : {A : Type ℓ} → Option A → Option A → Option A
or_else none b = b
or_else (some a) _ = some a

unfoldable pub get_str : Text → BorrowedValue → Option Text
unfolding get as_str
get_str k v = and_then (get k v) as_str

-- The loop that all the plugins share.
unfoldable pub collect :
    (BorrowedValue → Outcome (Option UniversalToolCall))
    → List BorrowedValue
    → Outcome (List UniversalToolCall)
collect parse [] = ok []
collect parse (v ∷ vs) = then_try (parse v) (λ found.
    then_try (collect parse vs) (λ rest. ok (elim found [ none ↦ rest | some call ↦ call ∷ rest ])))

-- A text as it is, another value printed, and `{}` where there is none.
unfoldable pub argument_text : (BorrowedValue → Text) → Option BorrowedValue → Text
argument_text to_string none = codes "{}"
argument_text to_string (some (string s)) = s
argument_text to_string (some v) = to_string v

abbrev first : List BorrowedValue → Option BorrowedValue
first [] = none
first (v ∷ vs) = some v

abbrev call_of : Text → Text → Text → Outcome (Option UniversalToolCall)
call_of id name args = ok (some (record { call_id = id; tool_name = name; arguments = args }))

-- What is left for each payload: an array of items, or one item.
unfoldable pub items_or_one :
    (BorrowedValue → Outcome (Option UniversalToolCall))
    → BorrowedValue
    → Outcome (List UniversalToolCall)
unfolding collect items
items_or_one parse (array vs) = collect parse (items vs)
items_or_one parse v = collect parse (v ∷ [])

module _ (to_string : BorrowedValue → Text) where
  unfoldable pub parse_openai_tool_call : BorrowedValue → Outcome (Option UniversalToolCall)
  unfolding argument_text get get_str
  parse_openai_tool_call v = elim (get_str (codes "id") v) [
    | none ↦ ok none
    | some id ↦ elim (get (codes "function") v) [
      | none ↦ failed (invalid_json (codes "Missing 'function' object in tool call"))
      | some func ↦ elim (get_str (codes "name") func) [
        | none ↦ failed (invalid_json (codes "Missing 'name' in tool call function object"))
        | some name ↦ call_of id name (argument_text to_string (get (codes "arguments") func))
      ]
    ]
  ]

  -- The calls of the first choice's message, or delta.
  unfoldable pub openai_choice_calls : BorrowedValue → Option (List BorrowedValue)
  unfolding get as_array
  openai_choice_calls v =
      and_then (and_then (and_then (get (codes "choices") v) as_array) first) (λ choice.
        and_then (or_else (get (codes "message") choice) (get (codes "delta") choice))
          (λ msg. and_then (get (codes "tool_calls") msg) as_array))

  unfoldable pub openai_calls : BorrowedValue → Option (List BorrowedValue)
  unfolding openai_choice_calls get as_array
  openai_calls v = or_else (openai_choice_calls v) (
      and_then
        (or_else (get (codes "tool_calls") v)
          (and_then (get (codes "message") v) (get (codes "tool_calls"))))
        as_array)

  unfoldable pub extract_openai : BorrowedValue → Outcome (List UniversalToolCall)
  unfolding openai_calls parse_openai_tool_call collect items_or_one
  extract_openai v = elim (openai_calls v) [
    | some calls ↦ collect parse_openai_tool_call calls
    | none ↦ items_or_one parse_openai_tool_call v
  ]

  unfoldable pub is_tool_use : BorrowedValue → Bool
  unfolding get_str
  is_tool_use v = elim (get_str (codes "type") v) [
    | none ↦ false
    | some t ↦ text_eq t (codes "tool_use")
  ]

  unfoldable pub parse_anthropic_block : BorrowedValue → Outcome (Option UniversalToolCall)
  unfolding is_tool_use argument_text get get_str
  parse_anthropic_block v =
      if is_tool_use v
      then elim (get_str (codes "id") v) [
        | none ↦ failed (invalid_json (codes "Missing 'id' field in Anthropic tool_use block"))
        | some id ↦ elim (get_str (codes "name") v) [
          | none ↦ failed (invalid_json (codes "Missing 'name' field in Anthropic tool_use block"))
          | some name ↦ elim (get (codes "input") v) [
            | none ↦
                failed (invalid_json (codes "Missing 'input' field in Anthropic tool_use block"))
            | some input ↦ call_of id name (argument_text to_string (some input))
          ]
        ]
      ]
      else ok none

  unfoldable pub extract_anthropic : BorrowedValue → Outcome (List UniversalToolCall)
  unfolding parse_anthropic_block collect items is_tool_use get as_array
  extract_anthropic (object ms) = elim (and_then (get (codes "content") (object ms)) as_array) [
    | some blocks ↦ collect parse_anthropic_block blocks
    | none ↦
        if is_tool_use (object ms) then collect parse_anthropic_block (object ms ∷ []) else ok []
  ]
  extract_anthropic (array vs) = collect parse_anthropic_block (items vs)
  extract_anthropic _ = failed (invalid_json (codes "Unexpected JSON root type"))

  abbrev or_text : Option Text → Text → Text
  or_text none d = d
  or_text (some s) d = s

  unfoldable pub parse_gemini_part : BorrowedValue → Outcome (Option UniversalToolCall)
  unfolding argument_text get get_str
  parse_gemini_part v = elim (get (codes "functionCall") v) [
    | none ↦ ok none
    | some func ↦ elim (get_str (codes "name") func) [
      | none ↦ failed (invalid_json (codes "Missing 'name' field in Gemini functionCall"))
      | some name ↦
          call_of (or_text (or_else (get_str (codes "id") func) (get_str (codes "id") v)) name) name
            (argument_text to_string (get (codes "args") func))
    ]
  ]

  unfoldable pub gemini_parts : BorrowedValue → Option (List BorrowedValue)
  unfolding get as_array
  gemini_parts v =
      or_else
        (and_then (and_then (and_then (get (codes "candidates") v) as_array) first)
          (λ cand. and_then (and_then (get (codes "content") cand) (get (codes "parts"))) as_array))
        (and_then
          (or_else (get (codes "parts") v)
            (and_then (get (codes "content") v) (get (codes "parts"))))
          as_array)

  unfoldable pub extract_gemini : BorrowedValue → Outcome (List UniversalToolCall)
  unfolding gemini_parts parse_gemini_part collect items_or_one
  extract_gemini v = elim (gemini_parts v) [
    | some parts ↦ collect parse_gemini_part parts
    | none ↦ items_or_one parse_gemini_part v
  ]

  unfoldable pub parse_cohere_call : BorrowedValue → Outcome (Option UniversalToolCall)
  unfolding argument_text get get_str
  parse_cohere_call v = elim (get_str (codes "name") v) [
    | none ↦ ok none
    | some name ↦
        call_of (or_text (get_str (codes "id") v) name) name (
          argument_text to_string
            (or_else (get (codes "parameters") v) (get (codes "arguments") v)))
  ]

  unfoldable pub cohere_calls : BorrowedValue → Option (List BorrowedValue)
  unfolding get as_array
  cohere_calls v =
      and_then
        (or_else (get (codes "tool_calls") v)
          (and_then (get (codes "response") v) (get (codes "tool_calls"))))
        as_array

  unfoldable pub extract_cohere : BorrowedValue → Outcome (List UniversalToolCall)
  unfolding cohere_calls parse_cohere_call collect items_or_one
  extract_cohere v = elim (cohere_calls v) [
    | some calls ↦ collect parse_cohere_call calls
    | none ↦ items_or_one parse_cohere_call v
  ]

-- `extract_calls`, with the parser of simd_json, whose error has a text.
pub data Parsed : Type 0 where
  unparsed : Text → Parsed
  parsed : BorrowedValue → Parsed

unfoldable pub extract_calls :
    (Bytes → Parsed)
    → (BorrowedValue → Outcome (List UniversalToolCall))
    → Bytes
    → Outcome (List UniversalToolCall)
extract_calls to_value extract raw = elim (to_value raw) [
  | unparsed e ↦ failed (invalid_json e)
  | parsed v ↦ extract v
]
