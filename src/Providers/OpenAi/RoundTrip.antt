-- ===== src/Providers/OpenAi/RoundTrip.antt =====
-- A conversation that OpenAI's format can hold is read back as it was.
use kryneth_oss.Prelude.{
  ℕ, ◌⊎◌, inr, Bytes, ◌≡◌, refl, ap, ◌∙◌, false, Option, none, some, List, [], ◌∷◌, ◌++◌, Text,
  codes, map, text_eq, All,
}
use mathlib.Core.List.{append_assoc, append-nil}
use kryneth_oss.Json.{Value, as_str}
use kryneth_oss.Providers.{
  user, assistant, tool, KrynethContent, text, tool_call, tool_result, KrynethMessage,
  KrynethConversation, ok, then_try,
}
use kryneth_oss.Providers.OpenAi.{
  OpenAiToolCall, OpenAiMessage, Parts, push_text, add_content, parts_from, no_parts, text_or_none,
  with_system, Read, message_of, messages_of, OpenAiChatRequest, request_of, conversation_of,
  from_universal, content_contents, system_text, result_text, role_from, call_contents,
  read_message, read_messages, to_universal, if_any,
}

-- A tool call of a message.
pub record Call : Type 0 where
  pub id : Text
  pub name : Text
  pub arguments : Value

abbrev pub as_content : Call → KrynethContent
as_content c = tool_call c.id c.name c.arguments

module _ (to_string : Value → Text) (from_str : Text → Option Value) where
  -- Arguments that are read back as they were printed.
  abbrev pub ReadsBack : Call → Type 0
  ReadsBack c = from_str (to_string c.arguments) ≡ some c.arguments

  -- The messages that the format can hold: a user's text, an assistant's text or tool calls, and a
  -- tool's result; no text is empty, there is a call, and its arguments are read back.
  pub data Plain : KrynethMessage → Type 0 where
    said : (c : ℕ) (cs : Text) → Plain (record { role = user; content = text (c ∷ cs) ∷ [] })
    answered :
        (c : ℕ) (cs : Text) → Plain (record { role = assistant; content = text (c ∷ cs) ∷ [] })
    called :
        (c : Call) (cs : List Call)
        → ReadsBack c
        → All ReadsBack cs
        → Plain (record { role = assistant; content = map as_content (c ∷ cs) })
    returned :
        (tool_id : Text) (c : ℕ) (cs : Text)
        → Plain (record { role = tool; content = tool_result tool_id (c ∷ cs) ∷ [] })

  abbrev written : Call → OpenAiToolCall
  written c = record { id = c.id; name = c.name; arguments = to_string c.arguments }

  parts_from-calls :
      (p : Parts) (cs : List Call)
      → parts_from to_string p (map as_content cs)
        ≡ record p { tool_calls = p.tool_calls ++ map written cs }
  unfolding parts_from add_content
  parts_from-calls p [] = rw append-nil refl
  parts_from-calls p (c ∷ cs) =
      parts_from-calls (add_content to_string p (as_content c)) cs
      ∙ ap (λ (l : List OpenAiToolCall). record p { tool_calls = l })
          (append_assoc p.tool_calls (written c ∷ []) (map written cs))

  call_contents-written :
      (cs : List Call)
      → All ReadsBack cs
      → call_contents from_str (map written cs) ≡ ok (map as_content cs)
  unfolding call_contents
  call_contents-written [] h = refl
  call_contents-written (c ∷ cs) h = rw (call_contents, h.0, call_contents-written cs h.1) refl

  abbrev calls_message : List OpenAiToolCall → OpenAiMessage
  calls_message cs = record {
    role = codes "assistant";
    content = none;
    tool_calls = some cs;
    tool_call_id = none;
  }

  message_of-calls :
      (c : Call) (cs : List Call)
      → message_of to_string (record { role = assistant; content = map as_content (c ∷ cs) })
        ≡ calls_message (map written (c ∷ cs))
  unfolding message_of
  message_of-calls c cs =
      ap
        (λ (p : Parts). record {
          role = codes "assistant";
          content = text_or_none p.text_content;
          tool_calls = if_any p.tool_calls;
          tool_call_id = p.tool_call_id;
        })
        (parts_from-calls (no_parts to_string) (c ∷ cs))

  read_message-calls :
      (c : Call) (cs : List Call)
      → All ReadsBack (c ∷ cs)
      → read_message from_str (calls_message (map written (c ∷ cs)))
        ≡ ok (some (record { role = assistant; content = map as_content (c ∷ cs) }))
  unfolding read_message role_from text_eq content_contents
  read_message-calls c cs h = rw (call_contents-written (c ∷ cs) h) refl

  read_message-message_of :
      (m : KrynethMessage) → Plain m → read_message from_str (message_of to_string m) ≡ ok (some m)
  unfolding read_message message_of role_from text_eq content_contents as_str result_text
      call_contents parts_from add_content push_text
  read_message-message_of _ (said c cs) = refl
  read_message-message_of _ (answered c cs) = refl
  read_message-message_of _ (called c cs h hs) =
      ap (read_message from_str) (message_of-calls c cs) ∙ read_message-calls c cs (h, hs)
  read_message-message_of _ (returned tool_id c cs) =
      ap (λ (t : Text). ok (some (record { role = tool; content = tool_result tool_id t ∷ [] })))
        (append-nil (c ∷ cs))

  not_system :
      (m : KrynethMessage)
      → Plain m
      → text_eq (message_of to_string m).role (codes "system") ≡ false
  unfolding message_of text_eq
  not_system _ (said c cs) = refl
  not_system _ (answered c cs) = refl
  not_system _ (called c cs h hs) = refl
  not_system _ (returned tool_id c cs) = refl

  read_messages-messages_of :
      (sp : Option Text) (ms : List KrynethMessage)
      → All Plain ms
      → read_messages from_str sp (messages_of to_string ms)
        ≡ ok (record { system_prompt = sp; messages = ms })
  unfolding read_messages messages_of
  read_messages-messages_of sp [] h = refl
  read_messages-messages_of sp (m ∷ ms) h =
      rw
        (
          read_messages,
          not_system m h.0,
          read_message-message_of m h.0,
          read_messages-messages_of sp ms h.1,
        )
        refl

  read_messages-with_system :
      (sp : Option Text) (ms : List KrynethMessage)
      → All Plain ms
      → read_messages from_str none (with_system to_string sp (messages_of to_string ms))
        ≡ ok (record { system_prompt = sp; messages = ms })
  unfolding read_messages system_text as_str text_eq
  read_messages-with_system none ms h = read_messages-messages_of none ms h
  read_messages-with_system (some sp) ms h = read_messages-messages_of (some sp) ms h

  conversation_of-request_of :
      (conv : KrynethConversation)
      → All Plain conv.messages
      → conversation_of from_str (request_of to_string conv) ≡ ok conv
  unfolding conversation_of request_of
  conversation_of-request_of conv h =
      ap
        (λ r. then_try r (λ (x : Read). ok (record {
          system_prompt = x.system_prompt;
          messages = x.messages;
          tools = conv.tools;
          temperature = conv.temperature;
          top_p = conv.top_p;
          max_tokens = conv.max_tokens;
          stop = conv.stop;
          stream = conv.stream;
          model = conv.model;
        })))
        (read_messages-with_system conv.system_prompt conv.messages h)

  -- A conversation goes through OpenAI's format unchanged: where serde writes the request that
  -- `from_universal` builds as a value, and reads the bytes of that value as the same request,
  -- `from_universal` gives the value and `to_universal` reads its bytes back as the same
  -- conversation, with its system prompt, tools and settings. Each message is a user's text, an
  -- assistant's text or list of tool calls, or a tool's result, with no empty text, and the printed
  -- arguments of the calls parse back.
  pub to_universal-from_universal :
      (to_value : OpenAiChatRequest → Text ⊎ Value) (from_slice : Bytes → Text ⊎ OpenAiChatRequest)
      (to_vec : Value → Bytes) (conv : KrynethConversation) (v : Value)
      → to_value (request_of to_string conv) ≡ inr v
      → from_slice (to_vec v) ≡ inr (request_of to_string conv)
      → All Plain conv.messages
      → (from_universal to_string to_value conv ≡ ok v)
        × (to_universal from_str from_slice (to_vec v) ≡ ok conv)
  unfolding to_universal from_universal
  to_universal-from_universal to_value from_slice to_vec conv v written_as read_as h = (
    rw (from_universal, written_as) refl,
    rw (to_universal, read_as) (conversation_of-request_of conv h),
  )
