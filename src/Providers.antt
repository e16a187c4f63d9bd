-- ===== src/Providers.antt =====
-- The provider plugins, src/infrastructure/providers, with the universal conversation of
-- src/domain/models.rs and the tool protocol of src/domain/utp_models.rs. A plugin works on parsed
-- JSON here: the parsers of simd_json and serde_json are parameters, and so is `to_string`, the
-- printer of a value. Numbers that are `f64` or `u32` are kept as their text.
mod Examples
pub mod Extract
pub mod OpenAi
pub mod Anthropic
pub mod Gemini
use kryneth_oss.Prelude.{ℕ, Bool, true, false, Option, none, some, List, [], ◌∷◌, Text, codes}
use kryneth_oss.Errors.{GatewayError}
use kryneth_oss.Json.{Value}

pub data KrynethRole : Type 0 where
  system user assistant tool : KrynethRole

pub data KrynethContent : Type 0 where
  text : Text → KrynethContent
  image_url : Text → KrynethContent
  tool_call : Text → Text → Value → KrynethContent  -- id, name, arguments
  tool_result : Text → Text → KrynethContent  -- tool_id, content

pub record KrynethMessage : Type 0 where
  pub role : KrynethRole
  pub content : List KrynethContent

pub record KrynethConversation : Type 0 where
  pub system_prompt : Option Text
  pub messages : List KrynethMessage
  pub tools : Option (List Value)
  pub temperature : Option Text
  pub top_p : Option Text
  pub max_tokens : Option Text
  pub stop : Option (List Text)
  pub stream : Option Bool
  pub model : Option Text

pub record UniversalToolCall : Type 0 where
  pub call_id : Text
  pub tool_name : Text
  pub arguments : Text

pub data ToolExecutionStatus : Type 0 where
  success error : ToolExecutionStatus

pub record UniversalToolResult : Type 0 where
  pub call_id : Text
  pub status : ToolExecutionStatus
  pub content : Text
  pub latency_ms : ℕ

-- `Result<A, GatewayError>`
pub data Outcome (A : Type 0) : Type 0 where
  ok : A → Outcome A
  failed : GatewayError → Outcome A

-- The operator `?`.
abbrev pub then_try : {A B : Type 0} → Outcome A → (A → Outcome B) → Outcome B
then_try (ok a) next = next a
then_try (failed e) next = failed e
