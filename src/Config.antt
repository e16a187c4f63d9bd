-- ===== src/Config.antt =====
-- The routing configuration of src/domain/models.rs, as the rate limiter, the agent guardian and the
-- router read it. Of `ClientConfig` only the fields that they read are kept; a signed number is
-- given by its bit pattern, as `as u32` reads it.
use kryneth_oss.Prelude.{ℕ, Option, List, Map, Text}

pub record UpstreamTarget : Type 0 where
  pub priority : ℕ
  pub weight : ℕ
  pub api_key_alias : Text
  pub api_key : Text
  pub provider_name : Text
  pub base_url : Text
  pub target_model : Text
  pub schema_format : Text

pub record ModelConfig : Type 0 where
  pub targets : List UpstreamTarget
  pub rate_limit_rpm : Option ℕ

pub record ClientConfig : Type 0 where
  pub max_agent_loops : ℕ
  pub max_identical_tool_calls : ℕ

pub record RoutingState : Type 0 where
  pub state : Map (Map ModelConfig)
  pub client_configs : Map ClientConfig
