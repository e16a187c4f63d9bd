-- ===== src/Router/Examples.antt =====
-- The theorems about the router at a tenant with two targets, and at a small body.
use kryneth_oss.Prelude.{
  ℕ, zero, suc, ◌≡◌, refl, false, Option, none, List, [], ◌∷◌, Text, Bytes, Map, codes, map,
  ascii_lower, Unicode, lookup, starts_with,
}
use kryneth_oss.Config.{UpstreamTarget, ModelConfig, RoutingState}
use kryneth_oss.Router.{Result, ok, ProviderConfig, get_provider_config}
use kryneth_oss.Router.Selection.{is_open}
use kryneth_oss.Router.Failover.{Sent, response, Prepared, execute_upstream_request}
use kryneth_oss.Router.Failover.Spec.{Spec, execute_upstream_request-Spec}
use kryneth_oss.Router.Rewrite
use kryneth_oss.Router.Rewrite.{rewrite_model_field}
use kryneth_oss.Router.Rewrite.Splice.{IsSpliced, rewrite_model_field_lem}

abbrev ascii : Unicode
ascii = record { to_lowercase = map ascii_lower; lower_ascii = λ s h. refl }

abbrev target : ℕ → Text → UpstreamTarget
target priority key_alias = record {
  priority = priority;
  weight = 1;
  api_key_alias = key_alias;
  api_key = codes "sk";
  provider_name = codes "openai";
  base_url = codes "https://o";
  target_model = codes "m2";
  schema_format = codes "openai";
}

abbrev primary : UpstreamTarget
primary = target 1 (codes "k1")

abbrev fallback : UpstreamTarget
fallback = target 2 (codes "k2")

abbrev models : Map ModelConfig
models = (codes "m", record { targets = fallback ∷ primary ∷ []; rate_limit_rpm = none }) ∷ []

abbrev routing : RoutingState
routing = record { state = (codes "t", models) ∷ []; client_configs = [] }

abbrev build :
    ProviderConfig → UpstreamTarget → Text → Text → Option Text → Bytes → Result ℕ × Bytes
build config t model accept scenario body = (ok 1, body)

-- The primary target is overloaded, and the fallback answers.
abbrev send : ℕ → ℕ → Sent
send zero request = response 503 (codes "busy")
send (suc n) request = response 200 (codes "ok")

abbrev prepared : Prepared ℕ
prepared = record {
  tenant_id = codes "t";
  primary_request = 0;
  primary_target = primary;
  fallback_targets = fallback ∷ [];
  provider_config = get_provider_config ascii (codes "openai");
  model = codes "m";
  requested_provider = codes "openai";
  executed_provider = codes "openai";
  is_hot_swapped = 0;
  accept_header = codes "application/json";
}

primary_closed : is_open prepared.tenant_id [] prepared.primary_target ≡ false
unfolding is_open lookup
primary_closed = refl

execute_upstream_request-Spec_example :
    Spec (codes "t") [] 2 (execute_upstream_request ascii build send prepared [] (codes "{}"))
execute_upstream_request-Spec_example =
    execute_upstream_request-Spec ascii build send prepared [] (codes "{}") primary_closed

abbrev body : Bytes
body = codes "{\"n\":1, \"model\" : \"a\"}"

abbrev rewritten : Bytes
rewritten = codes "{\"n\":1, \"model\" : \"llama\"}"

body_rewritten : rewrite_model_field body (codes "llama") ≡ Rewrite.ok rewritten
unfolding rewrite_model_field starts_with
body_rewritten = refl

rewrite_model_field_lem_example : IsSpliced (codes "llama") body rewritten
rewrite_model_field_lem_example =
    rewrite_model_field_lem body (codes "llama") rewritten body_rewritten
