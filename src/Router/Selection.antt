-- ===== src/Router/Selection.antt =====
-- `prep_upstream_request`: which targets a request may use, and in which order.
use kryneth_oss.Prelude.{
  ℕ, ◌+◌, ◌-◌, ◌≤◌, Bool, true, false, ◌||◌, Option, none, some, List, [], ◌∷◌, ◌++◌, Text, Map,
  codes, lookup, leb, if◌then◌else◌, Unicode, starts_with, trim, All,
}
use mathlib.Core.List.{Perm}
use mathlib.Core.List.Perm
use kryneth_oss.Config.{UpstreamTarget, ModelConfig, RoutingState}
use kryneth_oss.Router.{
  Breaker, model_not_configured, no_active_keys, Result, ok, err, ◌>>=◌, ok_or, circuit_breaker_key,
}

-- `priority` is an `i32`, given by its bit pattern: this is its order.
unfoldable pub priority_rank : UpstreamTarget → ℕ
priority_rank t =
    if leb 2147483648 t.priority then t.priority - 2147483648 else t.priority + 2147483648

-- `sort_by_key(|t| t.priority)`, which is stable.
unfoldable pub insert_target : UpstreamTarget → List UpstreamTarget → List UpstreamTarget
unfolding priority_rank
insert_target t [] = t ∷ []
insert_target t (x ∷ xs) =
    if leb (priority_rank t) (priority_rank x) then t ∷ x ∷ xs else x ∷ insert_target t xs

unfoldable pub sort_by_priority : List UpstreamTarget → List UpstreamTarget
unfolding insert_target
sort_by_priority [] = []
sort_by_priority (t ∷ ts) = insert_target t (sort_by_priority ts)

unfoldable pub is_open : Text → Breaker → UpstreamTarget → Bool
is_open tenant_id breaker t =
    elim (lookup (circuit_breaker_key tenant_id t.api_key_alias) breaker) [
      | none ↦ false
      | some _ ↦ true
    ]

-- The loop that drops the targets with an open circuit.
unfoldable pub healthy : Text → Breaker → List UpstreamTarget → List UpstreamTarget
unfolding is_open
healthy tenant_id breaker [] = []
healthy tenant_id breaker (t ∷ ts) =
    let rest = healthy tenant_id breaker ts in
    if is_open tenant_id breaker t then rest else t ∷ rest

abbrev pub default_tenant : Text
default_tenant = codes "00000000-0000-0000-0000-000000000000"

abbrev or_try {ℓ} : {A : Type ℓ} → Option A → Option A → Option A
or_try none b = b
or_try (some a) b = some a

unfoldable pub tenant_models : RoutingState → Text → Option (Map ModelConfig)
tenant_models routing tenant_id =
    or_try (lookup tenant_id routing.state) (lookup default_tenant routing.state)

-- The model that stands in for one that is not configured, by the prefix of its name.
unfoldable pub family_default : Text → Option Text
family_default m =
    if starts_with (codes "gpt-") m
    then some (codes "gpt-4o")
    else if starts_with (codes "claude-") m
    then some (codes "claude-3-5-sonnet")
    else if starts_with (codes "gemini-") m
    then some (codes "gemini-1.5-pro")
    else if starts_with (codes "deepseek-") m
    then some (codes "deepseek-r1")
    else if starts_with (codes "cohere-") m || starts_with (codes "command-") m
    then some (codes "cohere-command-r")
    else if starts_with (codes "llama-") m
    then some (codes "llama-3.3-70b-versatile")
    else none

unfoldable pub model_config : Unicode → Map ModelConfig → Text → Option ModelConfig
unfolding family_default
model_config u models model =
    or_try (lookup model models) (elim (family_default (u.to_lowercase (trim model))) [
      | none ↦ none
      | some name ↦ lookup name models
    ])

abbrev unconfigured_tenant : Text → Text
unconfigured_tenant t = codes "No routing config for tenant '" ++ (t ++ codes "'")

abbrev unconfigured_model : Text → Text → Text
unconfigured_model m t =
    codes "Model '" ++ (m ++ (codes "' not configured for tenant '" ++ (t ++ codes "'")))

abbrev split_first : List UpstreamTarget → Result (UpstreamTarget × List UpstreamTarget)
split_first [] = err no_active_keys
split_first (t ∷ ts) = ok (t, ts)

-- The primary target and the fallbacks of a request for a model.
unfoldable pub select_targets :
    Unicode → RoutingState → Breaker → Text → Text → Result (UpstreamTarget × List UpstreamTarget)
select_targets u routing breaker tenant_id model = do
  models ←
      ok_or (tenant_models routing tenant_id) (model_not_configured (unconfigured_tenant tenant_id))
  config ←
      ok_or (model_config u models model)
        (model_not_configured (unconfigured_model model tenant_id))
  split_first (healthy tenant_id breaker (sort_by_priority config.targets))

abbrev pub IsSorted : List UpstreamTarget → Type 0
IsSorted [] = Unit
IsSorted (t ∷ ts) = All (λ x. priority_rank t ≤ priority_rank x) ts × IsSorted ts
