-- ===== src/Billing.antt =====
-- The static price table, `lookup_precautionary_rate` of src/domain/billing.rs. A price is given in
-- thousandths of a dollar for 1,000,000 tokens; the multiplier in thousandths.
mod Examples
pub mod Ceiling
use kryneth_oss.Prelude.{ℕ, Bool, true, false, ◌||◌, Text, codes, contains, Unicode, if◌then◌else◌}

pub data PricingType : Type 0 where
  token_based hybrid fixed_request : PricingType

pub record PrecautionaryRate : Type 0 where
  pub pricing_type : PricingType
  pub input_cost_per_1m : ℕ
  pub output_cost_per_1m : ℕ
  pub per_request_buffer : ℕ
  pub mcp_flat_fee : ℕ
  pub agent_loop_multiplier : ℕ

-- The fields that every entry of the table shares.
abbrev pub token_rate : ℕ → ℕ → PrecautionaryRate
token_rate input output = record {
  pricing_type = token_based;
  input_cost_per_1m = input;
  output_cost_per_1m = output;
  per_request_buffer = 0;
  mcp_flat_fee = 0;
  agent_loop_multiplier = 1000;
}

abbrev pub premier_ceiling : PrecautionaryRate
premier_ceiling = token_rate 20000 60000

unfoldable pub is_open_source : Text → Bool
is_open_source m =
    contains (codes "llama") m
    || contains (codes "mistral") m
    || contains (codes "mixtral") m
    || contains (codes "qwen") m
    || contains (codes "phi") m
    || contains (codes "falcon") m
    || contains (codes "gemma") m

-- The sections of the table, each from one provider on: what follows it is `next`.
unfoldable pub openai_rate : Text → Text → PrecautionaryRate → PrecautionaryRate
openai_rate p m next =
    if contains (codes "openai") p
    then (if contains (codes "o1-mini") m
        then token_rate 15000 60000
        else if contains (codes "o1") m
        then token_rate 15000 60000
        else if contains (codes "gpt-4o-mini") m
        then token_rate 150 600
        else if contains (codes "gpt-4o") m || contains (codes "gpt-4-turbo") m
        then token_rate 5000 15000
        else next)
    else next

unfoldable pub anthropic_rate : Text → Text → PrecautionaryRate → PrecautionaryRate
anthropic_rate p m next =
    if contains (codes "anthropic") p
    then (if contains (codes "claude-3-5-sonnet") m || contains (codes "claude-3.5-sonnet") m
        then token_rate 3000 15000
        else if contains (codes "claude-3-opus") m
        then token_rate 15000 75000
        else if contains (codes "claude-3-haiku") m
        then token_rate 250 1250
        else next)
    else next

unfoldable pub google_rate : Text → Text → PrecautionaryRate → PrecautionaryRate
google_rate p m next =
    if contains (codes "google") p || contains (codes "gemini") p
    then (if contains (codes "gemini-1.5-pro") m
        then token_rate 3500 10500
        else if contains (codes "gemini-1.5-flash") m || contains (codes "gemini-flash") m
        then token_rate 75 300
        else next)
    else next

unfoldable pub deepseek_rate : Text → Text → PrecautionaryRate → PrecautionaryRate
deepseek_rate p m next =
    if contains (codes "deepseek") p
    then (if contains (codes "deepseek-r1") m then token_rate 550 2190 else token_rate 140 280)
    else next

unfoldable pub rest_rate : Text → Text → PrecautionaryRate
unfolding is_open_source
rest_rate p m =
    if contains (codes "groq") p
    then token_rate 0 0
    else if is_open_source m
    then token_rate 500 1500
    else premier_ceiling

unfoldable pub lookup_precautionary_rate : Unicode → Text → Text → PrecautionaryRate
unfolding openai_rate anthropic_rate google_rate deepseek_rate rest_rate
lookup_precautionary_rate u provider target_model =
    let p = u.to_lowercase provider in
    let m = u.to_lowercase target_model in
    openai_rate p m (anthropic_rate p m (google_rate p m (deepseek_rate p m (rest_rate p m))))
