-- ===== src/Billing/Examples.antt =====
-- The price table at a model.
use kryneth_oss.Prelude.{map, codes, ascii_lower, refl, Unicode}
use kryneth_oss.Billing.{lookup_precautionary_rate}
use kryneth_oss.Billing.Ceiling.{IsPrudent, lookup_precautionary_rate-IsPrudent}

abbrev ascii : Unicode
ascii = record { to_lowercase = map ascii_lower; lower_ascii = λ s h. refl }

lookup_precautionary_rate-IsPrudent_example :
    IsPrudent
      (map ascii_lower (codes "Anthropic"))
      (map ascii_lower (codes "claude-3-opus"))
      (lookup_precautionary_rate ascii (codes "Anthropic") (codes "claude-3-opus"))
lookup_precautionary_rate-IsPrudent_example =
    lookup_precautionary_rate-IsPrudent ascii (codes "Anthropic") (codes "claude-3-opus")
