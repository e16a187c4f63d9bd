-- ===== src/Execution/Policy.antt =====
-- `resolve_tool_policy` of src/usecases/execution_service.rs.
use kryneth_oss.Prelude.{
  Bool-cases, inl, inr, ◌≡◌, ◌↔◌, ◌⊎◌, refl, Bool, true, false, List, [], ◌∷◌, ◌++◌, map, arith,
  Text, codes, starts_with, starts_with_sound, starts_with-append, Unicode, IsAscii, ascii_lower,
  if◌then◌else◌, any,
}
use kryneth_oss.Execution.{
  ToolExecutionPolicy, RetryPolicy, SideEffectClass, IdempotencyRequirement,
}

-- The prefixes that are tested, in the source's order.
abbrev pub read_prefixes : List Text
read_prefixes =
    codes "get"
    ∷ codes "list"
    ∷ codes "read"
    ∷ codes "describe"
    ∷ codes "search"
    ∷ codes "query"
    ∷ codes "show"
    ∷ []

abbrev pub read_only_policy : ToolExecutionPolicy
read_only_policy = record {
  retry_policy = RetryPolicy.safe;
  side_effect_class = SideEffectClass.read_only;
  idempotency_requirement = IdempotencyRequirement.none;
  timeout_seconds = 5;
}

abbrev pub mutating_policy : ToolExecutionPolicy
mutating_policy = record {
  retry_policy = RetryPolicy.unsafe;
  side_effect_class = SideEffectClass.irreversible;
  idempotency_requirement = IdempotencyRequirement.required;
  timeout_seconds = 5;
}

unfoldable pub reads : Text → Bool
reads lower = any (λ p. starts_with p lower) read_prefixes

unfoldable pub resolve_tool_policy : Unicode → Text → ToolExecutionPolicy
unfolding reads
resolve_tool_policy u tool_name =
    if reads (u.to_lowercase tool_name) then read_only_policy else mutating_policy

-- `retry_policy != RetryPolicy::Safe`
unfoldable pub is_unsafe : RetryPolicy → Bool
is_unsafe RetryPolicy.safe = false
is_unsafe _ = true

-- Some entry of the list satisfies the predicate.
abbrev pub Exists {ℓ} : {A : Type ℓ} → (A → Type 0) → List A → Type 0
Exists P [] = ⊥
Exists P (x ∷ xs) = P x ⊎ Exists P xs

abbrev pub IsPrefixOf : Text → Text → Type 0
IsPrefixOf s p = (rest : Text) × (s ≡ p ++ rest)

any_sound :
    (s : Text) (ps : List Text) → any (λ p. starts_with p s) ps ≡ true → Exists (IsPrefixOf s) ps
any_sound s [] h = cc
any_sound s (p ∷ ps) h = elim (Bool-cases (starts_with p s)) [
  | inl e ↦ inl (starts_with_sound p s e)
  | inr e ↦ inr (any_sound s ps (ground arith))
]

any_complete :
    (s : Text) (ps : List Text) → Exists (IsPrefixOf s) ps → any (λ p. starts_with p s) ps ≡ true
any_complete s [] h = elim h [ ]
any_complete s (p ∷ ps) (inl (rest, e)) = rw (e, starts_with-append p rest)
any_complete s (p ∷ ps) (inr h) = ground (arith, any_complete s ps h)

policy_reads :
    (b : Bool) → (if b then read_only_policy else mutating_policy) ≡ read_only_policy → b ≡ true
policy_reads true e = refl
policy_reads false e = cc

-- A tool with an ASCII name may be retried freely, as read-only, exactly when its name in lower
-- case begins with one of the seven reading prefixes; every other tool counts as irreversible and
-- wants an idempotency key.
pub resolve_tool_policy_iff :
    (u : Unicode) (tool_name : Text)
    → IsAscii tool_name
    → let policy = resolve_tool_policy u tool_name in
      ((policy ≡ read_only_policy) ↔ Exists (IsPrefixOf (map ascii_lower tool_name)) read_prefixes)
      × (¬ Exists (IsPrefixOf (map ascii_lower tool_name)) read_prefixes → policy ≡ mutating_policy)
unfolding resolve_tool_policy reads
resolve_tool_policy_iff u tool_name h = rw (u.lower_ascii tool_name h) (
  (
    λ e. any_sound lower read_prefixes (policy_reads (reads lower) e),
    λ e. rw (any_complete lower read_prefixes e),
  ),
  λ n. elim (Bool-cases (reads lower)) [
    | inl t ↦ absurd (n (any_sound lower read_prefixes t))
    | inr f ↦ rw f
  ],
)
  where
    lower : Text
    lower = map ascii_lower tool_name
