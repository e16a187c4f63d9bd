-- ===== src/Billing/Ceiling.antt =====
-- How the rates compare with the ceiling, and which are free.
use kryneth_oss.Prelude.{
  ℕ, ◌≤◌, ◌<◌, ◌≡◌, refl, true, ◌||◌, ◌⊎◌, inl, inr, Text, codes, contains, Unicode, arith,
  Bool-cases,
}
use kryneth_oss.Billing.{
  PrecautionaryRate, token_rate, is_open_source, openai_rate, anthropic_rate, google_rate,
  deepseek_rate, rest_rate, lookup_precautionary_rate,
}

-- What every rate for a provider and a model, in lower case, satisfies.
pub record IsPrudent (p m : Text) (r : PrecautionaryRate) : Type 0 where
  pub input : r.input_cost_per_1m ≤ 20000
  pub output :
      r.output_cost_per_1m ≤ 60000
      ⊎ (r.output_cost_per_1m ≡ 75000)
        × (contains (codes "anthropic") p ≡ true)
        × (contains (codes "claude-3-opus") m ≡ true)
  pub paid :
      (0 < r.input_cost_per_1m) × (0 < r.output_cost_per_1m) ⊎ (contains (codes "groq") p ≡ true)

module _ (p m : Text) where
  rate : (i o : ℕ) → i ≤ 20000 → o ≤ 60000 → 0 < i → 0 < o → IsPrudent p m (token_rate i o)
  rate i o a b c d = record { input = a; output = inl b; paid = inl (c, d) }

  rest-IsPrudent : IsPrudent p m (rest_rate p m)
  unfolding rest_rate
  rest-IsPrudent = elim (Bool-cases (contains (codes "groq") p)) [
    | inl e2 ↦ rw e2 (record { input = omega arith; output = inl (omega arith); paid = inr e2 })
    | inr e2 ↦ rw e2 (elim (Bool-cases (is_open_source m)) [
      | inl e1 ↦ rw e1 (rate 500 1500 (omega arith) (omega arith) (omega arith) (omega arith))
      | inr e1 ↦ rw e1 (rate 20000 60000 (omega arith) (omega arith) (omega arith) (omega arith))
    ])
  ]

  module _ (next : PrecautionaryRate) (h : IsPrudent p m next) where
    deepseek-IsPrudent : IsPrudent p m (deepseek_rate p m next)
    unfolding deepseek_rate
    deepseek-IsPrudent = elim (Bool-cases (contains (codes "deepseek") p)) [
      | inl e4 ↦ rw e4 (elim (Bool-cases (contains (codes "deepseek-r1") m)) [
        | inl e3 ↦ rw e3 (rate 550 2190 (omega arith) (omega arith) (omega arith) (omega arith))
        | inr e3 ↦ rw e3 (rate 140 280 (omega arith) (omega arith) (omega arith) (omega arith))
      ])
      | inr e4 ↦ rw e4 h
    ]

    google-IsPrudent : IsPrudent p m (google_rate p m next)
    unfolding google_rate
    google-IsPrudent =
        elim (Bool-cases (contains (codes "google") p || contains (codes "gemini") p)) [
          | inl e7 ↦ rw e7 (elim (Bool-cases (contains (codes "gemini-1.5-pro") m)) [
            | inl e6 ↦
                rw e6 (rate 3500 10500 (omega arith) (omega arith) (omega arith) (omega arith))
            | inr e6 ↦
                rw e6
                  (elim (Bool-cases
                    (contains (codes "gemini-1.5-flash") m || contains (codes "gemini-flash") m)) [
                      | inl e5 ↦
                          rw e5
                            (rate 75 300 (omega arith) (omega arith) (omega arith) (omega arith))
                      | inr e5 ↦ rw e5 h
                    ])
          ])
          | inr e7 ↦ rw e7 h
        ]

    anthropic-IsPrudent : IsPrudent p m (anthropic_rate p m next)
    unfolding anthropic_rate
    anthropic-IsPrudent = elim (Bool-cases (contains (codes "anthropic") p)) [
      | inl e11 ↦
          rw e11
            (elim (Bool-cases
              (contains (codes "claude-3-5-sonnet") m || contains (codes "claude-3.5-sonnet") m)) [
                | inl e10 ↦
                    rw e10 (rate 3000 15000 (omega arith) (omega arith) (omega arith) (omega arith))
                | inr e10 ↦ rw e10 (elim (Bool-cases (contains (codes "claude-3-opus") m)) [
                  | inl e9 ↦ rw e9 (record {
                    input = omega arith;
                    output = inr (refl, e11, e9);
                    paid = inl (omega arith, omega arith);
                  })
                  | inr e9 ↦ rw e9 (elim (Bool-cases (contains (codes "claude-3-haiku") m)) [
                    | inl e8 ↦
                        rw e8
                          (rate 250 1250 (omega arith) (omega arith) (omega arith) (omega arith))
                    | inr e8 ↦ rw e8 h
                  ])
                ])
              ])
      | inr e11 ↦ rw e11 h
    ]

    openai-IsPrudent : IsPrudent p m (openai_rate p m next)
    unfolding openai_rate
    openai-IsPrudent = elim (Bool-cases (contains (codes "openai") p)) [
      | inl e16 ↦ rw e16 (elim (Bool-cases (contains (codes "o1-mini") m)) [
        | inl e15 ↦
            rw e15 (rate 15000 60000 (omega arith) (omega arith) (omega arith) (omega arith))
        | inr e15 ↦ rw e15 (elim (Bool-cases (contains (codes "o1") m)) [
          | inl e14 ↦
              rw e14 (rate 15000 60000 (omega arith) (omega arith) (omega arith) (omega arith))
          | inr e14 ↦ rw e14 (elim (Bool-cases (contains (codes "gpt-4o-mini") m)) [
            | inl e13 ↦
                rw e13 (rate 150 600 (omega arith) (omega arith) (omega arith) (omega arith))
            | inr e13 ↦
                rw e13
                  (elim (Bool-cases
                    (contains (codes "gpt-4o") m || contains (codes "gpt-4-turbo") m)) [
                      | inl e12 ↦
                          rw e12 (
                            rate 5000 15000 (omega arith) (omega arith) (omega arith) (omega arith))
                      | inr e12 ↦ rw e12 h
                    ])
          ])
        ])
      ])
      | inr e16 ↦ rw e16 h
    ]

-- No input price is above the ceiling of 20 dollars, and no output price above that of 60 but the
-- 75 dollars of an Anthropic model `claude-3-opus`; and no price is zero but those of Groq.
pub lookup_precautionary_rate-IsPrudent :
    (u : Unicode) (provider target_model : Text)
    → IsPrudent
        (u.to_lowercase provider)
        (u.to_lowercase target_model)
        (lookup_precautionary_rate u provider target_model)
unfolding lookup_precautionary_rate
lookup_precautionary_rate-IsPrudent u provider target_model =
    let p = u.to_lowercase provider in
    let m = u.to_lowercase target_model in
    openai-IsPrudent p m _ (
      anthropic-IsPrudent p m _
        (google-IsPrudent p m _ (deepseek-IsPrudent p m _ (rest-IsPrudent p m))))
