-- ===== src/Providers/Extract/Sound.antt =====
-- What the loop over the items of a payload gives.
use kryneth_oss.Prelude.{◌≡◌, ◌⊎◌, inl, inr, refl, Option, none, some, List, [], ◌∷◌}
use mathlib.Core.Path.{subst}
use kryneth_oss.Errors.{GatewayError}
use kryneth_oss.Guardian.Json.{BorrowedValue}
use kryneth_oss.Providers.{UniversalToolCall, Outcome, ok, failed}
use kryneth_oss.Providers.Extract.{collect}

module _ (parse : BorrowedValue → Outcome (Option UniversalToolCall)) where
  -- Which calls the items of a payload hold.
  pub data Extracted : List BorrowedValue → List UniversalToolCall → Type 0 where
    nothing : Extracted [] []
    skipped :
        (v : BorrowedValue) (vs : List BorrowedValue) (calls : List UniversalToolCall)
        → parse v ≡ ok none
        → Extracted vs calls
        → Extracted (v ∷ vs) calls
    taken :
        (v : BorrowedValue) (vs : List BorrowedValue) (call : UniversalToolCall)
        (calls : List UniversalToolCall)
        → parse v ≡ ok (some call)
        → Extracted vs calls
        → Extracted (v ∷ vs) (call ∷ calls)

  parse_cases :
      (r : Outcome (Option UniversalToolCall))
      → ((e : GatewayError) × (r ≡ failed e))
        ⊎ ((r ≡ ok none) ⊎ ((c : UniversalToolCall) × (r ≡ ok (some c))))
  parse_cases (failed e) = inl (e, refl)
  parse_cases (ok none) = inr (inl refl)
  parse_cases (ok (some c)) = inr (inr (c, refl))

  rest_cases :
      (r : Outcome (List UniversalToolCall))
      → ((e : GatewayError) × (r ≡ failed e)) ⊎ ((cs : List UniversalToolCall) × (r ≡ ok cs))
  rest_cases (failed e) = inl (e, refl)
  rest_cases (ok cs) = inr (cs, refl)

  -- The loop that all the plugins share gives the calls of the items, in their order and each once;
  -- items that are no calls are skipped.
  pub collect-Extracted :
      (vs : List BorrowedValue) (calls : List UniversalToolCall)
      → collect parse vs ≡ ok calls
      → Extracted vs calls
  unfolding collect
  collect-Extracted [] calls h =
      let same : ◌≡◌ {A = List UniversalToolCall} [] calls = cc in subst (Extracted []) same nothing
  collect-Extracted (v ∷ vs) calls h = elim (parse_cases (parse v)) [
    | inl (e, p) ↦ let stop : failed e ≡ ok calls = rw (collect, p) at h in cc
    | inr (inl p) ↦ elim (rest_cases (collect parse vs)) [
      | inl (e, r) ↦ let stop : failed e ≡ ok calls = rw (collect, p, r) at h in cc
      | inr (cs, r) ↦
          let same : ok cs ≡ ok calls = rw (collect, p, r) at h in
          let eq : cs ≡ calls = cc in
          subst (Extracted (v ∷ vs)) eq (skipped v vs cs p (collect-Extracted vs cs r))
    ]
    | inr (inr (c, p)) ↦ elim (rest_cases (collect parse vs)) [
      | inl (e, r) ↦ let stop : failed e ≡ ok calls = rw (collect, p, r) at h in cc
      | inr (cs, r) ↦
          let same : ok (c ∷ cs) ≡ ok calls = rw (collect, p, r) at h in
          let eq : c ∷ cs ≡ calls = cc in
          subst (Extracted (v ∷ vs)) eq (taken v vs c cs p (collect-Extracted vs cs r))
    ]
  ]
