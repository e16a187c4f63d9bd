-- ===== src/Router/Rewrite/Splice.antt =====
-- What the rewrite of the `model` field changes.
use kryneth_oss.Prelude.{
  ℕ, ◌+◌, ◌≡◌, refl, sym, ap, ◌∙◌, Bool, true, false, Option, none, some, [], ◌∷◌, ◌++◌, Bytes,
  starts_with, starts_with_sound, ◌==◌, if◌then◌else◌, drop, u32, arith, All, Bool-cases,
  Option-cases, inl, inr, ==_iff,
}
use mathlib.Core.Path.{subst}
use mathlib.Core.List.{append_assoc, append-nil}
use kryneth_oss.Router.Rewrite.{
  is_ascii_whitespace, Split, skip_whitespace, closing_quote, splice, on_value, on_colon, model_key,
  at_model_key, or_scan, scan, ok, rewrite_model_field,
}

abbrev pub IsBlank : Bytes → Type 0
IsBlank bs = All (λ b. is_ascii_whitespace b ≡ true) bs

-- The text of one string of JSON, between its quotes: a quote or a backslash stands in it only behind
-- the backslash of an escape.
pub data IsText : Bytes → Type 0 where
  done : IsText []
  plain : (b : ℕ) {t : Bytes} → b == 92 ≡ false → b == 34 ≡ false → IsText t → IsText (b ∷ t)
  escaped : (b c : ℕ) {t : Bytes} → b == 92 ≡ true → IsText t → IsText (b ∷ c ∷ t)

-- The bytes that lead from the outside of all objects to depth `d`, outside of every string. The
-- depth is a 32-bit number.
pub data Outside : ℕ → Bytes → Type 0 where
  start : Outside 0 []
  opens :
      {d : ℕ} {s : Bytes} (b : ℕ)
      → b == 123 ≡ true
      → Outside d s
      → Outside (u32 (d + 1)) (s ++ b ∷ [])
  closes :
      {d : ℕ} {s : Bytes} (b : ℕ)
      → b == 125 ≡ true
      → Outside d s
      → Outside (u32 (d + 4294967295)) (s ++ b ∷ [])
  passes :
      {d : ℕ} {s : Bytes} (b : ℕ)
      → b == 34 ≡ false
      → b == 123 ≡ false
      → b == 125 ≡ false
      → Outside d s
      → Outside d (s ++ b ∷ [])
  quotes :
      {d : ℕ} {s t : Bytes} (b c : ℕ)
      → b == 34 ≡ true
      → c == 34 ≡ true
      → IsText t
      → Outside d s
      → Outside d (s ++ b ∷ (t ++ c ∷ []))

-- A body and its rewrite are alike but for the text of one string, the value of a key `"model"` at
-- depth 1, which in the rewrite is the target model.
pub record IsSpliced (target body r : Bytes) : Type 0 where
  pub before : Bytes
  pub gap : Bytes
  pub gap' : Bytes
  pub old : Bytes
  pub after : Bytes
  pub at_depth_one : Outside 1 before
  pub one_string : IsText old
  pub blank : IsBlank gap
  pub blank' : IsBlank gap'
  pub from : body ≡ before ++ (model_key ++ (gap ++ 58 ∷ (gap' ++ 34 ∷ (old ++ 34 ∷ after))))
  pub to : r ≡ before ++ (model_key ++ (gap ++ 58 ∷ (gap' ++ 34 ∷ (target ++ 34 ∷ after))))

skip_whitespace_lem :
    (before rest : Bytes)
    → let p = skip_whitespace before rest in
      (gap : Bytes) × IsBlank gap × (p.0 ≡ before ++ gap) × (rest ≡ gap ++ p.1)
unfolding skip_whitespace
skip_whitespace_lem before [] = ([], tt, sym (append-nil before), refl)
skip_whitespace_lem before (b ∷ rest) = elim (Bool-cases (is_ascii_whitespace b)) [
  | inl e ↦
      let (gap, blank, l, r) = skip_whitespace_lem (before ++ b ∷ []) rest in
      rw e (b ∷ gap, (e, blank), l ∙ append_assoc before (b ∷ []) gap, ap (λ (s : Bytes). b ∷ s) r)
  | inr e ↦ rw e ([], tt, sym (append-nil before), refl)
]

closing_quote_lem :
    (before after v rest : Bytes)
    → closing_quote before after ≡ some (v, rest)
    → (old : Bytes) × (rest' : Bytes) × (rest ≡ 34 ∷ rest')
      × (after ≡ old ++ 34 ∷ rest')
      × IsText old
unfolding closing_quote
closing_quote_lem before [] v rest h = cc
closing_quote_lem before (b ∷ []) v rest h = elim (Bool-cases (b == 92)) [
  | inl e ↦ cc (rw e at h)
  | inr e ↦ elim (Bool-cases (b == 34)) [
    | inl q ↦ ([], [], ground (arith, rw (e, q) at h), ground arith, done)
    | inr q ↦ cc (rw (e, q) at h)
  ]
]
closing_quote_lem before (b ∷ c ∷ rest0) v rest h = elim (Bool-cases (b == 92)) [
  | inl e ↦
      let (old, rest', l, r, t) =
        closing_quote_lem (before ++ b ∷ c ∷ []) rest0 v rest (rw e at h) in
      (b ∷ c ∷ old, rest', l, ap (λ (s : Bytes). b ∷ c ∷ s) r, escaped b c e t)
  | inr e ↦ elim (Bool-cases (b == 34)) [
    | inl q ↦ ([], c ∷ rest0, ground (arith, rw (e, q) at h), ground arith, done)
    | inr q ↦
        let (old, rest', l, r, t) =
          closing_quote_lem (before ++ b ∷ []) (c ∷ rest0) v rest (rw (e, q) at h) in
        (b ∷ old, rest', l, ap (λ (s : Bytes). b ∷ s) r, plain b e q t)
  ]
]

splice_lem :
    (target before after r : Bytes)
    → splice target before after ≡ some r
    → (old : Bytes) × (rest : Bytes) × IsText old
      × (after ≡ old ++ 34 ∷ rest)
      × (r ≡ before ++ (target ++ 34 ∷ rest))
unfolding splice
splice_lem target before after r h = elim (Option-cases (closing_quote before after)) [
  | inl e ↦ cc (rw (e, splice) at h)
  | inr ((v, rest), e) ↦
      let (old, rest', l, m, t) = closing_quote_lem before after v rest e in
      (old, rest', t, m, cc (rw (e, splice) at h, l))
]

-- The colon, the whitespace behind it and the value's opening quote.
on_value_lem :
    (target : Bytes) (p : Split) (r : Bytes)
    → on_value target p ≡ some r
    → (old : Bytes) × (rest : Bytes) × IsText old
      × (p.1 ≡ 34 ∷ (old ++ 34 ∷ rest))
      × (r ≡ p.0 ++ 34 ∷ (target ++ 34 ∷ rest))
unfolding on_value
on_value_lem target (before, []) r h = cc
on_value_lem target (before, b ∷ rest) r h = elim (Bool-cases (b == 34)) [
  | inr e ↦ cc (rw (e, on_value) at h)
  | inl e ↦
      let (old, rest', t, l, m) =
        splice_lem target (before ++ b ∷ []) rest r (rw (e, on_value) at h) in
      (
        old,
        rest',
        t,
        ground (arith, l),
        m ∙ append_assoc before (b ∷ []) (target ++ 34 ∷ rest') ∙ ground arith,
      )
]

cons_byte : (b c : ℕ) (rest x : Bytes) → b == c ≡ true → rest ≡ x → b ∷ rest ≡ c ∷ x
cons_byte b c rest x h e = ground (arith, h, e)

after_gap :
    (before gap : Bytes) (b c : ℕ) (p x : Bytes)
    → b == c ≡ true
    → p ≡ (before ++ b ∷ []) ++ gap
    → p ++ x ≡ before ++ c ∷ (gap ++ x)
after_gap before gap b c p x h e =
    ap (λ (s : Bytes). s ++ x) e
    ∙ append_assoc (before ++ b ∷ []) gap x
    ∙ append_assoc before (b ∷ []) (gap ++ x)
    ∙ ap (λ (s : Bytes). before ++ s) (cons_byte b c (gap ++ x) (gap ++ x) h refl)

on_colon_lem :
    (target : Bytes) (p : Split) (r : Bytes)
    → on_colon target p ≡ some r
    → (gap : Bytes) × (old : Bytes) × (rest : Bytes) × IsText old
      × IsBlank gap
      × (p.1 ≡ 58 ∷ (gap ++ 34 ∷ (old ++ 34 ∷ rest)))
      × (r ≡ p.0 ++ 58 ∷ (gap ++ 34 ∷ (target ++ 34 ∷ rest)))
unfolding on_colon
on_colon_lem target (before, []) r h = cc
on_colon_lem target (before, b ∷ rest) r h = elim (Bool-cases (b == 58)) [
  | inr e ↦ cc (rw (e, on_colon) at h)
  | inl e ↦
      let here = before ++ b ∷ [] in
      let (gap, blank, l, m) = skip_whitespace_lem here rest in
      let (old, rest', t, v, w) =
        on_value_lem target (skip_whitespace here rest) r (rw (e, on_colon) at h) in
      (
        gap,
        old,
        rest',
        t,
        blank,
        cons_byte b 58 rest _ e (m ∙ ap (λ (s : Bytes). gap ++ s) v),
        w ∙ after_gap before gap b 58 _ _ e l,
      )
]

key_front : (here : Bytes) → starts_with model_key here ≡ true → here ≡ model_key ++ drop 7 here
key_front here e =
    let (rest, k) = starts_with_sound model_key here e in
    k ∙ ap (λ (s : Bytes). model_key ++ drop 7 s) (sym k)

at_model_key_lem :
    (target before here r : Bytes)
    → Outside 1 before
    → at_model_key target before here ≡ some r
    → IsSpliced target (before ++ here) r
unfolding at_model_key
at_model_key_lem target before here r outside h = elim (Bool-cases (starts_with model_key here)) [
  | inr e ↦ cc (rw (e, at_model_key) at h)
  | inl e ↦
      let start = before ++ model_key in
      let (gap, blank, l, m) = skip_whitespace_lem start (drop 7 here) in
      let (gap', old, after, t, blank', v, w) =
        on_colon_lem target (skip_whitespace start (drop 7 here)) r (rw (e, at_model_key) at h) in
      let x = 58 ∷ (gap' ++ 34 ∷ (target ++ 34 ∷ after)) in
      record {
        before = before;
        gap = gap;
        gap' = gap';
        old = old;
        after = after;
        at_depth_one = outside;
        one_string = t;
        blank = blank;
        blank' = blank';
        from =
            ap (λ (s : Bytes). before ++ s)
              (key_front here e
                ∙ ap (λ (s : Bytes). model_key ++ s) (m ∙ ap (λ (s : Bytes). gap ++ s) v));
        to =
            w
            ∙ ap (λ (s : Bytes). s ++ x) l
            ∙ append_assoc start gap x
            ∙ append_assoc before model_key (gap ++ x);
      }
]

IsText-plain :
    (t : Bytes) (b : ℕ) → b == 92 ≡ false → b == 34 ≡ false → IsText t → IsText (t ++ b ∷ [])
IsText-plain _ b e q done = plain b e q done
IsText-plain _ b e q (plain c f p h) = plain c f p (IsText-plain _ b e q h)
IsText-plain _ b e q (escaped c d f h) = escaped c d f (IsText-plain _ b e q h)

IsText-escaped : (t : Bytes) (b c : ℕ) → b == 92 ≡ true → IsText t → IsText (t ++ b ∷ c ∷ [])
IsText-escaped _ b c e done = escaped b c e done
IsText-escaped _ b c e (plain d f p h) = plain d f p (IsText-escaped _ b c e h)
IsText-escaped _ b c e (escaped d d' f h) = escaped d d' f (IsText-escaped _ b c e h)

-- What the scan knows of the bytes before its position, by `in_string`, `escape` and `depth`.
data IsAt : Bool → Bool → ℕ → Bytes → Type 0 where
  outside : {d : ℕ} {s : Bytes} → Outside d s → IsAt false false d s
  inside :
      {d : ℕ} (s t : Bytes) (b : ℕ) {x : Bytes}
      → b == 34 ≡ true
      → x ≡ s ++ b ∷ t
      → Outside d s
      → IsText t
      → IsAt true false d x
  behind_backslash :
      {d : ℕ} (s t : Bytes) (b c : ℕ) {x : Bytes}
      → b == 34 ≡ true
      → c == 92 ≡ true
      → x ≡ s ++ b ∷ (t ++ c ∷ [])
      → Outside d s
      → IsText t
      → IsAt true true d x

module _ (target r : Bytes) where
  scan_next :
      (before : Bytes) (b : ℕ) (rest : Bytes)
      → IsSpliced target ((before ++ b ∷ []) ++ rest) r
      → IsSpliced target (before ++ b ∷ rest) r
  scan_next before b rest s = rw (← append_assoc before (b ∷ []) rest) s

  on_if :
      {P : Type 0} (c : Bool) (x y : Option Bytes)
      → (c ≡ true → x ≡ some r → P)
      → (c ≡ false → y ≡ some r → P)
      → (if c then x else y) ≡ some r
      → P
  on_if true x y f g h = f refl h
  on_if false x y f g h = g refl h

  on_either :
      {P : Type 0} (x y : Option Bytes)
      → (x ≡ some r → P)
      → (y ≡ some r → P)
      → or_scan x y ≡ some r
      → P
  on_either none y f g h = g h
  on_either (some a) y f g h = f h

  scan_lem :
      (in_string escape : Bool) (depth : ℕ) (before here : Bytes)
      → IsAt in_string escape depth before
      → scan target in_string escape depth before here ≡ some r
      → IsSpliced target (before ++ here) r
  unfolding scan
  scan_lem in_string escape depth before [] at h = cc
  scan_lem _ _ depth before (b ∷ rest) (outside o) h =
      let next =
        λ (i e : Bool) (d : ℕ) (at : IsAt i e d (before ++ b ∷ []))
            (k : scan target i e d (before ++ b ∷ []) rest ≡ some r).
          scan_next before b rest (scan_lem i e d (before ++ b ∷ []) rest at k) in
      on_if (b == 34) _ _
        (λ q.
          on_if (depth == 1) _ _
            (λ one.
              on_either (at_model_key target before (b ∷ rest)) _
                (at_model_key_lem target before (b ∷ rest) r
                  (subst (λ d. Outside d before) ((==_iff depth 1).0 one) o))
                (next true false depth (inside before [] b q refl o done)))
            (λ _. next true false depth (inside before [] b q refl o done)))
        (λ q.
          on_if (b == 123) _ _ (λ e. next false false (u32 (depth + 1)) (outside (opens b e o)))
            (λ e.
              on_if (b == 125) _ _
                (λ f. next false false (u32 (depth + 4294967295)) (outside (closes b f o)))
                (λ f. next false false depth (outside (passes b q e f o)))))
        h
  scan_lem _ _ depth before (b ∷ rest) (inside s t q quote x o text) h =
      let next =
        λ (i e : Bool) (d : ℕ) (at : IsAt i e d (before ++ b ∷ []))
            (k : scan target i e d (before ++ b ∷ []) rest ≡ some r).
          scan_next before b rest (scan_lem i e d (before ++ b ∷ []) rest at k) in
      let longer : before ++ b ∷ [] ≡ s ++ q ∷ (t ++ b ∷ []) =
        ap (λ (y : Bytes). y ++ b ∷ []) x ∙ append_assoc s (q ∷ t) (b ∷ []) in
      on_if (b == 92) _ _
        (λ e. next true true depth (behind_backslash s t q b quote e longer o text))
        (λ e.
          on_if (b == 34) _ _
            (λ f.
              next false false depth
                (outside (subst (Outside depth) (sym longer) (quotes q b quote f text o))))
            (λ f.
              next true false depth
                (inside s (t ++ b ∷ []) q quote longer o (IsText-plain t b e f text))))
        h
  scan_lem _ _ depth before (b ∷ rest) (behind_backslash s t q c quote e x o text) h =
      let longer : before ++ b ∷ [] ≡ s ++ q ∷ (t ++ c ∷ b ∷ []) =
        ap (λ (y : Bytes). y ++ b ∷ []) x
        ∙ append_assoc s (q ∷ (t ++ c ∷ [])) (b ∷ [])
        ∙ ap (λ (y : Bytes). s ++ q ∷ y) (append_assoc t (c ∷ []) (b ∷ [])) in
      scan_next before b rest (
        scan_lem true false depth (before ++ b ∷ []) rest
          (inside s (t ++ c ∷ b ∷ []) q quote longer o (IsText-escaped t c b e text)) h)

-- Where a body is rewritten, only the text of one string changes, which is the value of a key
-- `"model"` at depth 1 outside of every other string, and it becomes the target model: what stands
-- before and behind it stays byte for byte.
pub rewrite_model_field_lem :
    (body target r : Bytes) → rewrite_model_field body target ≡ ok r → IsSpliced target body r
unfolding rewrite_model_field
rewrite_model_field_lem body target r h = elim (Option-cases (scan target false false 0 [] body)) [
  | inl e ↦ cc (rw (e, rewrite_model_field) at h)
  | inr (x, e) ↦
      scan_lem target r false false 0 [] body (outside start)
        (e ∙ cc (rw (e, rewrite_model_field) at h))
]
