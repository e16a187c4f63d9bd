-- ===== src/Cache/Semantic.antt =====
-- The semantic layer: its size, and what a hit is.
use kryneth_oss.Prelude.{
  suc, ◌≤◌, ◌≡◌, refl, Bool, true, Option, none, some, List, [], ◌∷◌, Text, Bytes, arith, text_eq,
  text_eq_sound, leb, ltb, length, length-append, as_bytes, Unicode, Bool-cases, Option-cases, inl,
  inr, ◌⊎◌, All, All-map,
}
use kryneth_oss.Cache.{
  L1Cache, SemanticEntry, push_entry, insert_entry, verify_intent, candidates, nearest,
  within_threshold, threshold, get_semantic,
}

length-push_entry {ℓ} :
    {A : Type ℓ} (e : A) (queue : List A) → length queue ≤ 5000 → length (push_entry e queue) ≤ 5000
unfolding push_entry
length-push_entry e [] h = ground arith
length-push_entry e (x ∷ queue) h = elim (Bool-cases (leb 5000 (suc (length queue)))) [
  | inl full ↦ rw full (omega (arith, h, length-append queue (e ∷ [])))
  | inr room ↦ rw room (ground (arith, room, length-append (x ∷ queue) (e ∷ [])))
]

-- An insertion keeps the ring within 5000 entries.
pub insert_entry-bounded :
    {V : Type 0} (sha256_hex : Bytes → Text) (normalize_vec : V → V)
    (tenant_id exact_prompt semantic_prompt response : Text) (vector : V) (c : L1Cache V)
    → length c.semantic_cache ≤ 5000
    → length
        (insert_entry sha256_hex normalize_vec tenant_id exact_prompt semantic_prompt response
          vector c).semantic_cache
      ≤ 5000
unfolding insert_entry
insert_entry-bounded sha256_hex normalize_vec t p p' response vector c h =
    elim (Bool-cases (ltb 100000 (length (as_bytes response)))) [
      | inl e ↦ rw e h
      | inr e ↦ rw e (length-push_entry _ c.semantic_cache h)
    ]

abbrev pub In : {A : Type 0} → A → List A → Type 0
In x [] = ⊥
In x (y ∷ ys) = (x ≡ y) ⊎ In x ys

All-In : {A : Type 0} (xs : List A) → All (λ x. In x xs) xs
All-In [] = tt
All-In (x ∷ xs) =
    (inl refl, All-map (λ y. In y xs) (λ y. In y (x ∷ xs)) xs (λ y h. inr h) (All-In xs))

module _ {V : Type 0} (u : Unicode) (tenant_id prompt : Text) where
  -- An entry of the queue that may answer the prompt.
  abbrev IsCandidate : List (SemanticEntry V) → SemanticEntry V → Type 0
  IsCandidate queue e =
      In e queue × (e.tenant_id ≡ tenant_id) × (verify_intent u prompt e.prompt ≡ true)

  All-candidates :
      (queue es : List (SemanticEntry V))
      → All (λ e. In e queue) es
      → All (IsCandidate queue) (candidates u tenant_id prompt es)
  unfolding candidates
  All-candidates queue [] h = tt
  All-candidates queue (e ∷ es) h = elim (Bool-cases (text_eq e.tenant_id tenant_id)) [
    | inr other ↦ rw other (All-candidates queue es h.1)
    | inl own ↦ elim (Bool-cases (verify_intent u prompt e.prompt)) [
      | inr differs ↦ rw (own, differs) (All-candidates queue es h.1)
      | inl intent ↦
          rw (own, intent)
            ((h.0, text_eq_sound e.tenant_id tenant_id own, intent), All-candidates queue es h.1)
    ]
  ]

  module _ {D : Type 0} (normalize_vec : V → V) (cosine_distance : V → V → Option D)
      (less : D → D → Bool) (f32_max small large : D) where
    -- The best entry so far, with its distance.
    abbrev IsBest : (SemanticEntry V → Type 0) → V → D → Option (SemanticEntry V) → Type 0
    IsBest P vector dist none = Unit
    IsBest P vector dist (some e) = P e × (cosine_distance vector e.vector ≡ some dist)

    abbrev IsFound : (SemanticEntry V → Type 0) → V → Option (D × Option (SemanticEntry V)) → Type 0
    IsFound P vector none = Unit
    IsFound P vector (some (dist, best)) = IsBest P vector dist best

    nearest-IsFound :
        (P : SemanticEntry V → Type 0) (vector : V) (es : List (SemanticEntry V)) (dist : D)
        (best : Option (SemanticEntry V))
        → All P es
        → IsBest P vector dist best
        → IsFound P vector
            (nearest u normalize_vec cosine_distance less f32_max small large vector es dist best)
    unfolding nearest
    nearest-IsFound P vector [] dist best ps b = b
    nearest-IsFound P vector (e ∷ es) dist best ps b =
        elim (Option-cases (cosine_distance vector e.vector)) [
          | inl panics ↦ rw (panics, IsFound) tt
          | inr (d, at) ↦ elim (Bool-cases (less d dist)) [
            | inl closer ↦
                rw (at, closer, IsFound) (nearest-IsFound P vector es d (some e) ps.1 (ps.0, at))
            | inr farther ↦ rw (at, farther, IsFound) (nearest-IsFound P vector es dist best ps.1 b)
          ]
        ]

    within_lem :
        (P : SemanticEntry V → Type 0) (vector : V) (limit : D)
        (found : Option (D × Option (SemanticEntry V))) (response cached_prompt : Text)
        → IsFound P vector found
        → within_threshold u normalize_vec cosine_distance less f32_max small large limit found
          ≡ some (response, cached_prompt)
        → (e : SemanticEntry V) × (d : D) × P e
          × (cosine_distance vector e.vector ≡ some d)
          × (less d limit ≡ true)
          × (e.response ≡ response)
          × (e.prompt ≡ cached_prompt)
    unfolding within_threshold
    within_lem P vector limit none r p f h = cc
    within_lem P vector limit (some (d, none)) r p f h = cc
    within_lem P vector limit (some (d, some e)) r p f h = elim (Bool-cases (less d limit)) [
      | inr far ↦ cc (rw far at h)
      | inl near ↦
          (e, d, f.0, f.1, near, ground (arith, rw near at h), ground (arith, rw near at h))
    ]

    -- A semantic hit is the response of an entry that the ring holds for the very tenant, whose
    -- prompt passes the check of the intent and whose embedding is nearer than the threshold for the
    -- length of the prompt.
    pub get_semantic_lem :
        (vector : V) (c : L1Cache V) (response cached_prompt : Text)
        → get_semantic u normalize_vec cosine_distance less f32_max small large tenant_id prompt
            vector c
          ≡ some (response, cached_prompt)
        → (e : SemanticEntry V) × (d : D) × (In e c.semantic_cache
            × (e.tenant_id ≡ tenant_id)
            × (verify_intent u prompt e.prompt ≡ true))
          × (cosine_distance (normalize_vec vector) e.vector ≡ some d)
          × (less d (threshold u normalize_vec cosine_distance less f32_max small large prompt)
              ≡ true)
          × (e.response ≡ response)
          × (e.prompt ≡ cached_prompt)
    unfolding get_semantic
    get_semantic_lem vector c response cached_prompt h =
        let queue = c.semantic_cache in
        within_lem (IsCandidate queue) (normalize_vec vector) _ _ response cached_prompt
          (nearest-IsFound (IsCandidate queue) (normalize_vec vector)
            (candidates u tenant_id prompt queue) f32_max none
            (All-candidates queue queue (All-In queue)) tt)
          h
