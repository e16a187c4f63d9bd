-- ===== src/Cache.antt =====
-- The L1 response cache, src/infrastructure/l1_cache.rs: exact entries by the hash of the prompt, and
-- a ring of recent prompts with their embeddings. SHA-256 and the arithmetic of `f32` are parameters:
-- `normalize_vec` and `cosine_distance`, which are nothing else, are given as functions, the
-- distance `none` where it panics on vectors of different lengths. The exact layer's eviction is
-- left out: an evicted entry is absent.
mod Examples
pub mod Exact
pub mod Semantic
use kryneth_oss.Prelude.{
  ℕ, ◌+◌, Bool, true, false, not, ◌||◌, ◌&&◌, Option, none, some, List, [], ◌∷◌, ◌++◌, Text, Bytes,
  Map, codes, lookup, insert, text_eq, leb, ltb, length, drop, any, as_bytes, is_whitespace,
  Unicode, if◌then◌else◌,
}

pub record SemanticEntry (V : Type 0) : Type 0 where
  pub tenant_id : Text
  pub prompt : Text
  pub vector : V
  pub response : Text

pub record L1Cache (V : Type 0) : Type 0 where
  pub exact_cache : Map Text
  pub semantic_cache : List (SemanticEntry V)

-- `char::is_ascii_punctuation`
unfoldable pub is_ascii_punctuation : ℕ → Bool
is_ascii_punctuation c =
    (leb 33 c && leb c 47)
    || (leb 58 c && leb c 64)
    || (leb 91 c && leb c 96)
    || (leb 123 c && leb c 126)

-- `split(sep)`, from the part of the current piece that has been read.
unfoldable pub split : (ℕ → Bool) → Text → Text → List Text
split sep piece [] = piece ∷ []
split sep piece (c ∷ s) =
    let ended = split sep [] s in
    let longer = split sep (piece ++ c ∷ []) s in if sep c then piece ∷ ended else longer

abbrev non_empty : List Text → List Text
non_empty [] = []
non_empty ([] ∷ ws) = non_empty ws
non_empty ((c ∷ w) ∷ ws) = (c ∷ w) ∷ non_empty ws

unfoldable pub words : (ℕ → Bool) → Text → List Text
unfolding split
words sep s = non_empty (split sep [] s)

abbrev pub strong_tokens : List Text
strong_tokens =
    codes "what" ∷ codes "who" ∷ codes "where" ∷ codes "when" ∷ codes "why" ∷ codes "how" ∷ []

abbrev pub weak_tokens : List Text
weak_tokens = codes "can" ∷ codes "is" ∷ codes "do" ∷ codes "does" ∷ []

-- The token that a word is, if it is one.
unfoldable pub token_of : List Text → Text → Option Text
token_of [] word = none
token_of (t ∷ ts) word = let rest = token_of ts word in if text_eq word t then some t else rest

abbrev or_try : Option Text → Option Text → Option Text
or_try none b = b
or_try (some a) b = some a

unfoldable pub first_strong : List Text → Option Text
unfolding token_of
first_strong [] = none
first_strong (w ∷ ws) = or_try (token_of strong_tokens w) (first_strong ws)

abbrev interrogative_of : List Text → Option Text
interrogative_of [] = none
interrogative_of (w ∷ ws) =
    or_try (token_of strong_tokens w) (or_try (token_of weak_tokens w) (first_strong ws))

unfoldable pub get_primary_interrogative : Unicode → Text → Option Text
unfolding words first_strong is_ascii_punctuation
get_primary_interrogative u prompt =
    interrogative_of
      (words (λ c. is_ascii_punctuation c || is_whitespace c) (u.to_lowercase prompt))

abbrev same_token : Option Text → Option Text → Bool
same_token (some inc) (some cac) = text_eq inc cac
same_token _ _ = true

unfoldable pub verify_intent : Unicode → Text → Text → Bool
unfolding get_primary_interrogative
verify_intent u incoming cached =
    same_token (get_primary_interrogative u incoming) (get_primary_interrogative u cached)

unfoldable pub exact_cache_key : (Bytes → Text) → Text → Text → Text
exact_cache_key sha256_hex tenant_id prompt = tenant_id ++ 58 ∷ sha256_hex (as_bytes prompt)

module _ {V : Type 0} (sha256_hex : Bytes → Text) where
  unfoldable pub get_exact : Text → Text → L1Cache V → Option Text
  unfolding exact_cache_key
  get_exact tenant_id prompt c = lookup (exact_cache_key sha256_hex tenant_id prompt) c.exact_cache

  unfoldable pub insert_exact : Text → Text → Text → L1Cache V → L1Cache V
  unfolding exact_cache_key
  insert_exact tenant_id exact_prompt response c = record c {
    exact_cache = insert (exact_cache_key sha256_hex tenant_id exact_prompt) response c.exact_cache;
  }

-- The ring: the oldest entry goes when 5000 are there.
unfoldable pub push_entry {ℓ} : {A : Type ℓ} → A → List A → List A
push_entry e queue = (if leb 5000 (length queue) then drop 1 queue else queue) ++ e ∷ []

module _ {V : Type 0} (sha256_hex : Bytes → Text) (normalize_vec : V → V) where
  unfoldable pub insert_entry : Text → Text → Text → Text → V → L1Cache V → L1Cache V
  unfolding insert_exact push_entry
  insert_entry tenant_id exact_prompt semantic_prompt response vector c =
      let c' = insert_exact sha256_hex tenant_id exact_prompt response c in
      if ltb 100000 (length (as_bytes response)) then c' else record c' {
        semantic_cache =
            push_entry
              (record {
                tenant_id = tenant_id;
                prompt = semantic_prompt;
                vector = normalize_vec vector;
                response = response;
              })
              c.semantic_cache;
      }

module _ {V : Type 0} (u : Unicode) where
  -- The entries that a prompt of a tenant may be answered from.
  unfoldable pub candidates : Text → Text → List (SemanticEntry V) → List (SemanticEntry V)
  unfolding verify_intent
  candidates tenant_id prompt [] = []
  candidates tenant_id prompt (e ∷ es) =
      let rest = candidates tenant_id prompt es in
      if text_eq e.tenant_id tenant_id && verify_intent u prompt e.prompt then e ∷ rest else rest

  module _ {D : Type 0} (normalize_vec : V → V) (cosine_distance : V → V → Option D)
      (less : D → D → Bool) (f32_max small large : D) where
    -- The loop for the nearest candidate, from the best distance and entry so far on.
    unfoldable pub nearest :
        V
        → List (SemanticEntry V)
        → D
        → Option (SemanticEntry V)
        → Option (D × Option (SemanticEntry V))
    nearest vector [] best_dist best_entry = some (best_dist, best_entry)
    nearest vector (e ∷ es) best_dist best_entry = elim (cosine_distance vector e.vector) [
      | none ↦ none
      | some dist ↦
          let closer = nearest vector es dist (some e) in
          let farther = nearest vector es best_dist best_entry in
          if less dist best_dist then closer else farther
    ]

    abbrev threshold : Text → D
    threshold prompt = if leb (length (words is_whitespace prompt)) 8 then small else large

    unfoldable pub within_threshold :
        D → Option (D × Option (SemanticEntry V)) → Option (Text × Text)
    within_threshold limit none = none
    within_threshold limit (some (dist, none)) = none
    within_threshold limit (some (dist, some e)) =
        if less dist limit then some (e.response, e.prompt) else none

    unfoldable pub get_semantic : Text → Text → V → L1Cache V → Option (Text × Text)
    unfolding nearest candidates within_threshold words
    get_semantic tenant_id prompt vector c =
        within_threshold (threshold prompt) (
          nearest (normalize_vec vector) (candidates tenant_id prompt c.semantic_cache) f32_max
            none)
