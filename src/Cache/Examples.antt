-- ===== src/Cache/Examples.antt =====
-- The theorems about the cache, with numbers in place of embeddings.
use kryneth_oss.Prelude.{
  ℕ, ◌+◌, ◌-◌, ◌≡◌, refl, ap, true, Option, some, List, [], ◌∷◌, map, Text, Bytes, arith, codes,
  ascii_lower, Unicode, text_eq, ltb, NoColon, is_whitespace,
}
use kryneth_oss.Cache.{L1Cache, SemanticEntry, verify_intent, get_semantic, threshold}
use kryneth_oss.Cache.Semantic.{In, get_semantic_lem}

abbrev ascii : Unicode
ascii = record { to_lowercase = map ascii_lower; lower_ascii = λ s h. refl }

-- A hash without collisions that writes no colon.
abbrev shifted : Bytes → Text
shifted [] = []
shifted (b ∷ bs) = (b + 59) ∷ shifted bs

abbrev head : Text → ℕ
head [] = 0
head (x ∷ xs) = x

abbrev tail : Text → Text
tail [] = []
tail (x ∷ xs) = xs

shifted-NoColon : (b : Bytes) → NoColon (shifted b)
shifted-NoColon [] = tt
shifted-NoColon (b ∷ bs) = (λ e. absurd (omega arith), shifted-NoColon bs)

shifted-injective : (a b : Bytes) → shifted a ≡ shifted b → a ≡ b
shifted-injective [] [] e = refl
shifted-injective [] (y ∷ ys) e = cc
shifted-injective (x ∷ xs) [] e = cc
shifted-injective (x ∷ xs) (y ∷ ys) e =
    let same : x ≡ y = omega (arith, ap head e) in cc (same, shifted-injective xs ys (ap tail e))

abbrev ring : List (SemanticEntry ℕ)
ring =
    record { tenant_id = codes "a"; prompt = codes "what is it"; vector = 7; response = codes "A" }
    ∷ record {
      tenant_id = codes "b";
      prompt = codes "what is it";
      vector = 9;
      response = codes "B";
    }
    ∷ []

abbrev cache : L1Cache ℕ
cache = record { exact_cache = []; semantic_cache = ring }

abbrev gap : ℕ → ℕ → Option ℕ
gap a b = some ((a - b) + (b - a))

hit :
    get_semantic ascii (λ (v : ℕ). v) gap ltb 100 6 14 (codes "b") (codes "What is that?") 8 cache
    ≡ some (codes "B", codes "what is it")
unfolding get_semantic text_eq is_whitespace
hit = refl

get_semantic_lem_example :
    (e : SemanticEntry ℕ) × (d : ℕ) × (In e ring
      × (e.tenant_id ≡ codes "b")
      × (verify_intent ascii (codes "What is that?") e.prompt ≡ true))
    × (gap 8 e.vector ≡ some d)
    × (ltb d (threshold ascii (λ (v : ℕ). v) gap ltb 100 6 14 (codes "What is that?")) ≡ true)
    × (e.response ≡ codes "B")
    × (e.prompt ≡ codes "what is it")
get_semantic_lem_example =
    get_semantic_lem ascii (codes "b") (codes "What is that?") (λ (v : ℕ). v) gap ltb 100 6 14 8
      cache (codes "B") (codes "what is it") hit
