-- ===== src/Mcp/Registry/Hint.antt =====
-- What `find_tool_hint` finds.
use kryneth_oss.Prelude.{
  ℕ, zero, suc, ◌≤◌, ◌≡◌, refl, sym, ap, ◌∙◌, ◌⊎◌, inl, inr, true, false, none, some, List, [], ◌∷◌,
  ◌++◌, Text, Bytes, Map, codes, lookup, contains_key, length, length-drop-le, take, drop, arith,
  Bool-cases, Option-cases,
}
use kryneth_oss.Mcp.Scan.{NameScanFsm, idle, new, Fed, pending, captured, feed, from_utf8}
use kryneth_oss.Mcp.Scan.Chunks.{resume, feed-append}
use kryneth_oss.Mcp.Scan.Capture.{escape, IsBlank, feed-captures}
use kryneth_oss.Mcp.Registry.{
  McpConnectionRegistry, is_empty, chunks_from, chunks, registered, scan_chunks, find_tool_hint,
}

join : List Bytes → Bytes
join [] = []
join (c ∷ cs) = c ++ join cs

take-append-drop {ℓ} : {A : Type ℓ} (n : ℕ) (xs : List A) → take n xs ++ drop n xs ≡ xs
take-append-drop zero xs = refl
take-append-drop (suc n) [] = refl
take-append-drop (suc n) (x ∷ xs) = ap (λ r. x ∷ r) (take-append-drop n xs)

join-chunks_from :
    (fuel : ℕ) (body : Bytes) → length body ≤ fuel → join (chunks_from fuel body) ≡ body
unfolding join chunks_from
join-chunks_from zero [] h = refl
join-chunks_from zero (b ∷ body) h = absurd (omega arith)
join-chunks_from (suc fuel) [] h = refl
join-chunks_from (suc fuel) (b ∷ body) h =
    ap (λ r. take 64 (b ∷ body) ++ r)
      (join-chunks_from fuel (drop 63 body) (omega (arith, length-drop-le 63 body)))
    ∙ take-append-drop 64 (b ∷ body)

join-chunks : (body : Bytes) → join (chunks body) ≡ body
unfolding chunks
join-chunks body = join-chunks_from (length body) body (omega arith)

Fed-cases :
    (r : Fed)
    → ((g : NameScanFsm) × (r ≡ pending g)) ⊎ ((g : NameScanFsm) × (v : Bytes) × (r ≡ captured g v))
Fed-cases (pending g) = inl (g, refl)
Fed-cases (captured g v) = inr (g, v, refl)

module _ (tools : Map (Text × Map Text)) where
  -- The first value of the whole text is the first of the pieces.
  scan_first :
      (f : NameScanFsm) (cs : List Bytes) (g : NameScanFsm) (v name : Bytes)
      → feed f (join cs) ≡ captured g v
      → registered tools v ≡ some name
      → scan_chunks tools f cs ≡ some name
  unfolding join scan_chunks feed resume
  scan_first f [] g v name h found = cc
  scan_first f (c ∷ cs) g v name h found = elim (Fed-cases (feed f c)) [
    | inl (k, e) ↦
        rw (e, scan_chunks)
          (scan_first k cs g v name (rw e at (sym (feed-append f c (join cs)) ∙ h)) found)
    | inr (k, w, e) ↦
        let same : captured k w ≡ captured g v = rw e at (sym (feed-append f c (join cs)) ∙ h) in
        ground (arith, same, e, found)
  ]

  scan_none :
      (f : NameScanFsm) (cs : List Bytes) (g : NameScanFsm)
      → feed f (join cs) ≡ pending g
      → scan_chunks tools f cs ≡ none
  unfolding join scan_chunks feed resume
  scan_none f [] g h = refl
  scan_none f (c ∷ cs) g h = elim (Fed-cases (feed f c)) [
    | inl (k, e) ↦
        rw (e, scan_chunks) (scan_none k cs g (rw e at (sym (feed-append f c (join cs)) ∙ h)))
    | inr (k, w, e) ↦
        let differ : captured k w ≡ pending g = rw e at (sym (feed-append f c (join cs)) ∙ h) in cc
  ]

  scan_registered :
      (f : NameScanFsm) (cs : List Bytes) (name : Bytes)
      → scan_chunks tools f cs ≡ some name
      → contains_key name tools ≡ true
  unfolding scan_chunks registered
  scan_registered f [] name h = cc
  scan_registered f (c ∷ cs) name h = elim (Fed-cases (feed f c)) [
    | inl (k, e) ↦ scan_registered k cs name (rw (e, scan_chunks) at h)
    | inr (k, w, e) ↦ elim (Option-cases (from_utf8 w)) [
      | inl none_there ↦ scan_registered k cs name (rw (e, scan_chunks, none_there) at h)
      | inr (s, there) ↦ elim (Bool-cases (contains_key s tools)) [
        | inl known ↦
            let same = rw (e, scan_chunks, there, known) at h in ground (arith, same, known)
        | inr unknown ↦ scan_registered k cs name (rw (e, scan_chunks, there, unknown) at h)
      ]
    ]
  ]

take_all {ℓ} : {A : Type ℓ} (n : ℕ) (xs : List A) → length xs ≤ n → take n xs ≡ xs
take_all zero [] h = refl
take_all zero (x ∷ xs) h = absurd (omega arith)
take_all (suc n) [] h = refl
take_all (suc n) (x ∷ xs) h = ap (λ r. x ∷ r) (take_all n xs (omega arith))

drop_all {ℓ} : {A : Type ℓ} (n : ℕ) (xs : List A) → length xs ≤ n → drop n xs ≡ []
drop_all zero [] h = refl
drop_all zero (x ∷ xs) h = absurd (omega arith)
drop_all (suc n) [] h = refl
drop_all (suc n) (x ∷ xs) h = drop_all n xs (omega arith)

chunks_from_nil : (fuel : ℕ) → chunks_from fuel [] ≡ []
unfolding chunks_from
chunks_from_nil zero = refl
chunks_from_nil (suc fuel) = refl

one_chunk : (b : ℕ) (body : Bytes) → length (b ∷ body) ≤ 64 → chunks (b ∷ body) ≡ (b ∷ body) ∷ []
unfolding chunks chunks_from
one_chunk b body h =
    rw
      (
        take_all 63 body (omega arith),
        drop_all 63 body (omega arith),
        chunks_from_nil (length body),
      )
      refl

registered_nonempty :
    (r : McpConnectionRegistry) (v : Bytes) (name : Text)
    → registered r.registry v ≡ some name
    → is_empty r ≡ false
unfolding is_empty registered contains_key lookup
registered_nonempty r v name h = go r.registry h
  where
    go :
        (tools : Map (Text × Map Text))
        → registered tools v ≡ some name
        → elim tools [ [] ↦ true | _ ∷ _ ↦ false ] ≡ false
    go [] k = elim (Option-cases (from_utf8 v)) [
      | inl e ↦ absurd (ground (arith, k, e))
      | inr (s, e) ↦ absurd (ground (arith, k, e))
    ]
    go (t ∷ ts) k = refl

-- A hint is the name of a registered tool.
pub find_tool_hint-registered :
    (r : McpConnectionRegistry) (body name : Bytes)
    → find_tool_hint body r ≡ some name
    → contains_key name r.registry ≡ true
unfolding find_tool_hint
find_tool_hint-registered r body name h = elim (Bool-cases (is_empty r)) [
  | inl e ↦ absurd (ground (arith, h, e))
  | inr e ↦ scan_registered r.registry new (chunks (take 16384 body)) name (rw e at h)
]

-- The hint is the first name of the body: where the machine, fed with the first 16384 bytes at
-- once, reads a value that is UTF-8 for the name of a registered tool, that is the hint, however
-- the body is cut into pieces.
pub find_tool_hint-first :
    (r : McpConnectionRegistry) (body : Bytes) (g : NameScanFsm) (v name : Bytes)
    → feed new (take 16384 body) ≡ captured g v
    → registered r.registry v ≡ some name
    → find_tool_hint body r ≡ some name
unfolding find_tool_hint
find_tool_hint-first r body g v name first known = rw (registered_nonempty r v name known) (
    scan_first r.registry new (chunks (take 16384 body)) g v name
      (ap (feed new) (join-chunks (take 16384 body)) ∙ first) known)

-- There is no hint where the first 16384 bytes hold no complete name.
pub find_tool_hint-none :
    (r : McpConnectionRegistry) (body : Bytes) (g : NameScanFsm)
    → feed new (take 16384 body) ≡ pending g
    → find_tool_hint body r ≡ none
unfolding find_tool_hint
find_tool_hint-none r body g no_name = elim (Bool-cases (is_empty r)) [
  | inl e ↦ rw e refl
  | inr e ↦ rw e (
      scan_none r.registry new (chunks (take 16384 body)) g
        (ap (feed new) (join-chunks (take 16384 body)) ∙ no_name))
]

-- A name is lost where an unregistered name stands before it in the same piece: in a body of at
-- most 64 bytes whose first name is not registered no tool is found, whatever names follow.
pub find_tool_hint-lost :
    (r : McpConnectionRegistry) (b : ℕ) (body : Bytes) (g : NameScanFsm) (v : Bytes)
    → length (b ∷ body) ≤ 64
    → feed new (b ∷ body) ≡ captured g v
    → registered r.registry v ≡ none
    → find_tool_hint (b ∷ body) r ≡ none
unfolding find_tool_hint
find_tool_hint-lost r b body g v short first unknown = elim (Bool-cases (is_empty r)) [
  | inl e ↦ rw e refl
  | inr e ↦
      rw
        (
          e,
          take_all 16384 (b ∷ body) (omega arith),
          one_chunk b body short,
          scan_chunks,
          first,
          unknown,
        )
        refl
]

-- A registered tool is found by its name: in a body of at most 16384 bytes whose first complete
-- name is the field `"name": "v"`, behind a text that leaves the machine idle, with any blanks
-- around the colon, where `v`, escaped, is UTF-8 for the name of a registered tool, that name is
-- the hint, wherever the pieces of 64 bytes are cut and whatever follows.
pub find_tool_hint-field :
    (r : McpConnectionRegistry) (before buf ws ws' v rest name body : Bytes)
    → body ≡ before ++ (codes "\"name\"" ++ (ws ++ 58 ∷ (ws' ++ 34 ∷ (escape v ++ 34 ∷ rest))))
    → length body ≤ 16384
    → feed new before ≡ pending (record { state = idle; value_buf = buf })
    → IsBlank ws
    → IsBlank ws'
    → registered r.registry v ≡ some name
    → find_tool_hint body r ≡ some name
find_tool_hint-field r before buf ws ws' v rest name body shape short idle_there h h' known =
    find_tool_hint-first r body new v name
      (ap (feed new) (take_all 16384 body short ∙ shape)
        ∙ feed-captures before buf ws ws' v rest idle_there h h')
      known
