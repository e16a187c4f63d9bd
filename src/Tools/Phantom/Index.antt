-- ===== src/Tools/Phantom/Index.antt =====
-- The index of a registry that `from_env` built: a name stands for the last descriptor that has it,
-- and no lookup is out of range.
use kryneth_oss.Prelude.{
  ℕ, ◌+◌, ◌≡◌, ◌≢◌, inl, inr, refl, sym, ap, ◌∙◌, Option, none, some, List, [], ◌∷◌, ◌++◌, Text,
  Map, lookup, insert, lookup-insert, text_eq, text_eq_sound, length, length-append, if◌then◌else◌,
  arith, Bool-cases, Option-cases,
}
use mathlib.Core.List.{append_assoc}
use kryneth_oss.Tools.{
  ToolDescriptor, ToolRegistry, index_from, registry_of, nth, Found, absent, panicked, found,
  lookup_tool,
}

-- The last descriptor of a list that has a name.
unfoldable pub last_named : Text → List ToolDescriptor → Option ToolDescriptor
last_named name [] = none
last_named name (d ∷ ds) = elim (last_named name ds) [
  | some e ↦ some e
  | none ↦ if text_eq d.name name then some d else none
]

unfoldable pub as_found : Option ToolDescriptor → Found
as_found none = absent
as_found (some d) = found d

-- What the index's answer stands for, over the descriptors that it was built of.
abbrev on_nth : Option ToolDescriptor → Found
on_nth none = panicked
on_nth (some d) = found d

abbrev on_index : List ToolDescriptor → Option ℕ → Found
on_index all none = absent
on_index all (some i) = on_nth (nth i all)

abbrev find_by : Map ℕ → List ToolDescriptor → Text → Found
find_by m all name = on_index all (lookup name m)

lookup_tool-find_by :
    (r : ToolRegistry) (name : Text) → lookup_tool r name ≡ find_by r.index r.tools name
unfolding lookup_tool
lookup_tool-find_by r name = elim (Option-cases (lookup name r.index)) [
  | inl e ↦ rw (lookup_tool, e) refl
  | inr (i, e) ↦ elim (Option-cases (nth i r.tools)) [
    | inl n ↦ rw (lookup_tool, e, n) refl
    | inr (d, n) ↦ rw (lookup_tool, e, n) refl
  ]
]

nth-append :
    (ds es : List ToolDescriptor) (d : ToolDescriptor) → nth (length ds) (ds ++ d ∷ es) ≡ some d
unfolding nth
nth-append [] es d = refl
nth-append (x ∷ ds) es d = nth-append ds es d

find_by-insert :
    (m : Map ℕ) (ds es : List ToolDescriptor) (d : ToolDescriptor) (name : Text)
    → find_by (insert d.name (length ds) m) (ds ++ d ∷ es) name
      ≡ (if text_eq d.name name then found d else find_by m (ds ++ d ∷ es) name)
find_by-insert m ds es d name =
    ap (on_index (ds ++ d ∷ es)) (lookup-insert d.name name (length ds) m)
    ∙ elim (Bool-cases (text_eq d.name name)) [
      | inl e ↦ rw e (ap on_nth (nth-append ds es d))
      | inr e ↦ rw e refl
    ]

-- The last descriptor found, or else what stands for the name already.
abbrev or_found : Option ToolDescriptor → Found → Found
or_found (some d) f = found d
or_found none f = f

find_by-index_from :
    (ds done all : List ToolDescriptor) (m : Map ℕ) (name : Text) (i : ℕ)
    → all ≡ done ++ ds
    → i ≡ length done
    → find_by (index_from i ds m) all name ≡ or_found (last_named name ds) (find_by m all name)
unfolding index_from last_named
find_by-index_from [] done all m name i ea ei = refl
find_by-index_from (d ∷ ds) done all m name i ea ei =
    let next =
      find_by-index_from ds (done ++ d ∷ []) all (insert d.name i m) name (i + 1)
        (ea ∙ sym (append_assoc done (d ∷ []) ds)) (omega (arith, length-append done (d ∷ []))) in
    let here = rw (← ei, ← ea) at (find_by-insert m done ds d name) in
    elim (Option-cases (last_named name ds)) [
      | inr (e, el) ↦ next ∙ rw (last_named, el) refl
      | inl el ↦ elim (Bool-cases (text_eq d.name name)) [
        | inl en ↦ next ∙ rw (last_named, el, en) (rw en at here)
        | inr en ↦ next ∙ rw (last_named, el, en) (rw en at here)
      ]
    ]

or_found-absent : (o : Option ToolDescriptor) → or_found o absent ≡ as_found o
unfolding as_found
or_found-absent none = refl
or_found-absent (some d) = refl

as_found_total : (o : Option ToolDescriptor) → as_found o ≢ panicked
unfolding as_found
as_found_total none e = cc
as_found_total (some d) e = cc

last_named_named :
    (name : Text) (ds : List ToolDescriptor) (d : ToolDescriptor)
    → last_named name ds ≡ some d
    → d.name ≡ name
unfolding last_named
last_named_named name [] d h = cc
last_named_named name (x ∷ ds) d h = elim (Option-cases (last_named name ds)) [
  | inr (e, el) ↦
      let same : some e ≡ some d = rw (last_named, el) at h in
      last_named_named name ds d (el ∙ same)
  | inl el ↦ elim (Bool-cases (text_eq x.name name)) [
    | inl en ↦
        let same : some x ≡ some d = rw (last_named, el, en) at h in
        let eq : x ≡ d = cc in
        ap (λ (t : ToolDescriptor). t.name) (sym eq) ∙ text_eq_sound x.name name en
    | inr en ↦ let stop : none ≡ some d = rw (last_named, el, en) at h in cc
  ]
]

-- A registry that was loaded finds by a name the last descriptor of that name, or none where no
-- descriptor has it; no index is out of range, so a lookup never panics.
pub lookup_tool-registry_of :
    (ds : List ToolDescriptor) (name : Text)
    → (lookup_tool (registry_of ds) name ≡ as_found (last_named name ds))
      × (lookup_tool (registry_of ds) name ≢ panicked)
unfolding registry_of lookup
lookup_tool-registry_of ds name =
    let whole =
      lookup_tool-find_by (registry_of ds) name
      ∙ find_by-index_from ds [] ds [] name 0 refl refl
      ∙ or_found-absent (last_named name ds) in
    (whole, λ e. as_found_total (last_named name ds) (sym whole ∙ e))
