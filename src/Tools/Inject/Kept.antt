-- ===== src/Tools/Inject/Kept.antt =====
-- What the injection keeps of a request, and what a summarised tool is.
use kryneth_oss.Prelude.{
  ◌≡◌, ◌⊎◌, inl, inr, refl, sym, ap, ◌∙◌, Bool, true, false, Option, none, some, List, [], ◌∷◌,
  ◌++◌, Text, codes, map, text_eq, text_eq_refl, any, arith, Bool-cases, Option-cases,
}
use mathlib.Core.Path.{subst}
use mathlib.Core.List.{append-nil}
use kryneth_oss.Json.{
  Value, null, bool, number, string, array, object, get, find, find-put, as_str, as_array, get_str,
  and_then, values_of, values_list-values_of,
}
use kryneth_oss.Tools.{
  phantom_tool_descriptor, ToolDescriptor, ToolRegistry, descriptor_of, tool_name,
}
use kryneth_oss.Tools.Inject.{
  set_member, with_schema, with_summary, process, process_all, is_phantom, with_phantom, inject,
}

get-set_member_ne :
    (k j : Text) (v w : Value) → text_eq k j ≡ false → get j (set_member k v w) ≡ get j w
unfolding get set_member
get-set_member_ne k j v (object ms) h = rw (find-put k j v ms, h) refl
get-set_member_ne k j v null h = refl
get-set_member_ne k j v (bool b) h = refl
get-set_member_ne k j v (number n) h = refl
get-set_member_ne k j v (string s) h = refl
get-set_member_ne k j v (array vs) h = refl

-- A value with any member is an object.
get-set_member_self :
    (i k : Text) (v w x : Value) → get i w ≡ some x → get k (set_member k v w) ≡ some v
unfolding get set_member
get-set_member_self i k v (object ms) x h = rw (find-put k k v ms, text_eq_refl k) refl
get-set_member_self i k v null x h = cc
get-set_member_self i k v (bool b) x h = cc
get-set_member_self i k v (number n) x h = cc
get-set_member_self i k v (string s) x h = cc
get-set_member_self i k v (array vs) x h = cc

abbrev name_of : Value → Option Text
name_of = get_str (codes "name")

name_of-set_member :
    (k : Text) (v w : Value)
    → text_eq k (codes "name") ≡ false
    → name_of (set_member k v w) ≡ name_of w
unfolding get_str
name_of-set_member k v w h = ap (λ o. and_then o as_str) (get-set_member_ne k (codes "name") v w h)

name_of-with_schema :
    (d : ToolDescriptor) (func : Value) → name_of (with_schema d func) ≡ name_of func
unfolding with_schema text_eq
name_of-with_schema d func = elim (Option-cases d.schema) [
  | inl e ↦ rw (with_schema, e) refl
  | inr (s, e) ↦ rw (with_schema, e) (name_of-set_member (codes "parameters") s func refl)
]

name_of-with_summary :
    (name : Text) (d : ToolDescriptor) (func : Value)
    → name_of (with_summary name d func).0 ≡ name_of func
unfolding with_summary text_eq
name_of-with_summary name d func = elim (Option-cases (get (codes "parameters") func)) [
  | inl e ↦ rw (with_summary, e) (name_of-set_member (codes "description") _ func refl)
  | inr (p, e) ↦
      rw (with_summary, e)
        (name_of-set_member (codes "description") _ _ refl
          ∙ name_of-set_member (codes "parameters") _ func refl)
]

tool_name_of :
    (tool func : Value) → get (codes "function") tool ≡ some func → tool_name tool ≡ name_of func
unfolding tool_name
tool_name_of tool func e = rw (tool_name, e) refl

tool_name-set_member :
    (tool func func' : Value)
    → get (codes "function") tool ≡ some func
    → tool_name (set_member (codes "function") func' tool) ≡ name_of func'
tool_name-set_member tool func func' e =
    tool_name_of (set_member (codes "function") func' tool) func'
      (get-set_member_self (codes "function") (codes "function") func' tool func e)

-- A tool keeps its name.
tool_name-process :
    (r : ToolRegistry) (full : List Text) (tool : Value)
    → tool_name (process r full tool).tool ≡ tool_name tool
unfolding process
tool_name-process r full tool = elim (Option-cases (get (codes "function") tool)) [
  | inl e ↦ rw (process, e) refl
  | inr (func, e) ↦
      let before = tool_name_of tool func e in
      elim (Option-cases (name_of func)) [
        | inl en ↦ rw (process, e, en) refl
        | inr (name, en) ↦ elim (Option-cases (descriptor_of r name)) [
          | inl ed ↦ rw (process, e, en, ed) refl
          | inr (d, ed) ↦ elim (Bool-cases (any (text_eq name) full)) [
            | inl ef ↦
                rw (process, e, en, ed, ef)
                  (tool_name-set_member tool func _ e ∙ name_of-with_schema d func ∙ sym before)
            | inr ef ↦
                rw (process, e, en, ed, ef)
                  (tool_name-set_member tool func _ e
                    ∙ name_of-with_summary name d func
                    ∙ sym before)
          ]
        ]
      ]
]

process_all_names :
    (r : ToolRegistry) (full : List Text) (ts : List Value)
    → map tool_name (process_all r full ts).0 ≡ map tool_name ts
unfolding process_all
process_all_names r full [] = refl
process_all_names r full (t ∷ ts) = cc (tool_name-process r full t, process_all_names r full ts)

any-append {ℓ} :
    {A : Type ℓ} (p : A → Bool) (xs : List A) (x : A) → p x ≡ true → any p (xs ++ x ∷ []) ≡ true
any-append p [] x h = rw h refl
any-append p (y ∷ xs) x h = ground (arith, any-append p xs x h)

descriptor_phantom : is_phantom phantom_tool_descriptor ≡ true
unfolding is_phantom phantom_tool_descriptor tool_name get get_str as_str text_eq find
descriptor_phantom = refl

-- What stands behind the tools: nothing, if the phantom tool is among them, and the phantom tool
-- otherwise.
abbrev pub IsCompletion : List Value → List Value → Type 0
IsCompletion ts extra =
    ((any is_phantom ts ≡ true) × (extra ≡ []))
    ⊎ ((any is_phantom ts ≡ false) × (extra ≡ phantom_tool_descriptor ∷ []))

with_phantom_cases :
    (ts : List Value)
    → (extra : List Value) × (with_phantom ts ≡ ts ++ extra) × IsCompletion ts extra
unfolding with_phantom
with_phantom_cases ts = elim (Bool-cases (any is_phantom ts)) [
  | inl e ↦ ([], rw (with_phantom, e) (sym (append-nil ts)), inl (e, refl))
  | inr e ↦ (phantom_tool_descriptor ∷ [], rw (with_phantom, e) refl, inr (e, refl))
]

phantom_present :
    (ts extra : List Value) → IsCompletion ts extra → any is_phantom (ts ++ extra) ≡ true
phantom_present ts extra (inl (e, n)) = rw (n, append-nil) e
phantom_present ts extra (inr (e, n)) =
    rw n (any-append is_phantom ts phantom_tool_descriptor descriptor_phantom)

set_array :
    (body : Value) (vs ts : List Value)
    → and_then (get (codes "tools") body) as_array ≡ some ts
    → and_then
        (get (codes "tools") (set_member (codes "tools") (array (values_of vs)) body))
        as_array
      ≡ some vs
unfolding as_array
set_array body vs ts h = elim (Option-cases (get (codes "tools") body)) [
  | inl e ↦ let stop : none ≡ some ts = rw e at h in cc
  | inr (w, e) ↦
      rw (get-set_member_self (codes "tools") (codes "tools") (array (values_of vs)) body w e)
        (ap some (values_list-values_of vs))
]

-- Where a request is modified, its tools keep their number, their names and their order, and behind
-- them stands nothing but the phantom tool, where it is not among them already, so that it is in the
-- list then; no other member of the request is changed.
pub inject_lem :
    (r : ToolRegistry) (full : List Text) (body body' : Value) (k : Text)
    → text_eq (codes "tools") k ≡ false
    → inject r full body ≡ some body'
    → (ts : List Value) × (ts' : List Value) × (extra : List Value) × (and_then
          (get (codes "tools") body)
          as_array
        ≡ some ts)
      × (and_then (get (codes "tools") body') as_array ≡ some (ts' ++ extra))
      × (map tool_name ts' ≡ map tool_name ts)
      × IsCompletion ts' extra
      × (any is_phantom (ts' ++ extra) ≡ true)
      × (get k body' ≡ get k body)
unfolding inject
inject_lem r full body body' k other h =
    elim (Option-cases (and_then (get (codes "tools") body) as_array)) [
      | inl e ↦ let stop : none ≡ some body' = rw (inject, e) at h in cc
      | inr (ts, e) ↦ elim (Bool-cases (process_all r full ts).1) [
        | inr m ↦ let stop : none ≡ some body' = rw (inject, e, m) at h in cc
        | inl m ↦
            let ts' = (process_all r full ts).0 in
            let (extra, whole, completion) = with_phantom_cases ts' in
            let made = set_member (codes "tools") (array (values_of (with_phantom ts'))) body in
            let same : some made ≡ some body' = rw (inject, e, m) at h in
            let eq : made ≡ body' = cc in
            (
              ts,
              ts',
              extra,
              e,
              subst (λ (b : Value). and_then (get (codes "tools") b) as_array ≡ some (ts' ++ extra))
                  eq (set_array body (with_phantom ts') ts e ∙ ap some whole),
              process_all_names r full ts,
              completion,
              phantom_present ts' extra completion,
              subst (λ (b : Value). get k b ≡ get k body) eq
                  (get-set_member_ne (codes "tools") k _ body other),
            )
      ]
    ]
