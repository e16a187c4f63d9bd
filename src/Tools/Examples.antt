-- ===== src/Tools/Examples.antt =====
-- The theorems about the tool router at a request with one tool and a call of the phantom tool.
use kryneth_oss.Prelude.{
  ◌++◌, ◌≡◌, ◌≢◌, refl, true, Option, none, some, List, [], ◌∷◌, String, Text, codes, map, lookup,
  insert, text_eq, any, if◌then◌else◌,
}
use kryneth_oss.Json.{
  Value, string, array, object, no_value, value, Members, no_member, member, text_less, get, find,
  put, as_str, as_array, values_list, values_of, get_str, and_then,
}
use kryneth_oss.Tools.{
  phantom_tool_name, ToolDescriptor, ToolRegistry, index_from, registry_of, nth, panicked,
  lookup_tool, descriptor_of, is_metadata, strip_non_essential_metadata, phantom_tool_descriptor,
  tool_name,
}
use kryneth_oss.Tools.Strip.{get-strip_non_essential_metadata}
use kryneth_oss.Tools.Inject.{
  set_member, summary_of, with_summary, process, process_all, is_phantom, with_phantom, inject,
}
use kryneth_oss.Tools.Inject.Kept.{IsCompletion, inject_lem}
use kryneth_oss.Tools.Phantom.{
  first_call, call_function, schema_content, synthetic, requested_tool, intercept_value,
}
use kryneth_oss.Tools.Phantom.Index.{last_named, as_found, lookup_tool-registry_of}

abbrev descriptor : String → String → ToolDescriptor
descriptor name summary = record {
  name = codes name;
  summary = codes summary;
  schema = some (object no_member);
}

abbrev descriptors : List ToolDescriptor
descriptors = descriptor "jira" "Old." ∷ descriptor "jira" "Search." ∷ []

abbrev registry : ToolRegistry
registry = registry_of descriptors

abbrev pair : String → Value → Members
pair k v = member (codes k) v no_member

abbrev schema : Members
schema = member (codes "title") (string (codes "T")) (pair "type" (string (codes "object")))

abbrev func : Value
func = object (member (codes "name") (string (codes "jira")) (pair "parameters" (object schema)))

abbrev body : Value
body = object (
    member (codes "model") (string (codes "m"))
      (pair "tools" (array (value (object (pair "function" func)) no_value))))

abbrev done : Value
done = object (
    member (codes "model") (string (codes "m")) (
      pair "tools" (
        array (
          value
            (object (
              pair "function" (
                object (
                  member (codes "description")
                    (summary_of (codes "jira") (descriptor "jira" "Search."))
                    (member (codes "name") (string (codes "jira"))
                      (pair "parameters" (object (pair "type" (string (codes "object"))))))))))
            (value phantom_tool_descriptor no_value)))))

injected : inject registry [] body ≡ some done
unfolding inject get find as_array values_list values_of process_all process with_summary set_member
    put text_less text_eq descriptor_of lookup_tool lookup registry_of index_from insert nth get_str
    as_str is_metadata strip_non_essential_metadata with_phantom is_phantom tool_name
    phantom_tool_descriptor
injected = refl

inject_lem_example :
    (ts : List Value) × (ts' : List Value) × (extra : List Value) × (and_then
        (get (codes "tools") body)
        as_array
      ≡ some ts)
    × (and_then (get (codes "tools") done) as_array ≡ some (ts' ++ extra))
    × (map tool_name ts' ≡ map tool_name ts)
    × IsCompletion ts' extra
    × (any is_phantom (ts' ++ extra) ≡ true)
    × (get (codes "model") done ≡ get (codes "model") body)
unfolding text_eq
inject_lem_example = inject_lem registry [] body done (codes "model") refl injected

get-strip_non_essential_metadata_example :
    get (codes "title") (strip_non_essential_metadata (object schema)) ≡ (
      if is_metadata (codes "title")
      then none
      else and_then
          (get (codes "title") (object schema))
          (λ v. some (strip_non_essential_metadata v)))
get-strip_non_essential_metadata_example = get-strip_non_essential_metadata (codes "title") schema

lookup_tool-registry_of_example :
    (lookup_tool (registry_of descriptors) (codes "jira")
      ≡ as_found (last_named (codes "jira") descriptors))
    × (lookup_tool (registry_of descriptors) (codes "jira") ≢ panicked)
lookup_tool-registry_of_example = lookup_tool-registry_of descriptors (codes "jira")

abbrev response : Value
response = object (
    pair "choices" (
      array (
        value
          (object (
            pair "message" (
              object (
                pair "tool_calls" (
                  array (
                    value
                      (object (
                        member (codes "function")
                          (object (
                            member (codes "arguments") (string (codes "x"))
                              (pair "name" (string phantom_tool_name))))
                          (pair "id" (string (codes "c1")))))
                      no_value))))))
          no_value)))

abbrev parse : Text → Option Value
parse s = some (object (pair "tool_name" (string (codes "jira"))))

abbrev print : Value → Text
print v = codes "{}"

abbrev answer : Value
answer = synthetic (string (codes "phantom-resp")) (codes "c1") (codes "{}")

answered : intercept_value parse print registry response ≡ some answer
unfolding intercept_value call_function first_call get find as_array values_list get_str as_str
    text_eq requested_tool descriptor_of lookup_tool lookup registry_of index_from insert nth
    schema_content
answered = refl
