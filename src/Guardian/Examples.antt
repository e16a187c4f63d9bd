-- ===== src/Guardian/Examples.antt =====
-- The theorems about the guardian, with a hasher that adds up what it is given.
use kryneth_oss.Prelude.{
  ℕ, ◌+◌, ◌≤◌, ◌<◌, ◌≡◌, ◌↔◌, refl, Option, none, some, List, [], ◌∷◌, Text, Bytes, codes, arith,
  length, lookup, insert, text_eq, decimal, as_bytes,
}
use mathlib.Core.List.{Perm}
use mathlib.Core.List.Perm
use kryneth_oss.Guardian.Json.{BorrowedValue, string, object, no_member, member, get, as_str}
use kryneth_oss.Guardian.Hash.{AHasher, hash_borrowed_value, is_ignored, from_borrowed_value}
use kryneth_oss.Guardian.Hash.Order.{members, kept, hash_object_lem}
use kryneth_oss.Guardian.Limits.{
  passed, agent_tool_storm, Guardian, count_of, block, check_calls, storm_key, call_keys,
  enforce_oss_tool_calls,
}
use kryneth_oss.Guardian.Limits.Counts.{occurrences, WithinLimit, Far, enforce_oss_tool_calls_lem}

abbrev adder : AHasher ℕ
adder = record {
  default = 0;
  write = λ b h. h + length b;
  write_u8 = λ n h. h + n;
  write_u64 = λ n h. h + n + 100;
  write_usize = λ n h. h + n;
  finish = λ h. h;
}

abbrev same : ℕ → ℕ
same n = n

abbrev print : BorrowedValue → Text
print v = []

abbrev args : List (Text × BorrowedValue)
args = (codes "time", string (codes "9")) ∷ (codes "city", string (codes "Rome")) ∷ []

abbrev later_args : List (Text × BorrowedValue)
later_args = (codes "city", string (codes "Rome")) ∷ (codes "time", string (codes "10")) ∷ []

args_perm : Perm (kept args) (kept later_args)
unfolding kept is_ignored text_eq
args_perm = Perm.refl ((codes "city", string (codes "Rome")) ∷ [])

hash_object_lem_example :
    hash_borrowed_value adder same same print 0 (object (members args)) 0
    ≡ hash_borrowed_value adder same same print 0 (object (members later_args)) 0
hash_object_lem_example =
    hash_object_lem adder same same print 0 args later_args 0 (omega arith) args_perm

abbrev fresh : Guardian
fresh = record { cache = []; blocked_agent_loops = 0 }

abbrev two_calls : List (Option Text)
two_calls = some (codes "k") ∷ some (codes "k") ∷ []

fresh-Far : Far two_calls fresh.cache
unfolding count_of lookup
fresh-Far k = omega arith

two_calls_pass : (check_calls 5 two_calls fresh).0 ≡ passed
unfolding check_calls lookup insert text_eq
two_calls_pass = refl

abbrev parse : Bytes → Option BorrowedValue
parse b = none

abbrev call : BorrowedValue
call = object (member (codes "name") (string (codes "f")) no_member)

abbrev storm : Text
storm = storm_key adder same same print parse (codes "s")

abbrev keys : List (Option Text)
keys = call_keys adder same same print parse (codes "s") (call ∷ [])

call_apart : occurrences storm keys ≡ 0
unfolding occurrences storm_key call_keys text_eq decimal from_borrowed_value get as_bytes as_str
call_apart = refl

call-Far : Far keys (insert storm 1 [])
unfolding count_of lookup insert call_keys
call-Far k = ground arith

enforce_oss_tool_calls_lem_example :
    let enforced =
      enforce_oss_tool_calls adder same same print parse (20, 5) (codes "s") (call ∷ []) fresh in
    ((enforced.0 ≡ passed)
      ↔ ((count_of storm fresh.cache + 1 ≤ 20) × WithinLimit 5 keys fresh.cache))
    × (20 < count_of storm fresh.cache + 1 → enforced ≡ (agent_tool_storm, block fresh))
unfolding count_of lookup
enforce_oss_tool_calls_lem_example =
    enforce_oss_tool_calls_lem adder same same print parse 20 5 (codes "s") (call ∷ []) fresh
      call_apart (omega arith) call-Far
