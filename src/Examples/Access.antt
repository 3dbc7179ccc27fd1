-- ===== src/Examples/Access.antt =====
-- Policies, tokens and the authorisation of a request, at concrete inputs.
use covert.Prelude.{
  ◌≡◌, ◌≢◌, ◌↔◌, arith, refl, true, false, List, All, map, select, ◌==◌, ◌||◌, ◌&&◌, leb,
  if◌then◌else◌, ◌+◌, [], ◌∷◌, ◌++◌, some, Str, codes, ok, In, here, length,
}
use covert.Policy.{Policy, batch_is_authorized}
use covert.Policy
use covert.Policy.Paths
use covert.Policy.Paths.{Operation, PathPolicy, read, create, update, delete, revoke, renew, star}
use covert.Policy.Parse.{Unicode, parse}
use covert.Policy.Parse.Searches.{IsPrintable, name_of, quoted, printed, any-HasNone}
use covert.Policy.Parse.Printed.{ReadsNames, parse-printed}
use covert.Policy.Matching.{Matches, path_is_authorized_iff}
use covert.Policy.Delegation.{
  batch_is_authorized_sound, batch_is_authorized_two_stars, any_authorizes, one_rule,
}
use covert.Namespace
use covert.Namespace.{get_full_path}
use covert.Server.Tables.{TokenEntry, Tables, slash}
use covert.Auth.{
  is_authorized, Request, unsealed, is_unsealed, request_path, token_from_str, lookup_policies,
}
use covert.Auth.Grants.{Grants, Allows, is_authorized_sound, lookup_policies-Grants}
use covert.Policies
use covert.Policies.{is_policy}
use covert.Policies.Removed.{remove-Grants}
use covert.Auth.Isolation.{is_authorized-within}
use covert.Examples.{store, readers}

abbrev request : Request
request = record {
  operation = read;
  path = codes "kv/a";
  namespace = codes "root" ∷ codes "team" ∷ [];
  token = some (codes "s1");
  storage_state = some unsealed;
}

request-is_authorized : is_authorized request 5 store ≡ ok true
unfolding is_authorized token_from_str lookup_policies get_full_path Namespace.find_parents
    Namespace.climb Namespace.lookup Policy.is_authorized Paths.is_authorized
request-is_authorized = refl

is_authorized_sound_example :
    (id : Str) × (p : Policy) × (is_unsealed request.storage_state ≡ true)
    × (request.token ≡ some id)
    × Grants store 5 id p
    × Allows store request p
is_authorized_sound_example = is_authorized_sound store request 5 request-is_authorized

is_authorized-within_example :
    (token : TokenEntry) × (p : Str) × (rest : Str) × In token store.tokens
    × (request.token ≡ some token.id)
    × (get_full_path (length store.namespaces) token.namespace_id store.namespaces ≡ some p)
    × (request_path request ≡ p ++ slash ∷ rest)
is_authorized-within_example = is_authorized-within store request 5 request-is_authorized

abbrev ascii : Unicode
ascii = record {
  is_whitespace = λ c. c == b' ' || (leb 9 c && leb c 13);
  is_alphabetic = λ c. (leb b'a' c && leb c b'z') || (leb b'A' c && leb c b'Z');
  to_lowercase = map (λ c. if leb b'A' c && leb c b'Z' then c + 32 else c);
}

ascii-letters : (op : Operation) → select ascii.is_alphabetic (quoted op) ≡ name_of op
ascii-letters create = refl
ascii-letters read = refl
ascii-letters update = refl
ascii-letters delete = refl
ascii-letters revoke = refl
ascii-letters renew = refl

ascii-lower : (op : Operation) → ascii.to_lowercase (name_of op) ≡ name_of op
ascii-lower create = refl
ascii-lower read = refl
ascii-lower update = refl
ascii-lower delete = refl
ascii-lower revoke = refl
ascii-lower renew = refl

ascii-ReadsNames : ReadsNames ascii
ascii-ReadsNames = record { letters = ascii-letters; lower = ascii-lower }

abbrev two_rules : List PathPolicy
two_rules =
    record { path = codes "kv/*"; operations = read ∷ create ∷ [] }
    ∷ record { path = codes "sys/"; operations = delete ∷ [] }
    ∷ []

two_rules-IsPrintable : All IsPrintable two_rules
two_rules-IsPrintable = (
  record { has_path = refl; no_brace = any-HasNone b'}' (codes "kv/*") refl; has_operation = refl },
  (
    record {
      has_path = refl;
      no_brace = any-HasNone b'}' (codes "sys/") refl;
      has_operation = refl;
    },
    tt,
  ),
)

parse-printed_example : parse ascii (printed two_rules) ≡ ok two_rules
parse-printed_example =
    parse-printed ascii ascii-ReadsNames two_rules two_rules-IsPrintable
      (any-HasNone b'\n' (printed two_rules) refl) refl

abbrev rule : PathPolicy
rule = record { path = codes "kv/*"; operations = read ∷ create ∷ [] }

path_is_authorized_iff_example : (Paths.is_authorized rule (codes "kv/a") (read ∷ []) ≡ true) ↔ (
    Matches rule.path (codes "kv/a")
    × ((op : Operation) → In op (read ∷ []) → In op rule.operations))
path_is_authorized_iff_example = path_is_authorized_iff rule (codes "kv/a") (read ∷ [])

abbrev narrower : Policy
narrower = record {
  name = codes "one";
  paths = record { path = codes "kv/a*"; operations = read ∷ [] } ∷ [];
  namespace_id = codes "t";
}

narrower_passes : batch_is_authorized (readers ∷ []) (narrower ∷ []) ≡ true
unfolding batch_is_authorized Policy.is_authorized Paths.is_authorized
narrower_passes = refl

narrower_allows : Policy.is_authorized narrower (codes "kv/ab") (read ∷ []) ≡ true
unfolding Policy.is_authorized Paths.is_authorized
narrower_allows = refl

no_two_stars : (q : Str) → codes "kv/*" ≢ q ++ star ∷ star ∷ []
no_two_stars [] = λ e. ground (arith, e)
no_two_stars (a ∷ []) = λ e. ground (arith, e)
no_two_stars (a ∷ b ∷ []) = λ e. ground (arith, e)
no_two_stars (a ∷ b ∷ c ∷ []) = λ e. ground (arith, e)
no_two_stars (a ∷ b ∷ c ∷ d ∷ []) = λ e. ground (arith, e)
no_two_stars (a ∷ b ∷ c ∷ d ∷ f ∷ q) = λ e. ground (arith, e)

batch_is_authorized_sound_example : any_authorizes (readers ∷ []) (codes "kv/ab") (read ∷ []) ≡ true
batch_is_authorized_sound_example =
    batch_is_authorized_sound (readers ∷ []) (narrower ∷ []) narrower (codes "kv/ab") (read ∷ [])
      ((no_two_stars, tt), tt) narrower_passes (here refl) refl narrower_allows

batch_is_authorized_two_stars_example :
    (batch_is_authorized
        (one_rule (codes "a") (codes "kv**") read (codes "t") ∷ [])
        (one_rule (codes "b") (codes "kv*") read (codes "t") ∷ [])
      ≡ true)
    × (Policy.is_authorized
          (one_rule (codes "b") (codes "kv*") read (codes "t"))
          (codes "kv")
          (read ∷ [])
        ≡ true)
    × (Policy.is_authorized
          (one_rule (codes "a") (codes "kv**") read (codes "t"))
          (codes "kv")
          (read ∷ [])
        ≡ false)
batch_is_authorized_two_stars_example =
    batch_is_authorized_two_stars (codes "kv") (codes "a") (codes "b") (codes "t") read refl

abbrev auditors : Policy
auditors = record readers { name = codes "auditors" }

abbrev audited : Tables
audited = record store {
  policies = auditors ∷ store.policies;
  entity_policies =
      record { entity_name = codes "ann"; policy_name = codes "auditors"; namespace_id = codes "t" }
      ∷ store.entity_policies;
}

auditors-Grants :
    Grants
      (Policies.create readers (Policies.remove (codes "readers") (codes "t") audited).1).1
      5
      (codes "s1")
      auditors
unfolding lookup_policies Policies.create Policies.remove
auditors-Grants = lookup_policies-Grants _ 5 (codes "s1") auditors (here refl)

remove-Grants_example : is_policy (codes "readers") (codes "t") auditors ≡ false
remove-Grants_example = remove-Grants readers audited 5 (codes "s1") auditors refl auditors-Grants
