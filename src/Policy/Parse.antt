-- ===== src/Policy/Parse.antt =====
-- covert-types/src/policy.rs, `PathPolicy::parse`, with `Operation::from_str` of request.rs. The two
-- regular expressions are written out as the searches that they stand for. Which characters are white
-- space or letters, and the lower case of a text, are Unicode's, and a parameter.
pub mod Searches
pub mod Printed
use covert.Prelude.{
  ℕ, zero, suc, ◌-◌, ◌&&◌, not, Bool, true, false, List, [], ◌∷◌, ◌++◌, map, Option, none, some,
  Str, codes, length, select, is_empty, starts_with, split, flat_map, str_eq, if◌then◌else◌, Result,
  ok, err, ok_or, ◌>>=◌, ◌==◌,
}
use covert.Policy.Paths.{PathPolicy, Operation, create, read, update, delete, revoke, renew}

pub record Unicode : Type 0 where
  pub is_whitespace : ℕ → Bool
  pub is_alphabetic : ℕ → Bool
  pub to_lowercase : Str → Str

-- `ApiError::bad_request`, the one error of parsing
pub data ParseError : Type 0 where
  bad_request : ParseError

abbrev pub drop_chars : ℕ → Str → Str
drop_chars zero s = s
drop_chars (suc n) [] = []
drop_chars (suc n) (c ∷ s) = drop_chars n s

-- the text before the first `}`, if there is one
abbrev pub before_brace : Str → Option Str
before_brace [] = none
before_brace (c ∷ s) =
    let rest = before_brace s in
    if c == b'}' then some [] else elim rest [ none ↦ none | some t ↦ some (c ∷ t) ]

-- `path[^\}]+\}`, a match that begins here
abbrev pub rule_at : Str → Option Str
rule_at s =
    if starts_with s (codes "path")
    then elim (before_brace (drop_chars 4 s)) [
      | none ↦ none
      | some [] ↦ none
      | some (c ∷ t) ↦ some (codes "path" ++ (c ∷ t ++ b'}' ∷ []))
    ]
    else none

-- `captures_iter`, with the number of characters of a match that are still to be passed over
abbrev pub rules_from : ℕ → Str → List Str
rules_from skip [] = []
rules_from (suc skip) (c ∷ s) = rules_from skip s
rules_from zero (c ∷ s) = elim (rule_at (c ∷ s)) [
  | none ↦ rules_from zero s
  | some r ↦ r ∷ rules_from (length r - 1) s
]

-- the last `"{capabilities=[` that something follows, and what stands on both sides of it
abbrev pub separator : Str
separator = codes "\"{capabilities=["

abbrev pub split_last : Str → Option (Str × Str)
split_last [] = none
split_last (c ∷ s) = elim (split_last s) [
  | some (a, b) ↦ some (c ∷ a, b)
  | none ↦
      let b = drop_chars (length separator) (c ∷ s) in
      if starts_with (c ∷ s) separator && not (is_empty b) then some ([], b) else none
]

-- the text without `]}` at its end
abbrev pub without_end : Str → Option Str
without_end [] = none
without_end (c ∷ s) = elim (without_end s) [
  | some t ↦ some (c ∷ t)
  | none ↦ if str_eq (c ∷ s) (codes "]}") then some [] else none
]

abbrev pub with_path : Str → Str → Option (Str × Str)
with_path [] b = none
with_path (c ∷ a) b = some (c ∷ a, b)

-- `path"(.+)"\{capabilities=\[(.+)\]\}`, a match that begins here; its `}` is the last character, as a
-- rule has no other
abbrev pub capture_at : Str → Option (Str × Str)
capture_at s =
    if starts_with s (codes "path\"")
    then elim (without_end (drop_chars 5 s)) [
      | none ↦ none
      | some t ↦ elim (split_last t) [ none ↦ none | some (a, b) ↦ with_path a b ]
    ]
    else none

-- `captures`, the first match
abbrev pub captures : Str → Option (Str × Str)
captures [] = none
captures (c ∷ s) = elim (capture_at (c ∷ s)) [ some m ↦ some m | none ↦ captures s ]

module _ (unicode : Unicode) where
  open unicode use {is_whitespace, is_alphabetic, to_lowercase}

  abbrev pub operation_named : Str → Result ParseError Operation
  operation_named s =
      if str_eq s (codes "create")
      then ok create
      else if str_eq s (codes "read")
      then ok read
      else if str_eq s (codes "update")
      then ok update
      else if str_eq s (codes "delete")
      then ok delete
      else if str_eq s (codes "revoke")
      then ok revoke
      else if str_eq s (codes "renew")
      then ok renew
      else err bad_request

  -- `Operation::from_str`
  unfoldable pub from_str : Str → Result ParseError Operation
  from_str s = operation_named (to_lowercase s)

  abbrev pub operations_of : List Str → Result ParseError (List Operation)
  operations_of [] = ok []
  operations_of (c ∷ cs) = do
    op ← from_str (select is_alphabetic c)
    ops ← operations_of cs
    ok (op ∷ ops)

  abbrev pub parse_rule : Str → Result ParseError PathPolicy
  parse_rule rule = do
    caps ← ok_or (captures rule) bad_request
    operations ← operations_of (split b',' caps.1)
    ok (record { path = caps.0; operations = operations })

  abbrev pub parse_rules : List Str → Result ParseError (List PathPolicy)
  parse_rules [] = ok []
  parse_rules (rule ∷ rules) = do p ← parse_rule rule; ps ← parse_rules rules; ok (p ∷ ps)

  abbrev pub trim_start : Str → Str
  trim_start [] = []
  trim_start (c ∷ s) = let rest = trim_start s in if is_whitespace c then rest else c ∷ s

  abbrev pub is_comment : Str → Bool
  is_comment line = starts_with (trim_start line) (codes "#")

  -- the lines that are no comments, without white space
  unfoldable pub stripped : Str → Str
  stripped s =
      select (λ c. not (is_whitespace c))
        (flat_map (λ line. line) (select (λ line. not (is_comment line)) (split b'\n' s)))

  -- `parse`
  unfoldable pub parse : Str → Result ParseError (List PathPolicy)
  unfolding stripped
  parse s = parse_rules (rules_from 0 (select (λ c. not (c == b'\n')) (stripped s)))
