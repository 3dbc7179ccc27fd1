-- ===== src/Policy/Parse/Printed.antt =====
-- covert-types/src/policy.rs: reading a policy that is written out.
use covert.Prelude.{
  ℕ, ◌≡◌, refl, ap, ◌∙◌, Bool, true, false, not, all, List, [], ◌∷◌, ◌++◌, map, Str, codes, select,
  is_empty, starts_with, split, split-join, split-HasNone, flat_map, HasNone, All, ok, ◌==◌, arith,
  append-nil_text,
}
use covert.Policy.Paths.{PathPolicy, Operation, create, read, update, delete, revoke, renew}
use covert.Policy.Parse.{
  Unicode, rules_from, operation_named, from_str, operations_of, parse_rule, parse_rules,
  trim_start, is_comment, stripped, parse,
}
use covert.Policy.Parse.Searches.{
  name_of, quoted, printed_operations, printed_body, printed_rule, printed, quoted-unmarked,
  unmarked-HasNone, IsPrintable, rules_from-printed, captures-printed,
}

quoted-All-HasNone : (ops : List Operation) → All (HasNone b',') (map quoted ops)
quoted-All-HasNone [] = tt
quoted-All-HasNone (op ∷ ops) =
    (unmarked-HasNone b',' (quoted op) refl (quoted-unmarked op), quoted-All-HasNone ops)

split-printed_operations :
    (ops : List Operation)
    → is_empty (printed_operations ops) ≡ false
    → split b',' (printed_operations ops) ≡ map quoted ops
split-printed_operations [] h = absurd (cc)
split-printed_operations (op ∷ ops) h =
    let parts = quoted-All-HasNone (op ∷ ops) in
    split-join b',' (quoted op) (map quoted ops) parts.0 parts.1

-- a test that every character passes removes none
select-all : (test : ℕ → Bool) (s : Str) → all test s ≡ true → select test s ≡ s
select-all test [] h = refl
select-all test (c ∷ s) h = ground (arith, h, select-all test s (ground (arith, h)))

HasNone-all : (k : ℕ) (s : Str) → HasNone k s → all (λ c. not (c == k)) s ≡ true
HasNone-all k [] h = refl
HasNone-all k (c ∷ s) h = rw (h.0, HasNone-all k s h.1) refl

trim_start-code :
    (unicode : Unicode) (c : ℕ) (s : Str)
    → not (unicode.is_whitespace c) ≡ true
    → trim_start unicode (c ∷ s) ≡ c ∷ s
trim_start-code unicode c s h = ground (arith, h)

module _ (unicode : Unicode) where
  -- What Unicode says of the operations' names: they are letters in lower case, and a quotation
  -- mark is no letter.
  pub record ReadsNames : Type 0 where
    pub letters : (op : Operation) → select unicode.is_alphabetic (quoted op) ≡ name_of op
    pub lower : (op : Operation) → unicode.to_lowercase (name_of op) ≡ name_of op

  module _ (names : ReadsNames) where
    from_str-name : (op : Operation) → operation_named unicode (name_of op) ≡ ok op
    from_str-name create = refl
    from_str-name read = refl
    from_str-name update = refl
    from_str-name delete = refl
    from_str-name revoke = refl
    from_str-name renew = refl

    from_str-quoted :
        (op : Operation) → from_str unicode (select unicode.is_alphabetic (quoted op)) ≡ ok op
    unfolding from_str
    from_str-quoted op =
        ap (λ s. operation_named unicode (unicode.to_lowercase s)) (names.letters op)
        ∙ ap (operation_named unicode) (names.lower op)
        ∙ from_str-name op

    operations_of-quoted : (ops : List Operation) → operations_of unicode (map quoted ops) ≡ ok ops
    operations_of-quoted [] = refl
    operations_of-quoted (op ∷ ops) = rw (from_str-quoted op, operations_of-quoted ops) refl

    parse_rule-printed :
        (r : PathPolicy) → IsPrintable r → parse_rule unicode (printed_rule r) ≡ ok r
    parse_rule-printed r h =
        rw
          (
            captures-printed r h,
            split-printed_operations r.operations h.has_operation,
            operations_of-quoted r.operations,
          )
          refl

    parse_rules-printed :
        (rs : List PathPolicy)
        → All IsPrintable rs
        → parse_rules unicode (map printed_rule rs) ≡ ok rs
    parse_rules-printed [] h = refl
    parse_rules-printed (r ∷ rs) h = rw (parse_rule-printed r h.0, parse_rules-printed rs h.1) refl

    stripped-printed :
        (rs : List PathPolicy)
        → HasNone b'\n' (printed rs)
        → all (λ c. not (unicode.is_whitespace c)) (printed rs) ≡ true
        → stripped unicode (printed rs) ≡ printed rs
    unfolding stripped
    stripped-printed [] h w = refl
    stripped-printed (r ∷ rs) h w =
        let text = printed (r ∷ rs) in
        let code : is_comment unicode text ≡ false =
          ap (λ s. starts_with s (codes "#"))
            (trim_start-code unicode b'p'
              ((codes "ath" ++ (printed_body r ++ codes "}")) ++ printed rs) (ground (arith, w))) in
        let one : flat_map (λ line. line)
              (select (λ line. not (is_comment unicode line)) (split b'\n' text))
            ≡ text =
          rw (split-HasNone b'\n' text h, code) (append-nil_text text) in
        ap (select (λ c. not (unicode.is_whitespace c))) one
        ∙ select-all (λ c. not (unicode.is_whitespace c)) text w

    -- A list of rules that is written out without blanks, where each has a path without a closing
    -- brace and lists an operation, is read back as it was, if the names of the operations are
    -- letters in lower case and a quotation mark is no letter.
    pub parse-printed :
        (rs : List PathPolicy)
        → All IsPrintable rs
        → HasNone b'\n' (printed rs)
        → all (λ c. not (unicode.is_whitespace c)) (printed rs) ≡ true
        → parse unicode (printed rs) ≡ ok rs
    unfolding parse
    parse-printed rs p h w =
        ap (λ s. parse_rules unicode (rules_from 0 (select (λ c. not (c == b'\n')) s)))
          (stripped-printed rs h w)
        ∙ ap (λ s. parse_rules unicode (rules_from 0 s))
            (select-all (λ c. not (c == b'\n')) (printed rs) (HasNone-all b'\n' (printed rs) h))
        ∙ ap (parse_rules unicode) (rules_from-printed rs p)
        ∙ parse_rules-printed rs p
