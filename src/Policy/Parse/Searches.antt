-- ===== src/Policy/Parse/Searches.antt =====
-- covert-types/src/policy.rs: what the searches of `parse` find in a policy that is written out.
use covert.Prelude.{
  ℕ, ◌-◌, ◌≡◌, refl, sym, ap, ◌∙◌, Bool, true, false, ◌||◌, any, List, [], ◌∷◌, ◌++◌, map, none,
  some, Str, codes, length, is_empty, starts_with, join, HasNone, All, ◌==◌, arith,
}
use mathlib.Core.List.{append_assoc}
use covert.Policy.Paths.{PathPolicy, Operation, create, read, update, delete, revoke, renew}
use covert.Policy.Parse.{
  before_brace, rule_at, rules_from, separator, split_last, without_end, capture_at, captures,
  with_path,
}

abbrev pub name_of : Operation → Str
name_of create = codes "create"
name_of read = codes "read"
name_of update = codes "update"
name_of delete = codes "delete"
name_of revoke = codes "revoke"
name_of renew = codes "renew"

abbrev pub quoted : Operation → Str
quoted op = codes "\"" ++ (name_of op ++ codes "\"")

-- A rule as the command line's users write it, without blanks.
abbrev pub printed_operations : List Operation → Str
printed_operations ops = join b',' (map quoted ops)

abbrev pub printed_body : PathPolicy → Str
printed_body r =
    codes "\"" ++ (r.path ++ (separator ++ (printed_operations r.operations ++ codes "]")))

abbrev pub printed_rule : PathPolicy → Str
printed_rule r = codes "path" ++ (printed_body r ++ codes "}")

abbrev pub printed : List PathPolicy → Str
printed [] = []
printed (r ∷ rs) = printed_rule r ++ printed rs

before_brace-append : (t rest : Str) → HasNone b'}' t → before_brace (t ++ (b'}' ∷ rest)) ≡ some t
before_brace-append [] rest h = refl
before_brace-append (c ∷ t) rest h = rw (h.0, before_brace-append t rest h.1) refl

rules_from-skip : (a rest : Str) → rules_from (length a) (a ++ rest) ≡ rules_from 0 rest
rules_from-skip [] rest = refl
rules_from-skip (c ∷ a) rest = rules_from-skip a rest

without_end-append : (t : Str) → without_end (t ++ codes "]}") ≡ some t
without_end-append [] = refl
without_end-append (c ∷ t) = rw (without_end-append t) refl

second-brace : (c : ℕ) (s : Str) → HasNone b'{' s → starts_with (c ∷ s) separator ≡ false
second-brace c [] h = ground arith
second-brace c (d ∷ s) h = ground (arith, h.0)

split_last-none : (s : Str) → HasNone b'{' s → split_last s ≡ none
split_last-none [] h = refl
split_last-none (c ∷ s) h = rw (split_last-none s h.1, second-brace c s h.1) refl

split_last-separator :
    (b : Str) → HasNone b'{' b → is_empty b ≡ false → split_last (separator ++ b) ≡ some ([], b)
split_last-separator b h e = rw (split_last-none b h, e) refl

split_last-append : (a s b : Str) → split_last s ≡ some ([], b) → split_last (a ++ s) ≡ some (a, b)
split_last-append [] s b h = h
split_last-append (c ∷ a) s b h = rw (split_last-append a s b h) refl

HasNone-append : (k : ℕ) (s t : Str) → HasNone k s → HasNone k t → HasNone k (s ++ t)
HasNone-append k [] t h g = g
HasNone-append k (c ∷ s) t h g = (h.0, HasNone-append k s t h.1 g)

pub any-HasNone : (k : ℕ) (s : Str) → any (λ c. c == k) s ≡ false → HasNone k s
any-HasNone k [] h = tt
any-HasNone k (c ∷ s) h = (ground (arith, h), any-HasNone k s (ground (arith, h)))

-- the characters that end a part of a rule
abbrev is_mark : ℕ → Bool
is_mark k = k == b'{' || k == b'}' || k == b','

pub quoted-unmarked : (op : Operation) → any is_mark (quoted op) ≡ false
quoted-unmarked create = refl
quoted-unmarked read = refl
quoted-unmarked update = refl
quoted-unmarked delete = refl
quoted-unmarked revoke = refl
quoted-unmarked renew = refl

pub unmarked-HasNone : (k : ℕ) (s : Str) → is_mark k ≡ true → any is_mark s ≡ false → HasNone k s
unmarked-HasNone k [] m h = tt
unmarked-HasNone k (c ∷ s) m h = (ground (arith, m, h), unmarked-HasNone k s m (ground (arith, h)))

printed_operations-HasNone :
    (k : ℕ) (ops : List Operation)
    → is_mark k ≡ true
    → (b',' == k) ≡ false
    → HasNone k (printed_operations ops)
printed_operations-HasNone k [] m e = tt
printed_operations-HasNone k (op ∷ []) m e = unmarked-HasNone k (quoted op) m (quoted-unmarked op)
printed_operations-HasNone k (op ∷ o ∷ ops) m e =
    HasNone-append k (quoted op) (b',' ∷ printed_operations (o ∷ ops))
      (unmarked-HasNone k (quoted op) m (quoted-unmarked op))
      (e, printed_operations-HasNone k (o ∷ ops) m e)

-- A rule that can be written out: its path is a text without `}`, and it lists an operation.
pub record IsPrintable (r : PathPolicy) : Type 0 where
  pub has_path : is_empty r.path ≡ false
  pub no_brace : HasNone b'}' r.path
  pub has_operation : is_empty (printed_operations r.operations) ≡ false

printed_body-HasNone : (r : PathPolicy) → IsPrintable r → HasNone b'}' (printed_body r)
printed_body-HasNone r h = (
  refl,
  HasNone-append b'}' r.path (separator ++ (printed_operations r.operations ++ codes "]"))
      h.no_brace
      (HasNone-append b'}' separator (printed_operations r.operations ++ codes "]")
        (any-HasNone b'}' separator refl)
        (HasNone-append b'}' (printed_operations r.operations) (codes "]")
          (printed_operations-HasNone b'}' r.operations refl refl) (refl, tt))),
)

rule_at-printed :
    (r : PathPolicy) (rest : Str)
    → IsPrintable r
    → rule_at (printed_rule r ++ rest) ≡ some (printed_rule r)
rule_at-printed r rest h =
    let found : before_brace ((printed_body r ++ codes "}") ++ rest) ≡ some (printed_body r) =
      ap before_brace (append_assoc (printed_body r) (codes "}") rest)
      ∙ before_brace-append (printed_body r) rest (printed_body-HasNone r h) in
    rw found refl

rules_from-match :
    (c : ℕ) (s r : Str)
    → rule_at (c ∷ s) ≡ some r
    → rules_from 0 (c ∷ s) ≡ r ∷ rules_from (length r - 1) s
rules_from-match c s r h = rw (rules_from, h) refl

pub rules_from-printed :
    (rs : List PathPolicy) → All IsPrintable rs → rules_from 0 (printed rs) ≡ map printed_rule rs
rules_from-printed [] h = refl
rules_from-printed (r ∷ rs) h =
    let tail : Str = codes "ath" ++ (printed_body r ++ codes "}") in
    let first : rules_from 0 (printed (r ∷ rs))
        ≡ printed_rule r ∷ rules_from (length (printed_rule r) - 1) (tail ++ printed rs) =
      rules_from-match b'p' (tail ++ printed rs) (printed_rule r)
        (rule_at-printed r (printed rs) h.0) in
    let shorter : length (printed_rule r) - 1 ≡ length tail = omega arith in
    first
    ∙ ap (λ n. printed_rule r ∷ rules_from n (tail ++ printed rs)) shorter
    ∙ ap (printed_rule r ∷◌) (rules_from-skip tail (printed rs) ∙ rules_from-printed rs h.1)

with_path-some : (a b : Str) → is_empty a ≡ false → with_path a b ≡ some (a, b)
with_path-some [] b h = absurd (cc)
with_path-some (c ∷ a) b h = refl

-- the two ways in which the end of a rule can be read
regrouped :
    (a s o : Str) → (a ++ (s ++ (o ++ codes "]"))) ++ codes "}" ≡ (a ++ (s ++ o)) ++ codes "]}"
regrouped a s o =
    append_assoc a (s ++ (o ++ codes "]")) (codes "}")
    ∙ ap (a ++◌) (
        append_assoc s (o ++ codes "]") (codes "}")
        ∙ ap (s ++◌) (append_assoc o (codes "]") (codes "}"))
        ∙ sym (append_assoc s o (codes "]}")))
    ∙ sym (append_assoc a (s ++ o) (codes "]}"))

capture-printed :
    (r : PathPolicy)
    → IsPrintable r
    → capture_at (printed_rule r) ≡ some (r.path, printed_operations r.operations)
capture-printed r h =
    let ops = printed_operations r.operations in
    let ends : without_end ((r.path ++ (separator ++ (ops ++ codes "]"))) ++ codes "}")
        ≡ some (r.path ++ (separator ++ ops)) =
      ap without_end (regrouped r.path separator ops)
      ∙ without_end-append (r.path ++ (separator ++ ops)) in
    let both : split_last (r.path ++ (separator ++ ops)) ≡ some (r.path, ops) =
      split_last-append r.path (separator ++ ops) ops (
        split_last-separator ops (printed_operations-HasNone b'{' r.operations refl refl)
          h.has_operation) in
    rw (ends, both) (with_path-some r.path ops h.has_path)

pub captures-printed :
    (r : PathPolicy)
    → IsPrintable r
    → captures (printed_rule r) ≡ some (r.path, printed_operations r.operations)
captures-printed r h = rw (captures, capture-printed r h) refl
