-- ===== src/Prelude/Text.antt =====
-- Text as a list of code points. The program compares texts and looks at their ends; `codes` gives
-- the text of a literal.
use Prim.Native.Char.{code}
use Prim.Native.String.{String}
use Prim.Native.Nat.{ℕ}
use mathlib.Core.Path.{◌≡◌, refl, ap, ◌∙◌}
use mathlib.Core.Logic.{◌↔◌}
use mathlib.Core.Bool.{Bool, true, false, ◌&&◌, ◌||◌}
use mathlib.Core.List.{List, [], ◌∷◌, ◌++◌}
use native.Mathlib.Omega.{arith}
use covert.Prelude.Tests.{◌==◌, ==_refl, ltb, if◌then◌else◌}
use covert.Prelude.Lists.{All}

abbrev pub Str : Type 0
Str = List ℕ

abbrev pub codes : String → Str
codes String.[] = []
codes (String.◌∷◌ c s) = code c ∷ codes s

abbrev pub str_eq : Str → Str → Bool
str_eq [] [] = true
str_eq [] (d ∷ t) = false
str_eq (c ∷ s) [] = false
str_eq (c ∷ s) (d ∷ t) = (c == d) && str_eq s t

-- `text.starts_with(pattern)`
abbrev pub starts_with : Str → Str → Bool
starts_with s [] = true
starts_with [] (d ∷ t) = false
starts_with (c ∷ s) (d ∷ t) = (c == d) && starts_with s t

-- `text.ends_with(c)`, for a character `c`
abbrev pub ends_with : Str → ℕ → Bool
ends_with [] k = false
ends_with (c ∷ []) k = c == k
ends_with (c ∷ d ∷ s) k = ends_with (d ∷ s) k

-- `&text[..text.len() - 1]`, for a text whose last character is one byte long
abbrev pub drop_last : Str → Str
drop_last [] = []
drop_last (c ∷ []) = []
drop_last (c ∷ d ∷ s) = c ∷ drop_last (d ∷ s)

-- `parts.join("/")`
abbrev pub join : ℕ → List Str → Str
join sep [] = []
join sep (s ∷ []) = s
join sep (s ∷ t ∷ r) = s ++ sep ∷ join sep (t ∷ r)

pub str_eq_refl : (s : Str) → str_eq s s ≡ true
str_eq_refl [] = refl
str_eq_refl (c ∷ s) = ground (arith, ==_refl c, str_eq_refl s)

pub eq_of_str_eq : (s t : Str) → str_eq s t ≡ true → s ≡ t
eq_of_str_eq [] [] h = refl
eq_of_str_eq [] (d ∷ t) h = cc
eq_of_str_eq (c ∷ s) [] h = cc
eq_of_str_eq (c ∷ s) (d ∷ t) h = ground (arith, eq_of_str_eq s t)

pub str_eq_iff : (s t : Str) → (str_eq s t ≡ true) ↔ (s ≡ t)
str_eq_iff s t = (eq_of_str_eq s t, λ e. rw e (str_eq_refl t))

-- A text with a prefix is that prefix and a rest.
pub starts_with-append : (p s : Str) → starts_with (p ++ s) p ≡ true
starts_with-append [] s = refl
starts_with-append (c ∷ p) s = ground (arith, ==_refl c, starts_with-append p s)

pub rest_of_starts_with : (s p : Str) → starts_with s p ≡ true → (r : Str) × (s ≡ p ++ r)
rest_of_starts_with s [] h = (s, refl)
rest_of_starts_with [] (d ∷ p) h = absurd (cc)
rest_of_starts_with (c ∷ s) (d ∷ p) h =
    let (r, e) = rest_of_starts_with s p (ground arith) in (r, ground arith)

pub drop_last-append : (s : Str) (k : ℕ) → drop_last (s ++ k ∷ []) ≡ s
drop_last-append [] k = refl
drop_last-append (c ∷ []) k = refl
drop_last-append (c ∷ d ∷ s) k = ap (◌∷◌ c) (drop_last-append (d ∷ s) k)

pub ends_with-append : (s : Str) (k : ℕ) → ends_with (s ++ k ∷ []) k ≡ true
ends_with-append [] k = ==_refl k
ends_with-append (c ∷ []) k = ==_refl k
ends_with-append (c ∷ d ∷ s) k = ends_with-append (d ∷ s) k

pub last_of_ends_with : (s : Str) (k : ℕ) → ends_with s k ≡ true → s ≡ drop_last s ++ k ∷ []
last_of_ends_with [] k h = absurd (cc)
last_of_ends_with (c ∷ []) k h = ground arith
last_of_ends_with (c ∷ d ∷ s) k h = ap (◌∷◌ c) (last_of_ends_with (d ∷ s) k h)

pub append_assoc : (a b c : Str) → a ++ b ++ c ≡ a ++ (b ++ c)
append_assoc [] b c = refl
append_assoc (x ∷ a) b c = ap (◌∷◌ x) (append_assoc a b c)

pub starts_with_trans : (a b s : Str) → starts_with s (a ++ b) ≡ true → starts_with s a ≡ true
starts_with_trans a b s h =
    let (r, e) = rest_of_starts_with s (a ++ b) h in
    rw (e, append_assoc a b r) (starts_with-append a (b ++ r))

pub drop_last-append_cons : (s t : Str) (c : ℕ) → drop_last (s ++ c ∷ t) ≡ s ++ drop_last (c ∷ t)
drop_last-append_cons [] t c = refl
drop_last-append_cons (d ∷ []) t c = refl
drop_last-append_cons (d ∷ e ∷ s) t c = ap (◌∷◌ d) (drop_last-append_cons (e ∷ s) t c)

pub append-nil_text : (s : Str) → s ++ [] ≡ s
append-nil_text [] = refl
append-nil_text (c ∷ s) = ap (◌∷◌ c) (append-nil_text s)

-- one more character before the first part
abbrev prepend : ℕ → List Str → List Str
prepend c [] = []
prepend c (s ∷ r) = (c ∷ s) ∷ r

-- `text.split(separator)`: a text without the separator is one part
abbrev pub split : ℕ → Str → List Str
split sep [] = [] ∷ []
split sep (c ∷ s) = let rest = split sep s in if c == sep then [] ∷ rest else prepend c rest

-- no character of the text is the separator
abbrev pub HasNone : ℕ → Str → Type 0
HasNone sep [] = Unit {0}
HasNone sep (c ∷ s) = (c == sep ≡ false) × HasNone sep s

pub split-HasNone : (sep : ℕ) (s : Str) → HasNone sep s → split sep s ≡ s ∷ []
split-HasNone sep [] h = refl
split-HasNone sep (c ∷ s) h = rw (h.0) (ap (prepend c) (split-HasNone sep s h.1))

split-append : (sep : ℕ) (s t : Str) → HasNone sep s → split sep (s ++ sep ∷ t) ≡ s ∷ split sep t
split-append sep [] t h = rw (==_refl sep)
split-append sep (c ∷ s) t h = rw (h.0) (ap (prepend c) (split-append sep s t h.1))

-- Parts that do not hold the separator are found again, if there is one at all.
pub split-join :
    (sep : ℕ) (s : Str) (rest : List Str)
    → HasNone sep s
    → All (HasNone sep) rest
    → split sep (join sep (s ∷ rest)) ≡ s ∷ rest
split-join sep s [] h k = split-HasNone sep s h
split-join sep s (t ∷ rest) h k =
    split-append sep s (join sep (t ∷ rest)) h ∙ ap (◌∷◌ s) (split-join sep t rest k.0 k.1)

pub ends_with-append_other : (s : Str) (k j : ℕ) → ends_with (s ++ k ∷ []) j ≡ (k == j)
ends_with-append_other [] k j = refl
ends_with-append_other (c ∷ []) k j = refl
ends_with-append_other (c ∷ d ∷ s) k j = ends_with-append_other (d ∷ s) k j

-- the order of `String`, by code points
abbrev pub str_leb : Str → Str → Bool
str_leb [] t = true
str_leb (c ∷ s) [] = false
str_leb (c ∷ s) (d ∷ t) = let rest = str_leb s t in ltb c d || (c == d && rest)
