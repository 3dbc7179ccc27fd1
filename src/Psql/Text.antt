-- ===== src/Psql/Text.antt =====
-- backend/covert-psql/src: what the engine does with texts: `str::replace`, the length of a text in
-- bytes of UTF-8, and a slice up to a byte, which panics inside a character.
use covert.Prelude.{
  ℕ, zero, suc, ◌+◌, ◌-◌, true, false, [], ◌∷◌, ◌++◌, Option, none, some, Str, length, starts_with,
  ltb, leb, if◌then◌else◌,
}

-- `replace`, with the number of characters of a match that are still to be passed over
abbrev pub replace_from : ℕ → Str → Str → Str → Str
replace_from skip pattern by [] = []
replace_from (suc skip) pattern by (c ∷ s) = replace_from skip pattern by s
replace_from zero pattern by (c ∷ s) = elim (starts_with (c ∷ s) pattern) [
  | true ↦ by ++ replace_from (length pattern - 1) pattern by s
  | false ↦ c ∷ replace_from zero pattern by s
]

abbrev pub replace : Str → Str → Str → Str
replace pattern by s = replace_from 0 pattern by s

-- the bytes of a character
abbrev pub char_len : ℕ → ℕ
char_len c = if ltb c 128 then 1 else if ltb c 2048 then 2 else if ltb c 65536 then 3 else 4

-- `len`
abbrev pub byte_len : Str → ℕ
byte_len [] = 0
byte_len (c ∷ s) = char_len c + byte_len s

-- `&text[..n]`
abbrev pub slice_to : ℕ → Str → Option Str
slice_to zero s = some []
slice_to (suc n) [] = none
slice_to (suc n) (c ∷ s) =
    let rest = slice_to (n - (char_len c - 1)) s in
    if leb (char_len c) (suc n) then elim rest [ none ↦ none | some r ↦ some (c ∷ r) ] else none
