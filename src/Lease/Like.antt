-- ===== src/Lease/Like.antt =====
-- The LIKE of SQLite, by which leases and mounts are looked up under a prefix.
use covert.Prelude.{
  ℕ, ◌+◌, ◌≡◌, refl, Bool, true, false, ◌&&◌, ◌||◌, [], ◌∷◌, ◌++◌, Str, if◌then◌else◌, arith, ◌==◌,
  leb, starts_with, All,
}

abbrev pub percent : ℕ
percent = b'%'

abbrev pub underscore : ℕ
underscore = b'_'

-- LIKE does not tell the letters of ASCII apart by case
unfoldable pub fold : ℕ → ℕ
fold c = if leb b'A' c && leb c b'Z' then c + 32 else c

abbrev some_suffix : (Str → Bool) → Str → Bool
some_suffix f [] = f []
some_suffix f (c ∷ s) = f (c ∷ s) || some_suffix f s

abbrev same_char : (Str → Bool) → ℕ → Str → Bool
same_char f c [] = false
same_char f c (d ∷ s) = (c == underscore || fold c == fold d) && f s

-- text LIKE pattern, without ESCAPE
unfoldable pub like : Str → Str → Bool
like [] [] = true
like [] (d ∷ s) = false
like (c ∷ p) s = if c == percent then some_suffix (like p) s else same_char (like p) c s

-- a pattern character that stands for itself
abbrev pub IsPlain : Str → Type 0
IsPlain = All (λ c. (c == percent ≡ false) × (c == underscore ≡ false) × (fold c ≡ c))

-- a text without capital letters
abbrev pub IsFolded : Str → Type 0
IsFolded = All (λ c. fold c ≡ c)

like-percent : (s : Str) → like (percent ∷ []) s ≡ true
unfolding like
like-percent [] = refl
like-percent (c ∷ s) = ground (arith, like-percent s)

-- On text without capitals, a plain pattern before a final `%` takes what begins with it.
pub like-starts_with :
    (p s : Str) → IsPlain p → IsFolded s → like (p ++ percent ∷ []) s ≡ starts_with s p
unfolding like
like-starts_with [] s h k = like-percent s
like-starts_with (c ∷ p) [] h k = ground arith
like-starts_with (c ∷ p) (d ∷ s) h k = ground (arith, like-starts_with p s h.1 k.1)
