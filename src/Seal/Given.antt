-- ===== src/Seal/Given.antt =====
-- covert-server/src/system/unseal.rs: lists of shares that are given.
use covert.Prelude.{◌≡◌, refl, ap, false, List, [], ◌∷◌, ◌++◌, map, Str, any, arith, str_eq}
use mathlib.Core.List.{append_assoc}
use covert.Seal.Shares.{IsDistinct, str_eq-false}

-- a nonce that is drawn, and the share that is stored under it
abbrev pub Given : Type 0
Given = Str × Str

abbrev pub nonce_of : Given → Str
nonce_of g = g.0

abbrev pub share_of : Given → Str
share_of g = g.1

any-prefix :
    (k : Str) (f : Given → Str) (l m : List Given)
    → any (λ x. str_eq x k) (map f (l ++ m)) ≡ false
    → any (λ x. str_eq x k) (map f l) ≡ false
any-prefix k f [] m h = refl
any-prefix k f (x ∷ l) m h = ground (arith, h, any-prefix k f l m)

pub prefix-IsDistinct :
    (f : Given → Str) (l m : List Given) → IsDistinct (map f (l ++ m)) → IsDistinct (map f l)
prefix-IsDistinct f [] m d = tt
prefix-IsDistinct f (x ∷ l) m d = (any-prefix (f x) f l m d.0, prefix-IsDistinct f l m d.1)

any-later :
    (k : Str) (f : Given → Str) (x : Given) (l m : List Given)
    → any (λ y. str_eq y k) (map f (l ++ x ∷ m)) ≡ false
    → str_eq (f x) k ≡ false
any-later k f x [] m h = ground (arith, h)
any-later k f x (y ∷ l) m h = any-later k f x l m (ground (arith, h))

-- none of those before is the same
pub earlier :
    (f : Given → Str) (x : Given) (l m : List Given)
    → IsDistinct (map f (l ++ x ∷ m))
    → any (λ y. str_eq (f x) (f y)) l ≡ false
earlier f x [] m d = refl
earlier f x (y ∷ l) m d = rw (any-later (f y) f x l m d.0) (earlier f x l m d.1)

pub earlier_flipped :
    (f : Given → Str) (x : Given) (l m : List Given)
    → IsDistinct (map f (l ++ x ∷ m))
    → any (λ k. str_eq k (f x)) (map f l) ≡ false
earlier_flipped f x [] m d = refl
earlier_flipped f x (y ∷ l) m d =
    rw (str_eq-false (f x) (f y) (any-later (f y) f x l m d.0)) (earlier_flipped f x l m d.1)

pub map-snoc :
    {A : Type 0} (f : Given → A) (l : List Given) (x : Given)
    → map f l ++ f x ∷ [] ≡ map f (l ++ x ∷ [])
map-snoc f [] x = refl
map-snoc f (y ∷ l) x = ap (f y ∷◌) (map-snoc f l x)

-- the same list, with its next element moved to what stands before
pub moved : (l m : List Given) (x : Given) → l ++ x ∷ [] ++ m ≡ l ++ (x ∷ m)
moved l m x = append_assoc l (x ∷ []) m

-- the shares of all calls
abbrev pub all_of : List (List Given) → List Given
all_of [] = []
all_of (b ∷ bs) = b ++ all_of bs
