-- ===== src/Seal/Shares.antt =====
-- covert-server/src/repos/seal.rs: the shares that `get_key_shares` returns.
use covert.Prelude.{
  ◌≡◌, refl, sym, ap, ◌∙◌, false, List, [], ◌∷◌, ◌++◌, some, Str, any, ok, arith, str_eq,
  str_eq_refl, eq_of_str_eq, Bool-cases, Option-cases, inl, inr, subst,
}
use covert.Seal.{KeyShare, Sealing, Sharing, decrypted, get_key_shares}

-- no text stands twice in the list
abbrev pub IsDistinct : List Str → Type 0
IsDistinct [] = Unit {0}
IsDistinct (k ∷ ks) = (any (λ x. str_eq x k) ks ≡ false) × IsDistinct ks

pub str_eq-false : (a b : Str) → str_eq a b ≡ false → str_eq b a ≡ false
str_eq-false a b h = elim (Bool-cases (str_eq b a)) [
  | inl hit ↦
      absurd (ground (arith, h, sym (ap (λ x. str_eq x b) (eq_of_str_eq b a hit)) ∙ str_eq_refl b))
  | inr miss ↦ miss
]

absent_append :
    (h k : Str) (ks : List Str)
    → any (λ x. str_eq x h) ks ≡ false
    → str_eq k h ≡ false
    → any (λ x. str_eq x h) (ks ++ k ∷ []) ≡ false
absent_append h k [] a b = rw b refl
absent_append h k (x ∷ ks) a b = ground (arith, a, absent_append h k ks)

append-IsDistinct :
    (ks : List Str) (k : Str)
    → IsDistinct ks
    → any (λ x. str_eq x k) ks ≡ false
    → IsDistinct (ks ++ k ∷ [])
append-IsDistinct [] k d a = (refl, tt)
append-IsDistinct (x ∷ ks) k d a = (
  absent_append x k ks d.0 (str_eq-false x k (ground (arith, a))),
  append-IsDistinct ks k d.1 (ground (arith, a)),
)

module _ (sharing : Sharing) where
  decrypted-IsDistinct :
      (rows : List KeyShare) (keys out : List Str)
      → IsDistinct keys
      → decrypted sharing rows keys ≡ some out
      → IsDistinct out
  decrypted-IsDistinct [] keys out d h =
      let same : keys ≡ out = ground (arith, h) in subst IsDistinct same d
  decrypted-IsDistinct (row ∷ rows) keys out d h =
      elim (Option-cases (sharing.decrypt row.nonce row.key)) [
        | inl n ↦ absurd (ground (arith, rw (n, decrypted) at h))
        | inr (key, k) ↦ elim (Bool-cases (any (λ x. str_eq x key) keys)) [
          | inl e ↦ decrypted-IsDistinct rows keys out d (rw (k, e, decrypted) at h)
          | inr e ↦
              decrypted-IsDistinct rows (keys ++ key ∷ []) out (append-IsDistinct keys key d e)
                (rw (k, e, decrypted) at h)
        ]
      ]

  pub get_key_shares-IsDistinct :
      (s t : Sealing) (keys : List Str) → get_key_shares sharing s ≡ (ok keys, t) → IsDistinct keys
  unfolding get_key_shares
  get_key_shares-IsDistinct s t keys h = elim (Option-cases (decrypted sharing s.key_shares [])) [
    | inl n ↦ absurd (ground (arith, ap (λ p. p.0) (rw (n, get_key_shares) at h)))
    | inr (out, e) ↦
        let same : out ≡ keys = ground (arith, ap (λ p. p.0) (rw (e, get_key_shares) at h)) in
        subst IsDistinct same (decrypted-IsDistinct s.key_shares [] out tt e)
  ]
