-- ===== src/Namespace/Ranks.antt =====
-- covert-server/src/repos/namespace.rs: numbers for the rows of a forest.
use covert.Prelude.{
  ℕ, suc, ◌<◌, ◌≡◌, sym, ap, ◌∙◌, true, false, List, [], ◌∷◌, some, Str, any, length, str_eq,
  eq_of_str_eq, str_eq_refl, if◌then◌else◌, arith, inl, inr, Bool-cases, In, here, there, In-any,
}
use covert.Server.Tables.{Namespace}
use covert.Namespace.{has_id, parent_exists}
use covert.Namespace.Forest.{IsForest}

-- how many rows stand above the first with this id
abbrev pub rank : List Namespace → Str → ℕ
rank [] id = 0
rank (ns ∷ rows) id = let rest = rank rows id in if has_id id ns then 0 else suc rest

-- Every row has a smaller number than its parent.
abbrev pub IsRanked : (Str → ℕ) → List Namespace → Type 0
IsRanked r rows =
    (ns : Namespace) (p : Str) → In ns rows → ns.parent_namespace_id ≡ some p → r ns.id < r p

parent-any :
    (rows : List Namespace) (ns : Namespace) (p : Str)
    → IsForest rows
    → In ns rows
    → ns.parent_namespace_id ≡ some p
    → any (has_id p) rows ≡ true
parent-any [] ns p f m e = elim m [ ]
parent-any (x ∷ rows) ns p f (here h) e =
    let there_is : parent_exists (some p) rows ≡ true =
      ap (λ o. parent_exists o rows) (sym e ∙ ap (λ (n : Namespace). n.parent_namespace_id) h)
      ∙ f.2 in
    ground (arith, there_is)
parent-any (x ∷ rows) ns p f (there m) e = ground (arith, parent-any rows ns p f.4 m e)

other_id :
    (x : Namespace) (rows : List Namespace) (id : Str)
    → any (has_id x.id) rows ≡ false
    → any (has_id id) rows ≡ true
    → has_id id x ≡ false
other_id x rows id free there_is = elim (Bool-cases (has_id id x)) [
  | inl e ↦ absurd (cc (free, there_is, ap (λ i. any (has_id i) rows) (eq_of_str_eq x.id id e)))
  | inr e ↦ e
]

pub rank-IsRanked : (rows : List Namespace) → IsForest rows → IsRanked (rank rows) rows
rank-IsRanked [] f ns p m e = elim m [ ]
rank-IsRanked (x ∷ rows) f ns p (here h) e =
    let there_is : any (has_id p) rows ≡ true =
      ap (λ o. parent_exists o rows) (sym e ∙ ap (λ (n : Namespace). n.parent_namespace_id) h)
      ∙ f.2 in
    let first_row : has_id ns.id x ≡ true =
      ap (λ (n : Namespace). str_eq x.id n.id) h ∙ str_eq_refl x.id in
    rw (first_row, other_id x rows p f.0 there_is) (omega arith)
rank-IsRanked (x ∷ rows) f ns p (there m) e =
    rw
      (
        other_id x rows ns.id f.0 (In-any (has_id ns.id) rows ns m (str_eq_refl ns.id)),
        other_id x rows p f.0 (parent-any rows ns p f.4 m e),
      )
      (omega (arith, rank-IsRanked rows f.4 ns p m e))

pub rank_lt_length :
    (rows : List Namespace) (id : Str) → any (has_id id) rows ≡ true → rank rows id < length rows
rank_lt_length [] id h = absurd (cc)
rank_lt_length (x ∷ rows) id h = elim (Bool-cases (has_id id x)) [
  | inl e ↦ rw e (omega arith)
  | inr e ↦ rw e (omega (arith, rank_lt_length rows id (ground (arith, e, h))))
]
