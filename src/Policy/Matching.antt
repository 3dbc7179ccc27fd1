-- ===== src/Policy/Matching.antt =====
-- covert-types/src/policy.rs: the requests that one path rule authorises, by a relation that knows
-- nothing of the code.
use covert.Prelude.{
  ◌≡◌, ◌↔◌, refl, ap, ◌∙◌, subst, inl, inr, Bool, true, false, List, [], ◌∷◌, ◌++◌, Str, any, all,
  In, Bool-cases, In-any, any-In, In-all, all-In, str_eq, str_eq_refl, eq_of_str_eq, starts_with,
  starts_with-append, rest_of_starts_with, ends_with, ends_with-append, drop_last, drop_last-append,
  last_of_ends_with, arith,
}
use covert.Policy.Paths
use covert.Policy.Paths.{Operation, PathPolicy, op_eq, star}

pub op_eq_iff : (a b : Operation) → (op_eq a b ≡ true) ↔ (a ≡ b)
op_eq_iff a b = (op_eq_sound a b, λ e. rw e (op_eq_refl b))
  where
    op_eq_sound : (a b : Operation) → op_eq a b ≡ true → a ≡ b
    op_eq_sound a b h = ground arith

    op_eq_refl : (a : Operation) → op_eq a a ≡ true
    op_eq_refl a = ground arith

-- The paths that a pattern takes: those that begin with what stands before a final star, or else
-- the pattern itself.
pub data Matches (pattern_path path : Str) : Type 0 where
  prefix : (p r : Str) → pattern_path ≡ p ++ star ∷ [] → path ≡ p ++ r → Matches pattern_path path
  exact : ends_with pattern_path star ≡ false → path ≡ pattern_path → Matches pattern_path path

abbrev pub path_test : Str → Str → Bool
path_test p path = elim (ends_with p star) [
  | true ↦ starts_with path (drop_last p)
  | false ↦ str_eq path p
]

Matches-path_test : (p path : Str) → path_test p path ≡ true → Matches p path
Matches-path_test p path h = elim (Bool-cases (ends_with p star)) [
  | inl star_last ↦
      let (r, e) = rest_of_starts_with path (drop_last p) (ground arith) in
      prefix (drop_last p) r (last_of_ends_with p star star_last) e
  | inr plain ↦ exact plain (eq_of_str_eq path p (ground arith))
]

path_test-Matches : (p path : Str) → Matches p path → path_test p path ≡ true
path_test-Matches p path (prefix q r e f) = ground (
  arith,
  ap (λ (x : Str). ends_with x star) e ∙ ends_with-append q star,
  ap drop_last e ∙ drop_last-append q star,
  starts_with-append q r,
)
path_test-Matches p path (exact plain e) =
    ground (arith, ap (λ (x : Str). str_eq x p) e ∙ str_eq_refl p)

abbrev allows : PathPolicy → Operation → Bool
allows p op = any (λ o. op_eq o op) p.operations

is_authorized-tests :
    (p : PathPolicy) (path : Str) (ops : List Operation)
    → (Paths.is_authorized p path ops ≡ true)
      ↔ ((path_test p.path path ≡ true) × (all (allows p) ops ≡ true))
unfolding Paths.is_authorized
is_authorized-tests p path ops = (λ h. ground arith, λ h. ground arith)

pub allows-In : (p : PathPolicy) (op : Operation) → allows p op ≡ true → In op p.operations
allows-In p op h =
    let (o, m, e) = any-In (λ o. op_eq o op) p.operations h in
    subst (λ x. In x p.operations) ((op_eq_iff o op).0 e) m

pub In-allows : (p : PathPolicy) (op : Operation) → In op p.operations → allows p op ≡ true
In-allows p op m = In-any (λ o. op_eq o op) p.operations op m ((op_eq_iff op op).1 refl)

-- A path rule authorises exactly the requests whose path its pattern matches and whose operations
-- are all listed in it.
pub path_is_authorized_iff :
    (p : PathPolicy) (path : Str) (ops : List Operation)
    → (Paths.is_authorized p path ops ≡ true)
      ↔ (Matches p.path path × ((op : Operation) → In op ops → In op p.operations))
path_is_authorized_iff p path ops = (
  λ h.
      let (a, b) = (is_authorized-tests p path ops).0 h in
      (Matches-path_test p.path path a, λ op m. allows-In p op (all-In (allows p) ops op b m)),
  λ h. (is_authorized-tests p path ops).1 (
    path_test-Matches p.path path h.0,
    In-all (allows p) ops (λ op m. In-allows p op (h.1 op m)),
  ),
)
