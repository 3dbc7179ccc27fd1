-- ===== src/Policy/Delegation.antt =====
-- covert-types/src/policy.rs: what a batch of policies that passes `batch_is_authorized` may do,
-- set against the policies that it was held against.
use covert.Prelude.{
  ◌↔◌, length, length-append, ◌≡◌, ◌≢◌, refl, sym, ap, ◌∙◌, inl, inr, Bool, true, false, List, [],
  ◌∷◌, ◌++◌, Str, not, any, All, All-In, In, Bool-cases, In-any, any-In, all-In, In-select, str_eq,
  ends_with, ends_with-append, drop_last, drop_last-append, drop_last-append_cons, append_assoc,
  append-nil_text, arith,
}
use covert.Policy.{Policy, batch_is_authorized}
use covert.Policy
use covert.Policy.Paths
use covert.Policy.Paths.{Operation, PathPolicy, star}
use covert.Policy.Matching.{Matches, prefix, exact, path_is_authorized_iff}

-- A pattern that ends in two stars stands for the paths that begin with a star after its prefix.
abbrev pub IsPlain : Str → Type 0
IsPlain p = (q : Str) → p ≢ q ++ star ∷ star ∷ []

-- Where a pattern takes another pattern as a path, it takes all that the other one takes.
prefix-cover :
    (q rest r s path : Str)
    → ((u : Str) → q ≢ u ++ star ∷ [])
    → q ++ rest ≡ r ++ star ∷ []
    → path ≡ r ++ s
    → (t : Str) × (path ≡ q ++ t)
prefix-cover q [] r s path plain e f = absurd (plain r (sym (append-nil_text q) ∙ e))
prefix-cover q (c ∷ rest) r s path plain e f = (
  drop_last (c ∷ rest) ++ s,
  cc (
    f,
    append_assoc q (drop_last (c ∷ rest)) s,
    ap (λ (x : Str). x ++ s)
        (sym (drop_last-append r star) ∙ ap drop_last (sym e) ∙ drop_last-append_cons q rest c),
  ),
)

Matches-trans : (p r path : Str) → IsPlain p → Matches p r → Matches r path → Matches p path
Matches-trans p r path plain (prefix q rest e f) (prefix q' s e' f') =
    let (t, g) =
      prefix-cover q rest q' s path
        (λ u h.
          plain u (e ∙ ap (λ (x : Str). x ++ star ∷ []) h ∙ append_assoc u (star ∷ []) (star ∷ [])))
        (sym f ∙ e') f' in
    prefix q t e g
Matches-trans p r path plain (prefix q rest e f) (exact _ e') = prefix q rest e (e' ∙ f)
Matches-trans p r path plain (exact no_star f) (prefix q' s e' f') =
    absurd (cc (ends_with-append q' star, ap (λ (x : Str). ends_with x star) (sym f ∙ e'), no_star))
Matches-trans p r path plain (exact no_star f) (exact _ e') = exact no_star (e' ∙ f)

path_is_authorized_trans :
    (p r : PathPolicy) (path : Str) (ops : List Operation)
    → IsPlain p.path
    → Paths.is_authorized p r.path r.operations ≡ true
    → Paths.is_authorized r path ops ≡ true
    → Paths.is_authorized p path ops ≡ true
path_is_authorized_trans p r path ops plain h k =
    let (m, o) = (path_is_authorized_iff p r.path r.operations).0 h in
    let (m', o') = (path_is_authorized_iff r path ops).0 k in
    (path_is_authorized_iff p path ops).1
      (Matches-trans p.path r.path path plain m m', λ op i. o op (o' op i))

abbrev pub any_authorizes : List Policy → Str → List Operation → Bool
any_authorizes policies path ops = any (λ policy. Policy.is_authorized policy path ops) policies

abbrev pub PlainPaths : List Policy → Type 0
PlainPaths = All (λ policy. All (λ p. IsPlain p.path) policy.paths)

any_authorizes_trans :
    (policies : List Policy) (r : PathPolicy) (path : Str) (ops : List Operation)
    → PlainPaths policies
    → any_authorizes policies r.path r.operations ≡ true
    → Paths.is_authorized r path ops ≡ true
    → any_authorizes policies path ops ≡ true
unfolding Policy.is_authorized
any_authorizes_trans policies r path ops plain h k =
    let (policy, m, e) = any-In _ policies h in
    let (p, m', e') = any-In _ policy.paths e in
    In-any _ policies policy m (
      In-any _ policy.paths p m' (
        path_is_authorized_trans p r path ops
          (All-In _ policy.paths p (All-In _ policies policy plain m) m') e' k))

-- If a batch of derived policies passes against `policies`, in which no pattern ends in two stars,
-- then whatever a derived policy with a name of its own authorises, one of `policies` authorises.
pub batch_is_authorized_sound :
    (policies derived : List Policy) (d : Policy) (path : Str) (ops : List Operation)
    → PlainPaths policies
    → batch_is_authorized policies derived ≡ true
    → In d derived
    → any (λ p2. str_eq p2.name d.name) policies ≡ false
    → Policy.is_authorized d path ops ≡ true
    → any_authorizes policies path ops ≡ true
unfolding batch_is_authorized Policy.is_authorized
batch_is_authorized_sound policies derived d path ops plain pass m fresh k =
    let (r, m', e) = any-In _ d.paths k in
    let kept =
      In-select (λ p. not (any (λ p2. str_eq p2.name p.name) policies)) derived d m (rw fresh) in
    any_authorizes_trans policies r path ops plain (all-In _ d.paths r (all-In _ _ d pass kept) m')
      e

abbrev pub one_rule : Str → Str → Operation → Str → Policy
one_rule name path op ns = record {
  name = name;
  paths = record { path = path; operations = op ∷ [] } ∷ [];
  namespace_id = ns;
}

one_rule_iff :
    (name path ns x : Str) (op : Operation)
    → (Policy.is_authorized (one_rule name path op ns) x (op ∷ []) ≡ true) ↔ Matches path x
unfolding Policy.is_authorized
one_rule_iff name path ns x op =
    let rule : PathPolicy = record { path = path; operations = op ∷ [] } in
    (
      λ h. ((path_is_authorized_iff rule x (op ∷ [])).0 (ground arith)).0,
      λ m. let h = (path_is_authorized_iff rule x (op ∷ [])).1 (m, λ o i. i) in ground arith,
    )

not-Matches_two_stars : (p : Str) → ¬ Matches (p ++ star ∷ star ∷ []) p
not-Matches_two_stars p (prefix q r e f) = omega (
  arith,
  ap length e,
  ap length f,
  length-append p (star ∷ star ∷ []),
  length-append q (star ∷ []),
  length-append q r,
)
not-Matches_two_stars p (exact no_star e) =
    omega (arith, ap length e, length-append p (star ∷ star ∷ []))

-- Held against a policy for `p**`, a policy for `p*` under a new name passes, and it authorises
-- the path `p`, which the first policy does not.
pub batch_is_authorized_two_stars :
    (p name name' ns : Str) (op : Operation)
    → str_eq name name' ≡ false
    → let wide : Policy = one_rule name (p ++ star ∷ star ∷ []) op ns in
      let derived : Policy = one_rule name' (p ++ star ∷ []) op ns in
      (batch_is_authorized (wide ∷ []) (derived ∷ []) ≡ true)
      × (Policy.is_authorized derived p (op ∷ []) ≡ true)
      × (Policy.is_authorized wide p (op ∷ []) ≡ false)
unfolding batch_is_authorized
batch_is_authorized_two_stars p name name' ns op fresh = (
  ground (
    arith,
    (one_rule_iff name (p ++ star ∷ star ∷ []) ns (p ++ star ∷ []) op).1 (
        prefix (p ++ star ∷ []) [] (sym (append_assoc p (star ∷ []) (star ∷ [])))
          (sym (append-nil_text _))),
  ),
  (one_rule_iff name' (p ++ star ∷ []) ns p op).1 (prefix p [] refl (sym (append-nil_text p))),
  elim (Bool-cases
      (Policy.is_authorized (one_rule name (p ++ star ∷ star ∷ []) op ns) p (op ∷ []))) [
        | inl yes_it_is ↦ absurd (
            not-Matches_two_stars p
              ((one_rule_iff name (p ++ star ∷ star ∷ []) ns p op).0 yes_it_is))
        | inr denied ↦ denied
      ],
)
