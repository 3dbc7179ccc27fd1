-- ===== src/System/Entities/Attached.antt =====
-- covert-server/src/system/entity.rs, `handle_attach_entity_policy`: what it leaves in the tables.
use covert.Prelude.{
  ◌≤◌, ◌≡◌, refl, sym, ap, ◌∙◌, subst, Bool, true, false, List, [], ◌∷◌, some, Str, any, length,
  select, Result, ok, err, ok_or, ok_or-ok, arith, inl, inr, Bool-cases, Option-cases, In, here,
  there, In-any, first-In, select-In, ◌==◌, suc,
}
use covert.Prelude.Exec.{bind-ok, ◌>>=◌}
use covert.Server.Tables.{Tables, Namespace, Error, not_found, internal_error}
use covert.Policy.{Policy}
use covert.Policies.{is_policy, batch_lookup, lookup}
use covert.Entity
use covert.Entity.{EntityWithPolicyAndAlias, is_entity, is_link, attach_policy}
use covert.Entity.Links.{attach_policy-link, attach_policy-rest, attach_policy-keeps}
use covert.System.Entities.{attach_policies, lookup_entity, handle_attach_entity_policy}

batch_lookup_shorter :
    (names : List Str) (id : Str) (ps : List Policy)
    → length (batch_lookup names id ps) ≤ length names
unfolding batch_lookup
batch_lookup_shorter [] id ps = omega arith
batch_lookup_shorter (n ∷ names) id ps = elim (Option-cases (lookup n id ps)) [
  | inl e ↦ rw (e, batch_lookup) (omega (arith, batch_lookup_shorter names id ps))
  | inr (p, e) ↦ rw (e, batch_lookup) (omega (arith, batch_lookup_shorter names id ps))
]

lookup-any :
    (n id : Str) (ps : List Policy) (p : Policy)
    → lookup n id ps ≡ some p
    → any (is_policy n id) ps ≡ true
unfolding lookup
lookup-any n id ps p h =
    let (i, e) = select-In (is_policy n id) ps p (first-In (select (is_policy n id) ps) p h) in
    In-any (is_policy n id) ps p i e

-- Where as many policies are found as are named, each is there.
batch_lookup-all :
    (names : List Str) (id : Str) (ps : List Policy) (n : Str)
    → length (batch_lookup names id ps) ≡ length names
    → In n names
    → any (is_policy n id) ps ≡ true
unfolding batch_lookup
batch_lookup-all [] id ps n h i = elim i [ ]
batch_lookup-all (m ∷ names) id ps n h i = elim (Option-cases (lookup m id ps)) [
  | inl e ↦
      let short : length (batch_lookup names id ps) ≡ suc (length names) =
        rw (e, batch_lookup) at h in
      absurd (omega (arith, batch_lookup_shorter names id ps, short))
  | inr (p, e) ↦
      let rest : suc (length (batch_lookup names id ps)) ≡ suc (length names) =
        rw (e, batch_lookup) at h in
      among m names id ps n p e i (λ j. batch_lookup-all names id ps n (omega (arith, rest)) j)
]
  where
    among :
        (m : Str) (names : List Str) (id : Str) (ps : List Policy) (n : Str) (p : Policy)
        → lookup m id ps ≡ some p
        → In n (m ∷ names)
        → (In n names → any (is_policy n id) ps ≡ true)
        → any (is_policy n id) ps ≡ true
    among m names id ps n p e (here same) k =
        lookup-any n id ps p (ap (λ x. lookup x id ps) same ∙ e)
    among m names id ps n p e (there j) k = k j

module _ (name id : Str) where
  abbrev IsLinked : Str → Tables → Type 0
  IsLinked policy t = any (is_link name policy id) t.entity_policies ≡ true

  attach_policies-keeps :
      (policies : List Str) (t : Tables) (policy : Str)
      → IsLinked policy t
      → IsLinked policy (attach_policies name policies id t).1
  unfolding attach_policies ◌>>=◌
  attach_policies-keeps [] t policy h = h
  attach_policies-keeps (p ∷ policies) t policy h =
      attach_policies-keeps policies (attach_policy name p id t).1 policy
        (attach_policy-keeps name p id t (is_link name policy id) h)

  attach_policies-ok :
      (policies : List Str) (t : Tables)
      → attach_policies name policies id t ≡ (ok tt, (attach_policies name policies id t).1)
  unfolding attach_policies ◌>>=◌
  attach_policies-ok [] t = refl
  attach_policies-ok (p ∷ policies) t = attach_policies-ok policies (attach_policy name p id t).1

  attach_policies-entities :
      (policies : List Str) (t : Tables)
      → (attach_policies name policies id t).1.entities ≡ t.entities
  unfolding attach_policies ◌>>=◌
  attach_policies-entities [] t = refl
  attach_policies-entities (p ∷ policies) t =
      attach_policies-entities policies (attach_policy name p id t).1
      ∙ (attach_policy-rest name p id t).1

  attach_policies-IsLinked :
      (policies : List Str) (t : Tables) (policy : Str)
      → any (is_entity name id) t.entities ≡ true
      → ((p : Str) → In p policies → any (is_policy p id) t.policies ≡ true)
      → In policy policies
      → IsLinked policy (attach_policies name policies id t).1
  unfolding attach_policies ◌>>=◌
  attach_policies-IsLinked [] t policy h k i = elim i [ ]
  attach_policies-IsLinked (p ∷ policies) t policy h k (here e) =
      attach_policies-keeps policies (attach_policy name p id t).1 policy (
        subst (λ x. IsLinked x (attach_policy name p id t).1) (sym e)
          (attach_policy-link name p id t h (k p (here refl))))
  attach_policies-IsLinked (p ∷ policies) t policy h k (there i) =
      let (same, entities) = attach_policy-rest name p id t in
      attach_policies-IsLinked policies (attach_policy name p id t).1 policy
        (ap (any (is_entity name id)) entities ∙ h)
        (λ q j. ap (any (is_policy q id)) same ∙ k q (there j)) i

select_none {ℓ} : {A : Type ℓ} (p : A → Bool) (xs : List A) → any p xs ≡ false → select p xs ≡ []
select_none p [] h = refl
select_none p (x ∷ xs) h =
    let miss : p x ≡ false = ground (arith, h) in rw miss (select_none p xs (ground (arith, h)))

lookup-entity :
    (null name id : Str) (t : Tables) (e : EntityWithPolicyAndAlias)
    → Entity.lookup null name id t ≡ some e
    → any (is_entity name id) t.entities ≡ true
unfolding Entity.lookup
lookup-entity null name id t e h = elim (Bool-cases (any (is_entity name id) t.entities)) [
  | inl k ↦ k
  | inr k ↦
      absurd (ground (arith, rw (select_none (is_entity name id) t.entities k, Entity.lookup) at h))
]

module _ (null name : Str) (policy_names : List Str) (ns : Namespace) (t : Tables) where
  -- What an answer, or a name that is not found, means for the tables.
  abbrev pub IsAttached : Result Error EntityWithPolicyAndAlias × Tables → Type 0
  IsAttached r =
      ((e : EntityWithPolicyAndAlias) (p : Str)
        → r.0 ≡ ok e
        → In p policy_names
        → any (is_link name p ns.id) r.1.entity_policies ≡ true)
      × ((p : Str)
          → In p policy_names
          → any (is_policy p ns.id) t.policies ≡ false
          → r ≡ (err not_found, t))

  -- the tables after the loop
  abbrev attached : Tables
  attached = (attach_policies name policy_names ns.id t).1

  all_found :
      (length (batch_lookup policy_names ns.id t.policies) == length policy_names) ≡ true
      → (p : Str) → In p policy_names
      → any (is_policy p ns.id) t.policies ≡ true
  all_found h p i = batch_lookup-all policy_names ns.id t.policies p (ground (arith, h)) i

  answered :
      (length (batch_lookup policy_names ns.id t.policies) == length policy_names) ≡ true
      → handle_attach_entity_policy null name policy_names ns t
        ≡ (ok_or (Entity.lookup null name ns.id attached) internal_error, attached)
  unfolding handle_attach_entity_policy lookup_entity ◌>>=◌
  answered h = rw h (
      bind-ok (attach_policies name policy_names ns.id) (λ _. lookup_entity null name ns.id) t
        attached tt (attach_policies-ok name ns.id policy_names t))

  -- When an attachment of policies is answered, the entity has each policy that was named; where a
  -- named policy is not in the table, it is refused as not found and nothing has changed.
  pub handle_attach_entity_policy-IsAttached :
      IsAttached (handle_attach_entity_policy null name policy_names ns t)
  unfolding handle_attach_entity_policy lookup_entity ◌>>=◌
  handle_attach_entity_policy-IsAttached =
      elim (Bool-cases
        (length (batch_lookup policy_names ns.id t.policies) == length policy_names)) [
          | inr h ↦ rw h (λ e p r i. absurd (ground (arith, r)), λ p i m. refl)
          | inl h ↦ subst IsAttached (sym (answered h)) (
            λ e p r i.
                let there_is =
                  lookup-entity null name ns.id attached e
                    (ok_or-ok (Entity.lookup null name ns.id attached) internal_error e r) in
                attach_policies-IsLinked name ns.id policy_names t p
                  (ap (any (is_entity name ns.id))
                      (sym (attach_policies-entities name ns.id policy_names t))
                    ∙ there_is)
                  (all_found h) i,
            λ p i m. absurd (ground (arith, m, all_found h p i)),
          )
        ]
