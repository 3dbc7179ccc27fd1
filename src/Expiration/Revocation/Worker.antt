-- ===== src/Expiration/Revocation/Worker.antt =====
-- covert-server/src/expiration_manager/mod.rs: one turn of the worker's loop in `start`.
use covert.Prelude.{
  ℕ, ◌<◌, ◌≡◌, ◌↔◌, refl, ◌∙◌, Bool, true, false, List, [], ◌∷◌, Str, arith, ok, In, here, there,
  any, In-any, length, Bool-cases, inl, inr, ltb, str_eq_refl,
}
use covert.Prelude.Exec.{Exec}
use covert.Router.{Request}
use covert.Server.Tables.{Tables, LeaseEntry, Error}
use covert.Lease.{is_lease, pull}
use covert.Lease.Queue.{In-pull, pull-In}
use covert.Expiration.{revocation_worker_concurrency}
use covert.Expiration.Revocation.{revoke_lease_entry, revoke_each, work}
use covert.Expiration.Revocation.Outcome.{
  IsQuiet, revoke_lease_entry-others, revoke_lease_entry-places, revoke_lease_entry-gone,
}

-- the lease has the id and the namespace of one of the list
abbrev pub shares_id : LeaseEntry → List LeaseEntry → Bool
shares_id x les = any (λ le. is_lease le.id le.namespace_id x) les

module _ {B R : Type 0} (handle_request : B → Request → Exec Tables Error R)
    (elapsed : LeaseEntry → Tables → Bool) (backends : List (Str × B))
    (quiet : IsQuiet handle_request) where
  each-others :
      (les : List LeaseEntry) (t : Tables) (x : LeaseEntry)
      → shares_id x les ≡ false
      → In x t.leases ↔ In x (revoke_each handle_request elapsed backends les t).1.leases
  each-others [] t x h = (λ m. m, λ m. m)
  each-others (le ∷ les) t x h =
      let u = (revoke_lease_entry handle_request elapsed backends le t).1 in
      let (to, from) =
        revoke_lease_entry-others handle_request elapsed backends quiet le t x
          (ground (arith, h)) in
      let (further, back) = each-others les u x (ground (arith, h)) in
      (λ m. further (to m), λ m. from (back m))

  -- A turn of the worker leaves a lease as it is when the worker has pulled none of its id and
  -- namespace, and adds no such lease, as long as the backends revoke without touching the
  -- tables of leases, namespaces and mounts.
  pub work-others :
      (now : ℕ) (t : Tables) (x : LeaseEntry)
      → shares_id x (pull revocation_worker_concurrency now t) ≡ false
      → In x t.leases ↔ In x (work handle_request elapsed backends now t).leases
  unfolding work
  work-others now t x h = each-others (pull revocation_worker_concurrency now t) t x h

  -- Every lease of the table is revoked, as long as the namespaces and mounts stay as they are.
  abbrev pub Agrees : Tables → Type 0
  Agrees t =
      (le : LeaseEntry) (u : Tables)
      → In le t.leases
      → u.namespaces ≡ t.namespaces
      → u.mounts ≡ t.mounts
      → (revoke_lease_entry handle_request elapsed backends le u).0 ≡ ok tt

  module _ (t : Tables) (agrees : Agrees t) where
    each-In :
        (les : List LeaseEntry) (s : Tables) (x : LeaseEntry)
        → ((le : LeaseEntry) → In le les → In le t.leases)
        → s.namespaces ≡ t.namespaces
        → s.mounts ≡ t.mounts
        → In x (revoke_each handle_request elapsed backends les s).1.leases
        → In x s.leases × (shares_id x les ≡ false)
    each-In [] s x sub f g m = (m, refl)
    each-In (le ∷ les) s x sub f g m =
        let u = (revoke_lease_entry handle_request elapsed backends le s).1 in
        let done = agrees le s (sub le (here refl)) f g in
        let gone = revoke_lease_entry-gone handle_request elapsed backends le s (inl done) in
        let (f', g') = revoke_lease_entry-places handle_request elapsed backends quiet le s in
        let (i, h) = each-In les u x (λ y k. sub y (there k)) (f' ∙ f) (g' ∙ g) m in
        elim (Bool-cases (is_lease le.id le.namespace_id x)) [
          | inl e ↦
              let hit : any (is_lease le.id le.namespace_id) u.leases ≡ true =
                In-any (is_lease le.id le.namespace_id) u.leases x i e in
              absurd (ground (arith, hit, gone))
          | inr e ↦
              let (_, from) =
                revoke_lease_entry-others handle_request elapsed backends quiet le s x e in
              (from i, rw e h)
        ]

    -- Where every lease of the table is revoked when asked for, the backends revoke without
    -- touching the tables of leases, namespaces and mounts, and fewer leases have expired than the
    -- worker pulls at a time, a turn of the worker leaves no expired lease.
    pub work-revokes :
        (now : ℕ) (x : LeaseEntry)
        → length (pull revocation_worker_concurrency now t) < revocation_worker_concurrency
        → In x (work handle_request elapsed backends now t).leases
        → now < x.expires_at
    unfolding work
    work-revokes now x few m =
        let pulled = pull revocation_worker_concurrency now t in
        let sub : (le : LeaseEntry) → In le pulled → In le t.leases =
          λ le k. (pull-In revocation_worker_concurrency now t le k).0 in
        let (i, h) = each-In pulled t x sub refl refl m in
        elim (Bool-cases (ltb now x.expires_at)) [
          | inl e ↦ ground (arith, e)
          | inr e ↦ elim (In-pull revocation_worker_concurrency now t x i (ground (arith, e))) [
            | inl k ↦
                let hit : shares_id x pulled ≡ true =
                  In-any (λ le. is_lease le.id le.namespace_id x) pulled x k
                    (rw (str_eq_refl x.id, str_eq_refl x.namespace_id) refl) in
                absurd (ground (arith, hit, h))
            | inr k ↦ absurd (omega (arith, few, k.0))
          ]
        ]
