-- ===== src/Expiration/Revocation/Outcome.antt =====
-- covert-server/src/expiration_manager/mod.rs: what one revocation does to the table of leases.
use covert.Prelude.{
  ◌≡◌, ◌↔◌, ◌⊎◌, refl, sym, ap, ◌∙◌, subst, Bool, true, false, List, [], ◌∷◌, Str, arith, Result,
  ok, err, In, here, there, any, update, any-delete, In-delete, delete-In, Bool-cases, inl, inr,
  starts_with,
}
use covert.Prelude.Exec.{
  Exec, query, Keeps, Keeps-bind, Keeps-query, Keeps-pure, keeps_rules, ◌>>=◌,
}
use covert.Policy.Paths.{revoke}
use covert.Ttl.{MountConfig}
use covert.Router.{Request, resolve, as_seen, advance_path}
use covert.Router.Dispatch.{route}
use covert.Server.Tables.{Tables, LeaseEntry, Error}
use covert.Lease.{is_lease, delete_by_id, increment_failed_revocation_attempts, retried}
use covert.Expiration.Revocation.{
  is_last, with_timeout, after_send, send_lease_revoke_request, revoke_lease_entry,
}

-- The tables of leases, namespaces and mounts are the same.
abbrev pub IsSame : Tables → Tables → Type 0
IsSame t u = (u.leases ≡ t.leases) × (u.namespaces ≡ t.namespaces) × (u.mounts ≡ t.mounts)

-- The backends answer a request to revoke without touching the tables of leases, namespaces and mounts.
abbrev pub IsQuiet : {B R : Type 0} → (B → Request → Exec Tables Error R) → Type 0
IsQuiet {B} handle_request =
    (b : B) (req : Request) (t : Tables)
    → req.operation ≡ revoke
    → IsSame t (handle_request b req t).1

Keeps-timeout :
    {A : Type 0} {P : Tables → Type 0} (elapsed : Tables → Bool) (m : Exec Tables Error A)
    → Keeps P m
    → Keeps P (with_timeout elapsed m)
Keeps-timeout elapsed m k = record {
  at = λ s h. elim (Bool-cases (elapsed s)) [ inl e ↦ rw e (k.at s h) | inr e ↦ rw e (k.at s h) ];
}

In-update :
    (p : LeaseEntry → Bool) (f : LeaseEntry → LeaseEntry) (les : List LeaseEntry) (x : LeaseEntry)
    → In x les
    → p x ≡ false
    → In x (update p f les)
In-update p f [] x m h = elim m [ ]
In-update p f (y ∷ les) x (here e) h = let hy : p y ≡ false = ap p (sym e) ∙ h in rw hy (here e)
In-update p f (y ∷ les) x (there m) h = there (In-update p f les x m h)

update-In :
    (p : LeaseEntry → Bool) (f : LeaseEntry → LeaseEntry) (les : List LeaseEntry) (x : LeaseEntry)
    → ((y : LeaseEntry) → p (f y) ≡ p y)
    → In x (update p f les)
    → p x ≡ false
    → In x les
update-In p f [] x k m h = elim m [ ]
update-In p f (y ∷ les) x k m h = elim (Bool-cases (p y)) [
  | inl e ↦ past p f y les x (k y ∙ e) h (λ i. update-In p f les x k i h) (rw e at m)
  | inr e ↦ keep p f y les x (λ i. update-In p f les x k i h) (rw e at m)
]
  where
    past :
        (p : LeaseEntry → Bool) (f : LeaseEntry → LeaseEntry) (y : LeaseEntry)
        (les : List LeaseEntry) (x : LeaseEntry)
        → p (f y) ≡ true
        → p x ≡ false
        → (In x (update p f les) → In x les)
        → In x (f y ∷ update p f les)
        → In x (y ∷ les)
    past p f y les x e h g (here i) = let hy : p (f y) ≡ false = ap p (sym i) ∙ h in absurd (cc)
    past p f y les x e h g (there i) = there (g i)

    keep :
        (p : LeaseEntry → Bool) (f : LeaseEntry → LeaseEntry) (y : LeaseEntry)
        (les : List LeaseEntry) (x : LeaseEntry)
        → (In x (update p f les) → In x les)
        → In x (y ∷ update p f les)
        → In x (y ∷ les)
    keep p f y les x g (here i) = here i
    keep p f y les x g (there i) = there (g i)

after_send-other :
    (le : LeaseEntry) (res : Result Error (Unit {0})) (u : Tables) (x : LeaseEntry)
    → is_lease le.id le.namespace_id x ≡ false
    → (In x u.leases → In x (after_send le res u).1.leases)
      × (In x (after_send le res u).1.leases → In x u.leases)
unfolding after_send ◌>>=◌ delete_by_id increment_failed_revocation_attempts
after_send-other le (ok _) u x h = (
  λ m. In-delete (is_lease le.id le.namespace_id) u.leases x m h,
  λ m. (delete-In (is_lease le.id le.namespace_id) u.leases x m).0,
)
after_send-other le (err e) u x h = elim (Bool-cases (is_last le)) [
  | inl k ↦ rw k (
    λ m. In-delete (is_lease le.id le.namespace_id) u.leases x m h,
    λ m. (delete-In (is_lease le.id le.namespace_id) u.leases x m).0,
  )
  | inr k ↦ rw k (
    λ m. In-update (is_lease le.id le.namespace_id) (retried _) u.leases x m h,
    λ m. update-In (is_lease le.id le.namespace_id) (retried _) u.leases x (λ y. refl) m h,
  )
]

after_send-gone :
    (le : LeaseEntry) (res : Result Error (Unit {0})) (u : Tables)
    → (res ≡ ok tt) ⊎ (is_last le ≡ true)
    → any (is_lease le.id le.namespace_id) (after_send le res u).1.leases ≡ false
unfolding after_send ◌>>=◌ delete_by_id
after_send-gone le (ok _) u h = any-delete (is_lease le.id le.namespace_id) u.leases
after_send-gone le (err e) u (inl h) = absurd (ground (arith, h))
after_send-gone le (err e) u (inr h) = rw h (any-delete (is_lease le.id le.namespace_id) u.leases)

after_send-places :
    (le : LeaseEntry) (res : Result Error (Unit {0})) (u : Tables)
    → ((after_send le res u).1.namespaces ≡ u.namespaces)
      × ((after_send le res u).1.mounts ≡ u.mounts)
unfolding after_send ◌>>=◌ delete_by_id increment_failed_revocation_attempts
after_send-places le (ok _) u = (refl, refl)
after_send-places le (err e) u = elim (Bool-cases (is_last le)) [
  | inl k ↦ rw k (refl, refl)
  | inr k ↦ rw k (refl, refl)
]

after_send-ok :
    (le : LeaseEntry) (res : Result Error (Unit {0})) (u : Tables)
    → (after_send le res u).0 ≡ ok tt
    → res ≡ ok tt
unfolding after_send ◌>>=◌
after_send-ok le (ok _) u h = refl
after_send-ok le (err e) u h = elim (Bool-cases (is_last le)) [
  | inl k ↦ absurd (ground (arith, rw k at h))
  | inr k ↦ absurd (ground (arith, rw k at h))
]

as_seen-operation :
    (req : Request) (path : Str) (config : MountConfig)
    → (as_seen req path config).operation ≡ req.operation
unfolding advance_path
as_seen-operation req path config = elim (Bool-cases (starts_with req.path path)) [
  | inl e ↦ rw (as_seen, e) refl
  | inr e ↦ rw (as_seen, e) refl
]

module _ {B R : Type 0} (handle_request : B → Request → Exec Tables Error R)
    (elapsed : LeaseEntry → Tables → Bool) (backends : List (Str × B)) where
  pub revoke_lease_entry-gone :
      (le : LeaseEntry) (t : Tables)
      → ((revoke_lease_entry handle_request elapsed backends le t).0 ≡ ok tt) ⊎ (is_last le ≡ true)
      → any
          (is_lease le.id le.namespace_id)
          (revoke_lease_entry handle_request elapsed backends le t).1.leases
        ≡ false
  unfolding revoke_lease_entry
  revoke_lease_entry-gone le t h =
      let (res, u) = send_lease_revoke_request handle_request elapsed backends le t in
      elim h [
        | inl e ↦ after_send-gone le res u (inl (after_send-ok le res u e))
        | inr e ↦ after_send-gone le res u (inr e)
      ]

module _ {B R : Type 0} (handle_request : B → Request → Exec Tables Error R)
    (elapsed : LeaseEntry → Tables → Bool) (backends : List (Str × B))
    (quiet : IsQuiet handle_request) where
  Keeps-handle :
      (s : Tables) (b : B) (req : Request)
      → req.operation ≡ revoke
      → Keeps (IsSame s) (handle_request b req)
  Keeps-handle s b req r = record {
    at = λ t h. let (e, f, g) = quiet b req t r in (e ∙ h.0, f ∙ h.1, g ∙ h.2);
  }

  Keeps-route :
      (s : Tables) (req : Request)
      → req.operation ≡ revoke
      → Keeps (IsSame s) (route handle_request backends req)
  unfolding route
  Keeps-route s req r = Keeps-bind (query (resolve backends req)) _ (Keeps-query _) (λ found.
      Keeps-bind (handle_request found.0 (as_seen req found.1 found.2)) _
        (Keeps-handle s found.0 (as_seen req found.1 found.2)
          (as_seen-operation req found.1 found.2 ∙ r))
        (λ response. Keeps-pure _))

  Keeps-send :
      (s : Tables) (le : LeaseEntry)
      → Keeps (IsSame s) (send_lease_revoke_request handle_request elapsed backends le)
  unfolding send_lease_revoke_request
  Keeps-send s le = search (Keeps-route, Keeps-timeout, keeps_rules) depth 12

  pub send-IsSame :
      (le : LeaseEntry) (t : Tables)
      → IsSame t (send_lease_revoke_request handle_request elapsed backends le t).1
  send-IsSame le t = (Keeps-send t le).at t (refl, refl, refl)

  pub revoke_lease_entry-places :
      (le : LeaseEntry) (t : Tables)
      → let u : Tables = (revoke_lease_entry handle_request elapsed backends le t).1 in
        (u.namespaces ≡ t.namespaces) × (u.mounts ≡ t.mounts)
  unfolding revoke_lease_entry
  revoke_lease_entry-places le t =
      let (res, u) = send_lease_revoke_request handle_request elapsed backends le t in
      let (_, f, g) = send-IsSame le t in
      let (f', g') = after_send-places le res u in (f' ∙ f, g' ∙ g)

  -- Revoking a lease keeps the rows of the other leases as they are and adds none, whatever the
  -- backends answer, as long as they revoke without touching the tables of leases, namespaces and
  -- mounts.
  pub revoke_lease_entry-others :
      (le : LeaseEntry) (t : Tables) (x : LeaseEntry)
      → is_lease le.id le.namespace_id x ≡ false
      → In x t.leases ↔ In x (revoke_lease_entry handle_request elapsed backends le t).1.leases
  unfolding revoke_lease_entry
  revoke_lease_entry-others le t x h =
      let (res, u) = send_lease_revoke_request handle_request elapsed backends le t in
      let same : u.leases ≡ t.leases = (send-IsSame le t).0 in
      let (to, from) = after_send-other le res u x h in
      (λ m. to (subst (λ les. In x les) (sym same) m), λ m. subst (λ les. In x les) same (from m))
