-- ===== src/Expiration/Renewal/Bounds.antt =====
-- covert-server/src/expiration_manager/mod.rs: how long a renewed lease lives.
use covert.Prelude.{
  ℕ, ◌+◌, ◌-◌, ◌≤◌, ◌≡◌, refl, ap, subst, ◌∙◌, min, max, All, [], ◌∷◌, Bool, true, List, Option,
  some, Str, arith, ok, ok_or, ok_or-ok, Result-cases, Bool-cases, inl, inr, select, update,
}
use covert.Prelude.Exec.{Exec, pure, Yields, Yields-query, Yields-bind, Yields-weaken, Yields-pure}
use covert.Ttl.{Chrono, MountConfig, calculate_ttl, calculate_ttl_value}
use covert.Router.{Request, ResponseContext}
use covert.Server.Tables.{Tables, MountEntry, LeaseEntry, Error, internal_error, mount_not_found}
use covert.Lease
use covert.Mount
use covert.Lease.{is_lease, renewed}
use covert.Expiration.Renewal.{ttl_at, after_answer, renew_lease_entry}

updated :
    (p : LeaseEntry → Bool) (f : LeaseEntry → LeaseEntry) (n : ℕ) (les : List LeaseEntry)
    → ((y : LeaseEntry) → p (f y) ≡ p y)
    → ((y : LeaseEntry) → (f y).expires_at ≡ n)
    → All (λ x. x.expires_at ≡ n) (select p (update p f les))
updated p f n [] k h = tt
updated p f n (y ∷ les) k h = elim (Bool-cases (p y)) [
  | inl e ↦ let hf : p (f y) ≡ true = k y ∙ e in rw (e, hf) (h y, updated p f n les k h)
  | inr e ↦ rw (e, e) (updated p f n les k h)
]

-- the lease that is returned and the rows of its id once it is renewed
abbrev pub IsBounded : Str → ℕ → ℕ → MountConfig → LeaseEntry → Tables → Type 0
IsBounded lease_id now2 now3 config le u =
    (le.expires_at ≤ max now3 (le.issued_at + config.max_lease_ttl + (now3 - now2)))
    × All (λ x. x.expires_at ≡ le.expires_at) (select (is_lease lease_id le.namespace_id) u.leases)

same_mount :
    (le le' : LeaseEntry) (t : Tables)
    → le'.issued_mount_path ≡ le.issued_mount_path
    → le'.namespace_id ≡ le.namespace_id
    → Mount.get_by_path le'.issued_mount_path le'.namespace_id t
      ≡ Mount.get_by_path le.issued_mount_path le.namespace_id t
same_mount le le' t a b =
    ap (λ p. Mount.get_by_path p le'.namespace_id t) a
    ∙ ap (λ n. Mount.get_by_path le.issued_mount_path n t) b

abbrev pub Renewed : Str → ℕ → ℕ → Tables → LeaseEntry → Tables → Type 0
Renewed lease_id now2 now3 t le u =
    (m : MountEntry) × (Mount.get_by_path le.issued_mount_path le.namespace_id t ≡ some m)
    × IsBounded lease_id now2 now3 m.config le u

module _ {B R : Type 0} (chrono : Chrono) (handle_request : B → Request → Exec Tables Error R)
    (backends : List (Str × B)) (to_vec : ℕ → Str → Option Str) (response_ttl : R → Option ℕ) where
  ttl_at-value :
      (now : ℕ) (le : LeaseEntry) (config : MountConfig) (asked d : ℕ)
      → ttl_at chrono handle_request backends to_vec response_ttl now le config (some asked) ≡ ok d
      → d ≡ min asked (le.issued_at + config.max_lease_ttl - now)
  ttl_at-value now le config asked d h =
      elim (Result-cases (calculate_ttl chrono now le.issued_at config (some asked))) [
        | inl (a, e) ↦
            let same : a ≡ d = ground (arith, rw e at h) in
            calculate_ttl_value chrono now le.issued_at config (some asked) d (e ∙ ap ok same)
        | inr (x, e) ↦ absurd (ground (arith, rw e at h))
      ]

  stored :
      (lease_id : Str) (le : LeaseEntry) (config : MountConfig) (now2 now3 : ℕ)
      → now2 ≤ now3
      → (asked d : ℕ) (response : R) (t u : Tables) (done : Unit {0})
      → ttl_at chrono handle_request backends to_vec response_ttl now2 le config (some asked) ≡ ok d
      → Lease.renew lease_id le.namespace_id (now3 + d) now3 t ≡ (ok done, u)
      → Yields
          (λ le' u.
            (le'.issued_mount_path ≡ le.issued_mount_path)
            × (le'.namespace_id ≡ le.namespace_id)
            × IsBounded lease_id now2 now3 config le' u)
          (pure {E = Error} (renewed (now3 + d) now3 le))
          u
  unfolding Lease.renew
  stored lease_id le config now2 now3 order asked d response t u done e k =
      Yields-pure (renewed (now3 + d) now3 le) u (
        refl,
        refl,
        (
          ground (arith, ttl_at-value now2 le config asked d e),
          subst
              (λ les.
                All (λ x. x.expires_at ≡ now3 + d) (select (is_lease lease_id le.namespace_id) les))
              (ap (λ p. p.1.leases) k)
              (updated (is_lease lease_id le.namespace_id) (renewed (now3 + d) now3) (now3 + d)
                t.leases (λ y. refl) (λ y. refl)),
        ),
      )

  answered :
      (lease_id : Str) (le : LeaseEntry) (config : MountConfig) (now2 now3 : ℕ) (response : R)
      (t : Tables)
      → now2 ≤ now3
      → Yields
          (λ le' u.
            (le'.issued_mount_path ≡ le.issued_mount_path)
            × (le'.namespace_id ≡ le.namespace_id)
            × IsBounded lease_id now2 now3 config le' u)
          (after_answer chrono handle_request backends to_vec response_ttl lease_id le config now2
            now3 response)
          t
  unfolding after_answer
  answered lease_id le config now2 now3 response t order =
      Yields-query (λ _. ok_or (response_ttl response) internal_error) _ t
        (λ asked _.
          Yields-query
            (λ _.
              ttl_at chrono handle_request backends to_vec response_ttl now2 le config (some asked))
            _ t
            (λ d e.
              Yields-bind (Lease.renew lease_id le.namespace_id (now3 + d) now3) _ t (λ done u k.
                stored lease_id le config now2 now3 order asked d response t u done e k)))

  mounted_answer :
      (lease_id : Str) (le : LeaseEntry) (now2 now3 : ℕ) (answer : R × ResponseContext)
      (t v : Tables) (mount : MountEntry)
      → now2 ≤ now3
      → ok_or (Mount.get_by_path le.issued_mount_path le.namespace_id t) mount_not_found ≡ ok mount
      → Yields
          (Renewed lease_id now2 now3 t)
          (after_answer chrono handle_request backends to_vec response_ttl lease_id le mount.config
            now2 now3 answer.0)
          v
  mounted_answer lease_id le now2 now3 answer t v mount order found =
      Yields-weaken _ _
        (λ le' u q.
          (mount, same_mount le le' t q.0 q.1 ∙ ok_or-ok _ mount_not_found mount found, q.2))
        (answered lease_id le mount.config now2 now3 answer.0 v order)

  renewal :
      (lease_id namespace_id : Str) (ttl : Option ℕ) (now1 now2 now3 : ℕ) (t : Tables)
      → now2 ≤ now3
      → Yields
          (Renewed lease_id now2 now3 t)
          (renew_lease_entry chrono handle_request backends to_vec response_ttl lease_id
            namespace_id ttl now1 now2 now3)
          t
  unfolding renew_lease_entry
  renewal lease_id namespace_id ttl now1 now2 now3 t order =
      search (Yields-query, Yields-bind, mounted_answer) depth 16

  -- Where the third reading of the clock is not before the second, a lease that is renewed is
  -- bounded by the configuration of the mount that issued it: it expires no later than its maximum
  -- and the time between those two readings, or at the last of them. The rows of its id have the
  -- same expiry.
  pub renew_lease_entry-IsBounded :
      (lease_id namespace_id : Str) (ttl : Option ℕ) (now1 now2 now3 : ℕ) (t u : Tables)
      (le : LeaseEntry)
      → now2 ≤ now3
      → renew_lease_entry chrono handle_request backends to_vec response_ttl lease_id namespace_id
          ttl now1 now2 now3 t
        ≡ (ok le, u)
      → (m : MountEntry) × (Mount.get_by_path le.issued_mount_path le.namespace_id t ≡ some m)
        × IsBounded lease_id now2 now3 m.config le u
  renew_lease_entry-IsBounded lease_id namespace_id ttl now1 now2 now3 t u le order h =
      (renewal lease_id namespace_id ttl now1 now2 now3 t order).at le u h
