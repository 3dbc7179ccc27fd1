-- ===== src/Expiration/Revocation/Retries.antt =====
-- covert-server/src/expiration_manager/mod.rs: a lease whose backend refuses to revoke it.
use covert.Prelude.{
  ℕ, zero, suc, ◌+◌, ◌<◌, ◌≡◌, refl, sym, ap, ◌∙◌, Bool, true, false, List, [], ◌∷◌, none, some,
  Str, arith, err, first, select, update, delete, if◌then◌else◌, Bool-cases, inl, inr, Result-cases,
  and-true, eq_of_str_eq,
}
use covert.Prelude.Exec.{Exec, pure, ◌>>=◌}
use covert.Router.{Request}
use covert.Server.Tables.{Tables, LeaseEntry, Error}
use covert.Lease
use covert.Lease.{is_lease, retried, delete_by_id, increment_failed_revocation_attempts}
use covert.Expiration.{revocation_max_retries, revocation_retry_timeout}
use covert.Expiration.Revocation.{
  is_last, as_revoke_error, after_send, send_lease_revoke_request, revoke_lease_entry,
  revoke_lease_entry_by_id,
}
use covert.Expiration.Revocation.Outcome.{IsQuiet, send-IsSame}

select-update :
    (p : LeaseEntry → Bool) (f : LeaseEntry → LeaseEntry) (les : List LeaseEntry) (le : LeaseEntry)
    → ((y : LeaseEntry) → p (f y) ≡ p y)
    → first (select p les) ≡ some le
    → first (select p (update p f les)) ≡ some (f le)
select-update p f [] le k h = absurd (ground (arith, h))
select-update p f (y ∷ les) le k h = elim (Bool-cases (p y)) [
  | inl e ↦ let hf : p (f y) ≡ true = k y ∙ e in rw (e, hf) (ground (arith, rw e at h))
  | inr e ↦ rw (e, e) (select-update p f les le k (rw e at h))
]

select-delete :
    (p : LeaseEntry → Bool) (les : List LeaseEntry) → first (select p (delete p les)) ≡ none
select-delete p [] = refl
select-delete p (y ∷ les) = elim (Bool-cases (p y)) [
  | inl e ↦ rw e (select-delete p les)
  | inr e ↦ rw (e, e) (select-delete p les)
]

-- the row of a lease after `n` refusals
abbrev pub refused : ℕ → LeaseEntry → LeaseEntry
refused zero le = le
refused (suc n) le = retried ((refused n le).expires_at + revocation_retry_timeout) (refused n le)

refused-attempts :
    (n : ℕ) (le : LeaseEntry)
    → (refused n le).failed_revocation_attempts ≡ le.failed_revocation_attempts + n
refused-attempts zero le = omega arith
refused-attempts (suc n) le = omega (arith, refused-attempts n le)

refused-key :
    (n : ℕ) (le : LeaseEntry)
    → ((refused n le).id ≡ le.id) × ((refused n le).namespace_id ≡ le.namespace_id)
refused-key zero le = (refl, refl)
refused-key (suc n) le = refused-key n le

first-select :
    (p : LeaseEntry → Bool) (les : List LeaseEntry) (le : LeaseEntry)
    → first (select p les) ≡ some le
    → p le ≡ true
first-select p [] le h = absurd (ground (arith, h))
first-select p (y ∷ les) le h = elim (Bool-cases (p y)) [
  | inl e ↦ let same : y ≡ le = ground (arith, rw e at h) in ap p (sym same) ∙ e
  | inr e ↦ first-select p les le (rw e at h)
]

lookup-key :
    (id namespace_id : Str) (t : Tables) (le : LeaseEntry)
    → Lease.lookup id namespace_id t ≡ some le
    → (le.id ≡ id) × (le.namespace_id ≡ namespace_id)
unfolding Lease.lookup
lookup-key id namespace_id t le h =
    let (a, b) = and-true _ _ (first-select (is_lease id namespace_id) t.leases le h) in
    (eq_of_str_eq le.id id a, eq_of_str_eq le.namespace_id namespace_id b)

same_lookup :
    (le : LeaseEntry) (id namespace_id : Str)
    → le.id ≡ id
    → le.namespace_id ≡ namespace_id
    → (t : Tables) → Lease.lookup le.id le.namespace_id t ≡ Lease.lookup id namespace_id t
same_lookup le id namespace_id a b t =
    ap (λ i. Lease.lookup i le.namespace_id t) a ∙ ap (λ n. Lease.lookup id n t) b

-- a refusal, by whether the attempt is the last
refusal :
    (le : LeaseEntry) (e : Error) (u : Tables)
    → Lease.lookup le.id le.namespace_id u ≡ some le
    → Lease.lookup le.id le.namespace_id (after_send le (err e) u).1
      ≡ (if is_last le then none else some (refused 1 le))
unfolding Lease.lookup after_send ◌>>=◌ delete_by_id increment_failed_revocation_attempts
refusal le e u h = elim (Bool-cases (is_last le)) [
  | inl k ↦ rw k (select-delete (is_lease le.id le.namespace_id) u.leases)
  | inr k ↦ rw k (
      select-update (is_lease le.id le.namespace_id)
        (retried (le.expires_at + revocation_retry_timeout)) u.leases le (λ y. refl) h)
]

module _ {B R : Type 0} (handle_request : B → Request → Exec Tables Error R)
    (elapsed : LeaseEntry → Tables → Bool) (backends : List (Str × B)) where
  -- The lease is revoked by its id, again and again.
  abbrev pub revoke_times : ℕ → Str → Str → Tables → Tables
  revoke_times zero id namespace_id t = t
  revoke_times (suc n) id namespace_id t =
      (revoke_lease_entry_by_id handle_request elapsed backends id namespace_id
        (revoke_times n id namespace_id t)).1

  -- Every request to revoke a lease fails.
  abbrev pub Refuses : Type 0
  Refuses =
      (le : LeaseEntry) (t : Tables)
      → (e : Error) × ((send_lease_revoke_request handle_request elapsed backends le t).0 ≡ err e)

  relabelled :
      (le : LeaseEntry) (m : Exec Tables Error (Unit {0})) (t : Tables)
      → ((as_revoke_error handle_request elapsed backends m >>= λ done. pure le) t).1 ≡ (m t).1
  unfolding ◌>>=◌
  relabelled le m t = elim (Result-cases (m t).0) [
    | inl (a, e) ↦ rw (e, as_revoke_error) refl
    | inr (e', e) ↦ rw (e, as_revoke_error) refl
  ]

  module _ (quiet : IsQuiet handle_request) (refuses : Refuses) where
    refusal_entry :
        (le : LeaseEntry) (t : Tables)
        → Lease.lookup le.id le.namespace_id t ≡ some le
        → Lease.lookup le.id le.namespace_id
            (revoke_lease_entry handle_request elapsed backends le t).1
          ≡ (if is_last le then none else some (refused 1 le))
    unfolding revoke_lease_entry Lease.lookup
    refusal_entry le t h =
        let (res, u) = send_lease_revoke_request handle_request elapsed backends le t in
        let (e, k) = refuses le t in
        let same : u.leases ≡ t.leases =
          (send-IsSame handle_request elapsed backends quiet le t).0 in
        let there : Lease.lookup le.id le.namespace_id u ≡ some le =
          ap (λ les. first (select (is_lease le.id le.namespace_id) les)) same ∙ h in
        rw k (refusal le e u there)

    by_id :
        (id namespace_id : Str) (le : LeaseEntry) (t : Tables)
        → Lease.lookup id namespace_id t ≡ some le
        → (revoke_lease_entry_by_id handle_request elapsed backends id namespace_id t).1
          ≡ (revoke_lease_entry handle_request elapsed backends le t).1
    unfolding revoke_lease_entry_by_id ◌>>=◌
    by_id id namespace_id le t h =
        rw h (relabelled le (revoke_lease_entry handle_request elapsed backends le) t)

    refusal_step :
        (id namespace_id : Str) (le : LeaseEntry) (t : Tables)
        → Lease.lookup id namespace_id t ≡ some le
        → Lease.lookup id namespace_id
            (revoke_lease_entry_by_id handle_request elapsed backends id namespace_id t).1
          ≡ (if is_last le then none else some (refused 1 le))
    refusal_step id namespace_id le t h =
        let (a, b) = lookup-key id namespace_id t le h in
        let v = (revoke_lease_entry handle_request elapsed backends le t).1 in
        ap (Lease.lookup id namespace_id) (by_id id namespace_id le t h)
        ∙ sym (same_lookup le id namespace_id a b v)
        ∙ refusal_entry le t (same_lookup le id namespace_id a b t ∙ h)

    -- Where every request to revoke a lease fails and the backends revoke without touching the
    -- tables of leases, namespaces and mounts, a lease without a failed attempt that is revoked by its id
    -- fewer than ten times in a row is still found, each attempt counted in its row.
    revoke_times-retained :
        (n : ℕ) (id namespace_id : Str) (le : LeaseEntry) (t : Tables)
        → Lease.lookup id namespace_id t ≡ some le
        → le.failed_revocation_attempts ≡ 0
        → n < revocation_max_retries
        → Lease.lookup id namespace_id (revoke_times n id namespace_id t) ≡ some (refused n le)
    revoke_times-retained zero id namespace_id le t h fresh small = h
    revoke_times-retained (suc n) id namespace_id le t h fresh small =
        let before = revoke_times-retained n id namespace_id le t h fresh (omega arith) in
        let more : is_last (refused n le) ≡ false = ground (arith, refused-attempts n le) in
        refusal_step id namespace_id (refused n le) (revoke_times n id namespace_id t) before
        ∙ (rw more refl)

    -- Where every request to revoke a lease fails and the backends revoke without touching the
    -- tables of leases, namespaces and mounts, a lease without a failed attempt that is revoked by
    -- its id ten times in a row is gone.
    pub revoke_times-given_up :
        (id namespace_id : Str) (le : LeaseEntry) (t : Tables)
        → Lease.lookup id namespace_id t ≡ some le
        → le.failed_revocation_attempts ≡ 0
        → Lease.lookup id namespace_id (revoke_times revocation_max_retries id namespace_id t)
          ≡ none
    revoke_times-given_up id namespace_id le t h fresh =
        let before = revoke_times-retained 9 id namespace_id le t h fresh (omega arith) in
        let last : is_last (refused 9 le) ≡ true = ground (arith, refused-attempts 9 le) in
        refusal_step id namespace_id (refused 9 le) (revoke_times 9 id namespace_id t) before
        ∙ (rw last refl)
