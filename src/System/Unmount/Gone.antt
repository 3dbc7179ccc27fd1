-- ===== src/System/Unmount/Gone.antt =====
-- covert-server/src/system/mount.rs: what is left of a mount that was removed.
use covert.Prelude.{
  ◌≡◌, refl, sym, ap, ◌∙◌, Bool, true, false, List, [], ◌∷◌, some, Str, any, select, delete, str_eq,
  if◌then◌else◌, ok, err, ok_or, ok_or-ok, arith, inl, inr, Bool-cases, In, first-In, any-delete,
  subst, select-In, In-any, In-delete,
}
use covert.Prelude.Exec.{Exec, Yields-bind, Yields-query, Yields-pure}
use covert.Server.Tables.{
  Tables, MountEntry, LeaseEntry, Error, internal_error, invalid_mount_type, mount_not_found,
}
use covert.Mount.{is_mount, has_lease, get_by_path, remove_by_path}
use covert.Router
use covert.Router.{Request}
use covert.Expiration.Revocation.{revoke_each, revoke_leases_by_mount_prefix, revoke_lease_entry}
use covert.Expiration.Revocation.Outcome.{IsQuiet, revoke_lease_entry-places}
use covert.System.{Context, is_system}
use covert.System.Unmount.{remove_mount, revoke_leases, unroute, remove_row}

module _ {B R : Type 0} (handle_request : B → Request → Exec Tables Error R)
    (elapsed : LeaseEntry → Tables → Bool) where
  -- the tables when the leases below the path have been revoked, as far as that went
  abbrev pub revoked : Str → Str → Context B → Tables
  revoked path namespace_id s =
      (revoke_leases_by_mount_prefix handle_request elapsed s.router path namespace_id s.tables).1

module _ {B R : Type 0} (handle_request : B → Request → Exec Tables Error R)
    (elapsed : LeaseEntry → Tables → Bool) (quiet : IsQuiet handle_request) where
  revoke_each-mounts :
      (es : List (Str × B)) (les : List LeaseEntry) (t : Tables)
      → (revoke_each handle_request elapsed es les t).1.mounts ≡ t.mounts
  revoke_each-mounts es [] t = refl
  revoke_each-mounts es (le ∷ les) t =
      revoke_each-mounts es les (revoke_lease_entry handle_request elapsed es le t).1
      ∙ (revoke_lease_entry-places handle_request elapsed es quiet le t).1

  pub revoked-mounts :
      (path namespace_id : Str) (s : Context B)
      → (revoked handle_request elapsed path namespace_id s).mounts ≡ s.tables.mounts
  unfolding revoke_leases_by_mount_prefix
  revoked-mounts path namespace_id s =
      revoke_each-mounts s.router
        (covert.Expiration.list_by_mount_prefix path namespace_id s.tables) s.tables

get_by_path-In :
    (path namespace_id : Str) (t : Tables) (m : MountEntry)
    → get_by_path path namespace_id t ≡ some m
    → In m t.mounts × (is_mount path namespace_id m ≡ true)
unfolding get_by_path
get_by_path-In path namespace_id t m h =
    select-In (is_mount path namespace_id) t.mounts m
      (first-In (select (is_mount path namespace_id) t.mounts) m h)

pub get_by_path-any :
    (path namespace_id : Str) (t : Tables) (me : MountEntry)
    → get_by_path path namespace_id t ≡ some me
    → any (is_mount path namespace_id) t.mounts ≡ true
get_by_path-any path namespace_id t me h =
    let (i, e) = get_by_path-In path namespace_id t me h in
    In-any (is_mount path namespace_id) t.mounts me i e

-- No row of the mount is left, no lease of it, and every other mount.
pub record IsRemoved (path namespace_id : Str) (t u : Tables) : Type 0 where
  no_mount : any (is_mount path namespace_id) u.mounts ≡ false
  no_lease : has_lease path namespace_id u ≡ false
  others : (m : MountEntry) → In m t.mounts → is_mount path namespace_id m ≡ false → In m u.mounts

no_lease_left :
    (path namespace_id : Str) (t u : Tables) (b : Bool)
    → any (is_mount path namespace_id) t.mounts ≡ true
    → remove_by_path path namespace_id t ≡ (ok b, u)
    → has_lease path namespace_id t ≡ false
unfolding remove_by_path
no_lease_left path namespace_id t u b mounted h =
    elim (Bool-cases (has_lease path namespace_id t)) [
      | inl e ↦ absurd (ground (arith, mounted, e, ap (λ r. r.0) h))
      | inr e ↦ e
    ]

remove_by_path-IsRemoved :
    (path namespace_id : Str) (t u : Tables) (b : Bool)
    → any (is_mount path namespace_id) t.mounts ≡ true
    → remove_by_path path namespace_id t ≡ (ok b, u)
    → IsRemoved path namespace_id t u
unfolding remove_by_path
remove_by_path-IsRemoved path namespace_id t u b mounted h =
    let free = no_lease_left path namespace_id t u b mounted h in
    let after : (remove_by_path path namespace_id t).1 ≡ u = ap (λ r. r.1) h in
    let gone : IsRemoved path namespace_id t (record t {
      mounts = delete (is_mount path namespace_id) t.mounts;
      entity_aliases = (remove_by_path path namespace_id t).1.entity_aliases;
    }) =
      record {
        no_mount = any-delete (is_mount path namespace_id) t.mounts;
        no_lease = free;
        others = λ m i e. In-delete (is_mount path namespace_id) t.mounts m i e;
      } in
    subst (IsRemoved path namespace_id t) after (rw (mounted, free) (rw (mounted, free) at gone))

module _ {B R : Type 0} (is_uuid : Str → Bool) (drops : MountEntry → Bool)
    (handle_request : B → Request → Exec Tables Error R) (elapsed : LeaseEntry → Tables → Bool)
    (quiet : IsQuiet handle_request) where
  -- What the steps between the lookup and the end leave.
  steps-IsRemoved :
      (path namespace_id : Str) (s t v w : Context B) (me : MountEntry) (les : List LeaseEntry)
      (a : Unit {0}) (b : Bool)
      → get_by_path path namespace_id s.tables ≡ some me
      → revoke_leases handle_request elapsed path namespace_id s ≡ (ok les, t)
      → unroute me.id t ≡ (ok a, v)
      → remove_row path namespace_id v ≡ (ok b, w)
      → IsRemoved path namespace_id s.tables w.tables
        × (any (λ e. str_eq e.0 me.id) w.router ≡ false)
  unfolding Router.remove revoke_leases_by_mount_prefix
  steps-IsRemoved path namespace_id s t v w me les a b found e1 e2 e3 =
      let t_tables : revoked handle_request elapsed path namespace_id s ≡ t.tables =
        ap (λ r. r.1.tables) e1 in
      let v_tables : t.tables ≡ v.tables = ap (λ r. r.1.tables) e2 in
      let same : v.tables.mounts ≡ s.tables.mounts =
        ap (λ t. t.mounts) (sym (t_tables ∙ v_tables))
        ∙ revoked-mounts handle_request elapsed quiet path namespace_id s in
      let removed : remove_by_path path namespace_id v.tables ≡ (ok b, w.tables) =
        ap (λ r. (r.0, r.1.tables)) e3 in
      let done =
        remove_by_path-IsRemoved path namespace_id v.tables w.tables b
          (ap (any (is_mount path namespace_id)) same
            ∙ get_by_path-any path namespace_id s.tables me found)
          removed in
      (
        record {
          no_mount = done.no_mount;
          no_lease = done.no_lease;
          others = λ m i e. done.others m (subst (In m) (sym same) i) e;
        },
        ap (any (λ e. str_eq e.0 me.id))
              (ap (λ r. r.1.router) (sym e3) ∙ ap (λ r. r.1.router) (sym e2))
            ∙ any-delete (λ e. str_eq e.0 me.id) t.router,
      )

  -- Unmounting that succeeds has found a mount at this path; it leaves no row of it, no lease of
  -- it, no backend under its id, and every other mount as it was, as long as the backends revoke
  -- without touching the tables of leases, namespaces and mounts.
  pub remove_mount-IsRemoved :
      (path namespace_id : Str) (s u : Context B) (me : MountEntry)
      → remove_mount is_uuid drops handle_request elapsed path namespace_id s ≡ (ok me, u)
      → (get_by_path path namespace_id s.tables ≡ some me)
        × IsRemoved path namespace_id s.tables u.tables
        × (any (λ e. str_eq e.0 me.id) u.router ≡ false)
  unfolding remove_mount
  remove_mount-IsRemoved path namespace_id s u me h =
      (Yields-query
          {Q = λ m v.
            (get_by_path path namespace_id s.tables ≡ some m)
            × IsRemoved path namespace_id s.tables v.tables
            × (any (λ e. str_eq e.0 m.id) v.router ≡ false)}
          (λ s. ok_or (get_by_path path namespace_id s.tables) mount_not_found) _ s
          (λ me found.
            Yields-query (λ _. if is_system me.backend_type then err invalid_mount_type else ok tt)
              _ s
              (λ _ _.
                Yields-bind (revoke_leases handle_request elapsed path namespace_id) _ s
                  (λ revoked t e_revoked. Yields-bind (unroute me.id) _ t (λ a v e_unrouted.
                    Yields-bind (remove_row path namespace_id) _ v (λ removed w e_removed.
                      Yields-query (λ _. if is_uuid namespace_id then ok tt else err internal_error)
                        _ w
                        (λ _ _.
                          Yields-query (λ _. if drops me then ok tt else err internal_error) _ w
                            (λ _ _.
                              let found =
                                ok_or-ok (get_by_path path namespace_id s.tables) mount_not_found me
                                  found in
                              let (x, y) =
                                steps-IsRemoved path namespace_id s t v w me revoked a removed found
                                  e_revoked e_unrouted e_removed in
                              Yields-pure me w (found, x, y))))))))).at
        me u h
