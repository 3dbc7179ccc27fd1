-- ===== src/System/Opening/Routes.antt =====
-- covert-server/src/router.rs and system/unseal.rs: the keys under which the router has backends.
use covert.Prelude.{
  ◌≡◌, refl, sym, ap, ◌∙◌, Bool, true, false, List, [], ◌∷◌, ◌&&◌, ◌||◌, Str, any, select, delete,
  str_eq, eq_of_str_eq, Result, ok, arith, inl, inr, Bool-cases, Option-cases, Result-cases,
}
use covert.Prelude.Exec.{bind-eq-ok}
use covert.Server.Tables.{Tables, MountEntry, BackendType, Error}
use covert.Mount
use covert.Router
use covert.Router.{system_key}
use covert.System.{Context, Backends, mount_route_entry}
use covert.System.Opening.{clear_routes, route_all}

abbrev pub has_route : {B : Type 0} → Str → List (Str × B) → Bool
has_route key es = any (λ e. str_eq e.0 key) es

only : (b : Bool) → (b || false) ≡ b
only true = refl
only false = refl

swapped : (a b c : Bool) → ((a || b) || c) ≡ (b || (a || c))
swapped true true c = refl
swapped true false c = refl
swapped false b c = refl

any-select :
    (p q : MountEntry → Bool) (ms : List MountEntry)
    → any q (select p ms) ≡ any (λ m. p m && q m) ms
any-select p q [] = refl
any-select p q (m ∷ ms) = elim (Bool-cases (p m)) [
  | inl e ↦ rw e (ap (q m ||◌) (any-select p q ms))
  | inr e ↦ rw e (any-select p q ms)
]

-- a mount of the namespace with that id
abbrev pub mounts_key : Str → Str → MountEntry → Bool
mounts_key namespace_id key m = str_eq m.namespace_id namespace_id && str_eq m.id key

module _ {B : Type 0} where
  has_route-delete :
      (id key : Str) (es : List (Str × B))
      → str_eq id key ≡ false
      → has_route key (delete (λ e. str_eq e.0 id) es) ≡ has_route key es
  has_route-delete id key [] h = refl
  has_route-delete id key (x ∷ es) h = elim (Bool-cases (str_eq x.0 id)) [
    | inl e ↦
        let other : str_eq x.0 key ≡ false = ap (λ s. str_eq s key) (eq_of_str_eq x.0 id e) ∙ h in
        rw (e, other) (has_route-delete id key es h)
    | inr e ↦ rw e (ap (str_eq x.0 key ||◌) (has_route-delete id key es h))
  ]

  has_route-mount :
      (id key : Str) (b : B) (es : List (Str × B))
      → has_route key (Router.mount id b es) ≡ (str_eq id key || has_route key es)
  unfolding Router.mount
  has_route-mount id key b es = elim (Bool-cases (str_eq id key)) [
    | inl e ↦ rw e refl
    | inr e ↦ rw e (has_route-delete id key es e)
  ]

  -- What the router has after `clear_routes` is the system's backend.
  pub clear_routes-has_route :
      (s t : Context B) (a : Unit {0})
      → clear_routes s ≡ (ok a, t)
      → (t.tables ≡ s.tables) × ((key : Str) → has_route key t.router ≡ str_eq system_key key)
  unfolding clear_routes Router.clear_mounts Router.mount_system
  clear_routes-has_route s t a h = elim (Option-cases (Router.get_system_mount s.router)) [
    | inl e ↦ absurd (ground (arith, ap (λ r. r.0) (rw (e, clear_routes) at h)))
    | inr (b, e) ↦
        let same = ap (λ r. r.1) (rw (e, clear_routes) at h) in
        (
          ap (λ c. c.tables) (sym same),
          λ key. ap (λ c. has_route key c.router) (sym same) ∙ only (str_eq system_key key),
        )
  ]

module _ {B : Type 0} (backends : Backends B) where
  route_entry-router :
      (id key : Str) (variant : BackendType) (namespace_id : Str) (s t : Context B) (b : B)
      → mount_route_entry backends id variant namespace_id s ≡ (ok b, t)
      → (t.tables ≡ s.tables) × (has_route key t.router ≡ (str_eq id key || has_route key s.router))
  unfolding mount_route_entry
  route_entry-router id key variant namespace_id s t b h =
      elim (Bool-cases (backends.is_uuid namespace_id)) [
        | inr e ↦ absurd (ground (arith, ap (λ r. r.0) (rw (e, mount_route_entry) at h)))
        | inl e ↦ elim (Result-cases (backends.new_backend variant)) [
          | inr (x, f) ↦ absurd (ground (arith, ap (λ r. r.0) (rw (e, f, mount_route_entry) at h)))
          | inl (made, f) ↦
              let same = ap (λ r. r.1) (rw (e, f, mount_route_entry) at h) in
              (
                ap (λ c. c.tables) (sym same),
                ap (λ c. has_route key c.router) (sym same) ∙ has_route-mount id key made s.router,
              )
        ]
      ]

  module _ (migrated : Result Error (Unit {0})) where
    pub route_all-router :
        (namespace_id key : Str) (ms : List MountEntry) (s t : Context B) (a : Unit {0})
        → route_all backends migrated namespace_id ms s ≡ (ok a, t)
        → (t.tables ≡ s.tables)
          × (has_route key t.router ≡ (has_route key s.router || any (λ m. str_eq m.id key) ms))
    unfolding route_all
    route_all-router namespace_id key [] s t a h = (
      ap (λ r. r.1.tables) (sym h),
      ap (λ r. has_route key r.1.router) (sym h) ∙ sym (only (has_route key s.router)),
    )
    route_all-router namespace_id key (m ∷ ms) s t a h =
        let (b, v, e1, e2) =
          bind-eq-ok (mount_route_entry backends m.id m.backend_type namespace_id) _ s t a h in
        let (x, y) = route_entry-router m.id key m.backend_type namespace_id s v b e1 in
        let (x', y') = route_all-router namespace_id key ms v t a e2 in
        (
          x' ∙ x,
          y'
              ∙ ap (◌|| any (λ m. str_eq m.id key) ms) y
              ∙ swapped (str_eq m.id key) (has_route key s.router) (any (λ m. str_eq m.id key) ms),
        )

pub any-list :
    (namespace_id key : Str) (t : Tables)
    → any (λ m. str_eq m.id key) (Mount.list namespace_id t)
      ≡ any (mounts_key namespace_id key) t.mounts
unfolding Mount.list
any-list namespace_id key t =
    any-select (λ m. str_eq m.namespace_id namespace_id) (λ m. str_eq m.id key) t.mounts
