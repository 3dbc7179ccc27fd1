-- ===== src/System/Mounted.antt =====
-- covert-server/src/system/mount.rs: which mounts the table holds.
use covert.Prelude.{
  ◌≡◌, refl, ap, sym, ◌∙◌, Bool, true, false, List, [], ◌∷◌, Str, any, All, ◌⊎◌, inl, inr, arith,
  Bool-cases, Option-cases, Result-cases, ok, err, none, ◌||◌, not, str_eq, str_eq_refl,
  eq_of_str_eq, if◌then◌else◌, delete, In-any, any-In, In-delete,
}
use covert.Prelude.Exec.{◌>>=◌}
use covert.Server.Tables.{
  Tables, MountEntry, Error, storage, unique_constraint_violation, foreign_key_violation,
}
use covert.Mount
use covert.Mount.{is_prefix, config_in_table, longest_prefix}
use covert.Mount.Prefix.{longest_prefix-none}
use covert.Router
use covert.System.{
  Context, Backends, is_system, is_auth_backend, is_auth_path, is_system_path, mount_route_entry,
  mount_entry, mount,
}

abbrev stored : MountEntry → MountEntry
stored m = record m { config = config_in_table m.config }

create-rows :
    (m : MountEntry) (t : Tables)
    → ((e : Error) × (Mount.create m t ≡ (err e, t)))
      ⊎ (Mount.create m t ≡ (ok tt, record t { mounts = stored m ∷ t.mounts }))
unfolding Mount.create
create-rows m t = elim (Bool-cases (not (Mount.is_valid_path m.path))) [
  | inl e ↦ inl (storage, rw e refl)
  | inr e ↦
      elim (Bool-cases
        (any (λ n. str_eq n.id m.id || Mount.is_mount m.path m.namespace_id n) t.mounts)) [
          | inl k ↦ inl (
            if any (λ n. str_eq n.id m.id) t.mounts then unique_constraint_violation else storage,
            rw (e, k) refl,
          )
          | inr k ↦ elim (Bool-cases (not (any (λ ns. str_eq ns.id m.namespace_id) t.namespaces))) [
            | inl f ↦ inl (foreign_key_violation, rw (e, k, f) refl)
            | inr f ↦ inr (rw (e, k, f) refl)
          ]
        ]
]

module _ {B : Type 0} (backends : Backends B) where
  -- what mounting does to the tables and to the router's lookup
  data Outcome (s : Context B) (m : MountEntry) : Context B → Type 0 where
    unchanged : Outcome s m s
    registered :
        (backend : B) → Outcome s m (record s { router = Router.mount m.id backend s.router })
    mounted :
        (backend : B)
        → Outcome s m (record {
          tables = record s.tables { mounts = stored m ∷ s.tables.mounts };
          router = Router.mount m.id backend s.router;
        })

  mount_entry-Outcome : (m : MountEntry) (s : Context B) → Outcome s m (mount_entry backends m s).1
  unfolding mount_entry mount_route_entry ◌>>=◌
  mount_entry-Outcome m s = elim (Bool-cases (backends.is_uuid m.namespace_id)) [
    | inr e ↦ rw e unchanged
    | inl e ↦ elim (Result-cases (backends.new_backend m.backend_type)) [
      | inr (x, k) ↦ rw (e, k) unchanged
      | inl (b, k) ↦ elim (create-rows m s.tables) [
        | inl (x, c) ↦ rw (e, k, c) (registered b)
        | inr c ↦ elim (Result-cases (backends.migrate b m.id)) [
          | inl (u, d) ↦ rw (e, k, c, d) (mounted b)
          | inr (u, d) ↦ rw (e, k, c, d) (mounted b)
        ]
      ]
    ]
  ]

  -- A mount that may stand in the table: no system backend, nothing that overlaps with `sys/`, and
  -- under `auth/` exactly the backends that log in.
  abbrev pub IsAdmissible : MountEntry → Type 0
  IsAdmissible m =
      (is_system m.backend_type ≡ false)
      × (is_system_path m.path ≡ false)
      × (is_auth_backend m.backend_type ≡ is_auth_path m.path)

  -- no mount begins the path of a newer one in its namespace, for LIKE
  abbrev pub IsDisjoint : List MountEntry → Type 0
  IsDisjoint [] = Unit {0}
  IsDisjoint (m ∷ ms) = (any (is_prefix m.path m.namespace_id) ms ≡ false) × IsDisjoint ms

  abbrev pub is_routed : List (Str × B) → Str → Bool
  is_routed es id = any (λ e. str_eq e.0 id) es

  -- what mounting keeps
  pub record IsMounted (s : Context B) : Type 0 where
    pub admissible : All IsAdmissible s.tables.mounts
    pub disjoint : IsDisjoint s.tables.mounts
    pub routed : All (λ m. is_routed s.router m.id ≡ true) s.tables.mounts

  mount-is_routed :
      (id other : Str) (b : B) (es : List (Str × B))
      → is_routed es other ≡ true
      → is_routed (Router.mount id b es) other ≡ true
  unfolding Router.mount
  mount-is_routed id other b es h = elim (Bool-cases (str_eq id other)) [
    | inl same ↦ rw same refl
    | inr different ↦
        let (e, i, k) = any-In (λ e. str_eq e.0 other) es h in
        let kept : str_eq e.0 id ≡ false = elim (Bool-cases (str_eq e.0 id)) [
          | inl hit ↦
              let same : id ≡ other = sym (eq_of_str_eq e.0 id hit) ∙ eq_of_str_eq e.0 other k in
              absurd (ground (arith, different, sym (ap (λ x. str_eq id x) same) ∙ str_eq_refl id))
          | inr miss ↦ miss
        ] in
        rw different (
          In-any (λ e. str_eq e.0 other) (delete (λ e. str_eq e.0 id) es) e
            (In-delete (λ e. str_eq e.0 id) es e i kept) k)
  ]

  still_routed :
      (id : Str) (b : B) (es : List (Str × B)) (ms : List MountEntry)
      → All (λ m. is_routed es m.id ≡ true) ms
      → All (λ m. is_routed (Router.mount id b es) m.id ≡ true) ms
  still_routed id b es [] h = tt
  still_routed id b es (m ∷ ms) h = (mount-is_routed id m.id b es h.0, still_routed id b es ms h.1)

  Outcome-IsMounted :
      (s : Context B) (m : MountEntry) (u : Context B)
      → Outcome s m u
      → IsAdmissible m
      → any (is_prefix m.path m.namespace_id) s.tables.mounts ≡ false
      → IsMounted s
      → IsMounted u
  unfolding Router.mount
  Outcome-IsMounted s m u unchanged a f h = h
  Outcome-IsMounted s m u (registered b) a f h = record {
    admissible = h.admissible;
    disjoint = h.disjoint;
    routed = still_routed m.id b s.router s.tables.mounts h.routed;
  }
  Outcome-IsMounted s m u (mounted b) a f h = record {
    admissible = (a, h.admissible);
    disjoint = (f, h.disjoint);
    routed =
        (ground (arith, str_eq_refl m.id), still_routed m.id b s.router s.tables.mounts h.routed);
  }

  mount_entry-IsMounted :
      (m : MountEntry) (s : Context B)
      → IsAdmissible m
      → longest_prefix m.path m.namespace_id s.tables ≡ none
      → IsMounted s
      → IsMounted (mount_entry backends m s).1
  mount_entry-IsMounted m s a k h =
      Outcome-IsMounted s m (mount_entry backends m s).1 (mount_entry-Outcome m s) a
        (longest_prefix-none m.path m.namespace_id s.tables k) h

  -- Mounting, failing or not, keeps it true of the table that no mount is of the system or
  -- overlaps with `sys/`, that those under `auth/` are the ones that log in, that none is a
  -- prefix, for LIKE, of a newer one in its namespace, and that each has a backend in the router.
  pub mount-IsMounted :
      (m : MountEntry) (s : Context B) → IsMounted s → IsMounted (mount backends m s).1
  unfolding mount
  mount-IsMounted m s h = elim (Bool-cases (is_system m.backend_type)) [
    | inl e ↦ rw e h
    | inr e ↦ elim (Bool-cases (is_system_path m.path)) [
      | inl f ↦ rw (e, f) h
      | inr f ↦ elim (Option-cases (longest_prefix m.path m.namespace_id s.tables)) [
        | inr (n, k) ↦ rw (e, f, k) h
        | inl k ↦ elim (Bool-cases (is_auth_backend m.backend_type)) [
          | inl a ↦ elim (Bool-cases (is_auth_path m.path)) [
            | inl p ↦ rw (e, f, k, a, p) (mount_entry-IsMounted m s (e, f, a ∙ sym p) k h)
            | inr p ↦ rw (e, f, k, a, p) h
          ]
          | inr a ↦ elim (Bool-cases (is_auth_path m.path)) [
            | inl p ↦ rw (e, f, k, a, p) h
            | inr p ↦ rw (e, f, k, a, p) (mount_entry-IsMounted m s (e, f, a ∙ sym p) k h)
          ]
        ]
      ]
    ]
  ]
