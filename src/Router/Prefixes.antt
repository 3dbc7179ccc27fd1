-- ===== src/Router/Prefixes.antt =====
-- covert-server/src/router.rs: routing by the longest prefix.
use covert.Prelude.{
  ◌≤◌, ◌≡◌, refl, sym, ap, ◌∙◌, true, false, List, [], ◌∷◌, ◌++◌, some, Str, arith, select, In, All,
  All-In, length, Option-cases, inl, inr, starts_with, rest_of_starts_with, and-true, eq_of_str_eq,
  ok,
}
use covert.Server.Tables.{Tables, MountEntry, Namespace}
use covert.Ttl.{MountConfig}
use covert.Lease.Like.{IsPlain, IsFolded, like-starts_with}
use covert.Mount.{longest_prefix, is_prefix}
use covert.Mount.Prefix.{longest_prefix-some}
use covert.Router.{Request, resolve, as_seen, advance_path, drop, get, system_mount_path}

drop-append : (p r : Str) → drop (length p) (p ++ r) ≡ r
drop-append [] r = refl
drop-append (c ∷ p) r = drop-append p r

as_seen-path :
    (req : Request) (p : Str) (c : MountConfig)
    → starts_with req.path p ≡ true
    → req.path ≡ p ++ (as_seen req p c).path
unfolding advance_path
as_seen-path req p c h =
    let (r, e) = rest_of_starts_with req.path p h in
    rw (h, as_seen) (e ∙ ap (p ++◌) (sym (ap (drop (length p)) e ∙ drop-append p r)))

module _ {B : Type 0} where
  found_mount :
      (es : List (Str × B)) (req : Request) (t : Tables) (ns : Namespace) (b : B) (p : Str)
      (c : MountConfig)
      → req.ns ≡ some ns
      → starts_with req.path system_mount_path ≡ false
      → resolve es req t ≡ ok (b, p, c)
      → (m : MountEntry) × (longest_prefix req.path ns.id t ≡ some m)
        × (get m.id es ≡ some b)
        × (p ≡ m.path)
        × (c ≡ m.config)
  unfolding resolve
  found_mount es req t ns b p c hn hs h = elim (Option-cases (longest_prefix req.path ns.id t)) [
    | inl e ↦ absurd (ground (arith, rw (hn, hs, e) at h))
    | inr (m, e) ↦ elim (Option-cases (get m.id es)) [
      | inl g ↦ absurd (ground (arith, rw (hn, hs, e, g) at h))
      | inr (b', g) ↦
          let k = rw (hn, hs, e, g) at h in
          (m, e, ground (arith, k, g), ground (arith, k), ground (arith, k))
    ]
  ]

  -- Where the mounts' paths hold no wildcard or capital and the request's path no capital, a
  -- request outside `sys/` that is routed goes to a mount of its namespace whose path begins the
  -- request's, and none that is a prefix for LIKE is longer; the backend is the one registered for
  -- that mount, and sees the rest of the path.
  pub resolve-longest :
      (es : List (Str × B)) (req : Request) (t : Tables) (ns : Namespace) (b : B) (p : Str)
      (c : MountConfig)
      → All (λ m. IsPlain m.path) t.mounts
      → IsFolded req.path
      → req.ns ≡ some ns
      → starts_with req.path system_mount_path ≡ false
      → resolve es req t ≡ ok (b, p, c)
      → (m : MountEntry) × In m t.mounts
        × (m.namespace_id ≡ ns.id)
        × (p ≡ m.path)
        × (c ≡ m.config)
        × (get m.id es ≡ some b)
        × (req.path ≡ m.path ++ (as_seen req p c).path)
        × All (λ a. length a.path ≤ length m.path) (select (is_prefix req.path ns.id) t.mounts)
  resolve-longest es req t ns b p c plain folded hn hs h =
      let (m, e, g, ep, ec) = found_mount es req t ns b p c hn hs h in
      let (i, k, longest) = longest_prefix-some req.path ns.id t m e in
      let (same, l) = and-true _ _ k in
      let begins : starts_with req.path p ≡ true =
        ap (starts_with req.path) ep
        ∙ sym (
            like-starts_with m.path req.path (All-In (λ m. IsPlain m.path) t.mounts m plain i)
              folded)
        ∙ l in
      (
        m,
        i,
        eq_of_str_eq m.namespace_id ns.id same,
        ep,
        ec,
        g,
        as_seen-path req p c begins ∙ ap (λ (x : Str). x ++ (as_seen req p c).path) ep,
        longest,
      )
