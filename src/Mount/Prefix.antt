-- ===== src/Mount/Prefix.antt =====
-- covert-server/src/repos/mount.rs: the mount that `longest_prefix` finds for a path.
use covert.Prelude.{
  ℕ, ◌≤◌, ◌≡◌, subst, refl, true, List, [], ◌∷◌, none, some, Str, arith, ◌≢◌, In, here, there, All,
  length, select, select-In, In-select, any, any-In, false, Option-cases, Bool-cases, inl, inr, ltb,
}
use covert.Server.Tables.{Tables, MountEntry}
use covert.Mount.{longer, longest, is_prefix, longest_prefix}

longest-In : (ms : List MountEntry) (n : MountEntry) → longest ms ≡ some n → In n ms
longest-In [] n h = absurd (ground (arith, h))
longest-In (m ∷ ms) n h = elim (Option-cases (longest ms)) [
  | inl e ↦ here (ground (arith, h, e))
  | inr (k, e) ↦ elim (Bool-cases (ltb (length m.path) (length k.path))) [
    | inl b ↦ there (longest-In ms n (ground (arith, h, e, b)))
    | inr b ↦ here (ground (arith, h, e, b))
  ]
]

some_of_In : (ms : List MountEntry) (a : MountEntry) → In a ms → longest ms ≢ none
some_of_In [] a m = elim m [ ]
some_of_In (x ∷ ms) a m = λ h. absurd (ground (arith, h))

longer_le :
    (x k : MountEntry)
    → (length x.path ≤ length (longer x (some k)).path)
      × (length k.path ≤ length (longer x (some k)).path)
longer_le x k = elim (Bool-cases (ltb (length x.path) (length k.path))) [
  | inl b ↦ rw b (ground (arith, b), omega arith)
  | inr b ↦ rw b (omega arith, ground (arith, b))
]

All-weaken :
    (m n : ℕ) (ms : List MountEntry)
    → m ≤ n
    → All (λ a. length a.path ≤ m) ms
    → All (λ a. length a.path ≤ n) ms
All-weaken m n [] h k = tt
All-weaken m n (x ∷ ms) h k = (omega arith, All-weaken m n ms h k.1)

longer-max :
    (x : MountEntry) (ms : List MountEntry) (k : MountEntry)
    → All (λ a. length a.path ≤ length k.path) ms
    → All (λ a. length a.path ≤ length (longer x (some k)).path) (x ∷ ms)
longer-max x ms k h = (
  (longer_le x k).0,
  All-weaken (length k.path) (length (longer x (some k)).path) ms (longer_le x k).1 h,
)

alone :
    (x : MountEntry) (ms : List MountEntry)
    → longest ms ≡ none
    → All (λ a. length a.path ≤ length x.path) (x ∷ ms)
alone x [] e = (omega arith, tt)
alone x (y ∷ ms) e = absurd (some_of_In (y ∷ ms) y (here refl) e)

longest-max :
    (ms : List MountEntry) (n : MountEntry)
    → longest ms ≡ some n
    → All (λ a. length a.path ≤ length n.path) ms
longest-max [] n h = tt
longest-max (x ∷ ms) n h = elim (Option-cases (longest ms)) [
  | inl e ↦
      let f : x ≡ n = ground (arith, h, e) in
      subst (λ n. All (λ a. length a.path ≤ length n.path) (x ∷ ms)) f (alone x ms e)
  | inr (k, e) ↦
      let f : longer x (some k) ≡ n = ground (arith, h, e) in
      subst (λ n. All (λ a. length a.path ≤ length n.path) (x ∷ ms)) f
        (longer-max x ms k (longest-max ms k e))
]

-- The mount found for a path is a mount of the namespace whose path is a prefix of it, for LIKE,
-- and no such mount has a longer path.
pub longest_prefix-some :
    (path namespace_id : Str) (t : Tables) (m : MountEntry)
    → longest_prefix path namespace_id t ≡ some m
    → In m t.mounts
      × (is_prefix path namespace_id m ≡ true)
      × All (λ a. length a.path ≤ length m.path) (select (is_prefix path namespace_id) t.mounts)
unfolding longest_prefix
longest_prefix-some path namespace_id t m h =
    let ms = select (is_prefix path namespace_id) t.mounts in
    let (i, e) = select-In (is_prefix path namespace_id) t.mounts m (longest-In ms m h) in
    (i, e, longest-max ms m h)

-- No mount is found for a path only where no mount of the namespace is a prefix of it, for LIKE.
pub longest_prefix-none :
    (path namespace_id : Str) (t : Tables)
    → longest_prefix path namespace_id t ≡ none
    → any (is_prefix path namespace_id) t.mounts ≡ false
unfolding longest_prefix
longest_prefix-none path namespace_id t h =
    elim (Bool-cases (any (is_prefix path namespace_id) t.mounts)) [
      | inl e ↦
          let (a, i, k) = any-In (is_prefix path namespace_id) t.mounts e in
          let ms = select (is_prefix path namespace_id) t.mounts in
          absurd (some_of_In ms a (In-select (is_prefix path namespace_id) t.mounts a i k) h)
      | inr e ↦ e
    ]
