-- ===== src/Ttl.antt =====
-- covert-types/src/ttl.rs and mount.rs: the time to live of a lease. An instant is the number of
-- nanoseconds since the epoch, and a duration a number of nanoseconds; the range of `DateTime`,
-- past which chrono's `+` panics, is not modelled.
use covert.Prelude.{
  ℕ, ◌+◌, ◌-◌, ◌*◌, ◌≡◌, Option, none, some, arith, min, ltb, if◌then◌else◌, Result, ok, ◌>>=◌,
  ok_or, Option-cases, inl, inr,
}

-- `MountConfig`
pub record MountConfig : Type 0 where
  pub default_lease_ttl : ℕ
  pub max_lease_ttl : ℕ

abbrev second : ℕ
second = 1_000_000_000

-- `MountConfig::default`
abbrev pub default_config : MountConfig
default_config = record {
  default_lease_ttl = 60 * 30 * second;
  max_lease_ttl = 60 * 60 * 4 * second;
}

-- `chrono::Duration::from_std`: it refuses a duration that is too long for it, and keeps any other.
pub record Chrono : Type 0 where
  pub from_std : ℕ → Option ℕ
  pub from_std_keeps : (d e : ℕ) → from_std d ≡ some e → e ≡ d

-- The two error texts of `calculate_ttl`.
pub data TtlError : Type 0 where
  bad_ttl bad_max_lease_ttl : TtlError

abbrev unwrap_or : Option ℕ → ℕ → ℕ
unwrap_or none d = d
unwrap_or (some t) d = t

-- the nested tests on the two expiry times
abbrev capped : ℕ → ℕ → ℕ → ℕ
capped now max_expires_at new_expires_at =
    if ltb max_expires_at new_expires_at
    then (if ltb now max_expires_at then max_expires_at - now else 0)
    else (if ltb now new_expires_at then new_expires_at - now else 0)

capped_value : (now m d : ℕ) → capped now m (now + d) ≡ min d (m - now)
capped_value now m d = ground arith

module _ (chrono : Chrono) where
  open chrono use {from_std, from_std_keeps}

  -- `calculate_ttl`
  unfoldable pub calculate_ttl : ℕ → ℕ → MountConfig → Option ℕ → Result TtlError ℕ
  calculate_ttl now issued_at mount_config ttl = do
    ttl ← ok_or (from_std (unwrap_or ttl mount_config.default_lease_ttl)) bad_ttl
    max_lease_ttl ← ok_or (from_std mount_config.max_lease_ttl) bad_max_lease_ttl
    ok (capped now (issued_at + max_lease_ttl) (now + ttl))

  -- A time to live that is granted is the shorter of the one asked for (or the mount's default)
  -- and what is left until the lease's maximum, and 0 once that has passed.
  pub calculate_ttl_value :
      (now issued_at : ℕ) (c : MountConfig) (ttl : Option ℕ) (t : ℕ)
      → calculate_ttl now issued_at c ttl ≡ ok t
      → t ≡ min (unwrap_or ttl c.default_lease_ttl) (issued_at + c.max_lease_ttl - now)
  unfolding calculate_ttl
  calculate_ttl_value now issued_at c ttl t h =
      elim (Option-cases (from_std (unwrap_or ttl c.default_lease_ttl))) [
        | inl e ↦ absurd (ground arith)
        | inr (d, e) ↦ elim (Option-cases (from_std c.max_lease_ttl)) [
          | inl e' ↦ absurd (ground arith)
          | inr (m, e') ↦ ground (
            arith,
            from_std_keeps (unwrap_or ttl c.default_lease_ttl) d e,
            from_std_keeps c.max_lease_ttl m e',
            capped_value now (issued_at + m) d,
          )
        ]
      ]

  -- A time to live is granted wherever the duration asked for (or the mount's default) and the
  -- mount's maximum fit chrono's duration.
  calculate_ttl_total :
      (now issued_at : ℕ) (c : MountConfig) (ttl : Option ℕ) (d m : ℕ)
      → from_std (unwrap_or ttl c.default_lease_ttl) ≡ some d
      → from_std c.max_lease_ttl ≡ some m
      → (t : ℕ) × (calculate_ttl now issued_at c ttl ≡ ok t)
  unfolding calculate_ttl
  calculate_ttl_total now issued_at c ttl d m h k =
      (capped now (issued_at + m) (now + d), ground arith)
