-- ===== src/Policy/Paths.antt =====
-- covert-types/src/policy.rs and request.rs: operations, and the rule for one path.
use covert.Prelude.{
  ℕ, Bool, true, false, List, Str, not, any, all, str_eq, starts_with, ends_with, drop_last,
  if◌then◌else◌,
}

-- `Operation`
pub data Operation : Type 0 where
  create read update delete revoke renew : Operation

-- `#[derive(PartialEq)]`
abbrev pub op_eq : Operation → Operation → Bool
op_eq create create = true
op_eq read read = true
op_eq update update = true
op_eq delete delete = true
op_eq revoke revoke = true
op_eq renew renew = true
op_eq _ _ = false

-- `PathPolicy`
pub record PathPolicy : Type 0 where
  pub path : Str
  pub operations : List Operation

abbrev pub star : ℕ
star = b'*'

-- `PathPolicy::is_authorized`, whose early returns are the two tests on the path
unfoldable pub is_authorized : PathPolicy → Str → List Operation → Bool
is_authorized self path operations =
    if (if ends_with self.path star
      then not (starts_with path (drop_last self.path))
      else not (str_eq path self.path))
    then false
    else all (λ op. any (λ o. op_eq o op) self.operations) operations
