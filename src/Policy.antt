-- ===== src/Policy.antt =====
-- covert-types/src/policy.rs: the policies of an access list.
pub mod Paths
pub mod Parse
pub mod Matching
pub mod Delegation
use covert.Prelude.{Bool, List, Str, not, any, all, str_eq, select}
use Paths.{Operation, PathPolicy}
use Paths

-- `Policy`
pub record Policy : Type 0 where
  pub name : Str
  pub paths : List PathPolicy
  pub namespace_id : Str

-- `Policy::is_authorized`
unfoldable pub is_authorized : Policy → Str → List Operation → Bool
is_authorized self path operations =
    any (λ path_policy. Paths.is_authorized path_policy path operations) self.paths

-- `Policy::batch_is_authorized`
unfoldable pub batch_is_authorized : List Policy → List Policy → Bool
batch_is_authorized policies derived_policies =
    all
      (λ derived_policy.
        all
          (λ derived_path.
            any (λ policy. is_authorized policy derived_path.path derived_path.operations) policies)
          derived_policy.paths)
      (select (λ p. not (any (λ p2. str_eq p2.name p.name) policies)) derived_policies)
