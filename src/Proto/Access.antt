-- ===== src/Proto/Access.antt =====
-- The checks of proto/proto.go on access keys, chains and permissions.
pub mod Meaning
use quotacontrol.Prelude.{
  ℕ, Bool, true, false, not, ◌||◌, Option, none, some, List, [], ◌∷◌, ◌==◌, nat_eq, is_empty,
  filter, contains, leb, if◌then◌else◌,
}
use quotacontrol.Prelude.Text.{Text}
use quotacontrol.Proto.Errors.{Error, plain}
use quotacontrol.Proto.Types.{Service, AccessKey, AccessQuota, ProjectInfo, UserPermission, rank}

-- `match_any` is `Origins.MatchAny` of the validation package.
unfoldable pub validate_origin : (List Text → Text → Bool) → AccessKey → Text → Bool
validate_origin match_any a raw_origin =
    if is_empty raw_origin then not a.require_origin else match_any a.allowed_origins raw_origin

-- The loop of `ValidateService`.
pub service_listed : List Service → Service → Bool
service_listed [] service = false
service_listed (s ∷ rest) service = service == s || service_listed rest service

unfoldable pub validate_service : AccessKey → Service → Bool
unfolding service_listed
validate_service a service =
    if is_empty a.allowed_services then true else service_listed a.allowed_services service

-- `none` is the nil error.
unfoldable pub validate_chains : ProjectInfo → List ℕ → Option Error
validate_chains i chain_ids =
    if is_empty i.chain_ids
    then none
    else if is_empty (filter (λ id. not (contains i.chain_ids id)) chain_ids)
    then none
    else some (plain "invalid chain IDs")

unfoldable pub can_access : Option UserPermission → UserPermission → Bool
can_access none perm = false
can_access (some u) perm = leb (rank perm) (rank u)

unfoldable pub is_active : AccessQuota → Bool
is_active q = elim q.limit [
  | none ↦ false
  | some l ↦ elim q.access_key [ none ↦ false | some k ↦ k.active ]
]

unfoldable pub is_jwt : AccessQuota → Bool
is_jwt q = elim q.access_key [ none ↦ false | some k ↦ is_empty k.access_key ]

unfoldable pub is_default : AccessQuota → Bool
is_default q = elim q.limit [
  | none ↦ false
  | some l ↦ elim q.access_key [ none ↦ false | some k ↦ k.is_default ]
]

unfoldable pub get_project_id : AccessQuota → ℕ
get_project_id q = elim q.access_key [ none ↦ 0 | some k ↦ k.project_id ]
