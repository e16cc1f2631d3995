-- ===== src/Store.antt =====
-- The storage interfaces of server.go, which the embedding service implements. `W` is the state of
-- the world behind them; every call may fail.
use quotacontrol.Prelude.{ℕ, Bool, Option, List}
use quotacontrol.Prelude.Int.{ℤ}
use quotacontrol.Prelude.Text.{Text}
use quotacontrol.Time.{Time}
use quotacontrol.Exec.{Exec}
use quotacontrol.Proto.Types.{
  Service, Cycle, Limit, ProjectInfo, AccessKey, UserPermission, ResourceAccess,
}

pub record ProjectInfoStore (W : Type 0) : Type 0 where
  pub get_project_info : ℕ → Time → Exec W ProjectInfo

pub record LimitStore (W : Type 0) : Type 0 where
  pub get_access_limit : ℕ → Option Cycle → Exec W Limit

pub record AccessKeyStore (W : Type 0) : Type 0 where
  pub list_access_keys : ℕ → Option Bool → Option Service → Exec W (List AccessKey)
  pub find_access_key : Text → Exec W AccessKey
  pub insert_access_key : AccessKey → Exec W (Unit {0})
  pub update_access_key : AccessKey → Exec W AccessKey

pub record UsageStore (W : Type 0) : Type 0 where
  pub get_access_key_usage : ℕ → Text → Option Service → Time → Time → Exec W ℤ
  pub get_account_usage : ℕ → Option Service → Time → Time → Exec W ℤ
  pub insert_access_usage : ℕ → Text → Service → Time → ℤ → Exec W (Unit {0})

pub record PermissionStore (W : Type 0) : Type 0 where
  pub get_user_permission : ℕ → Text → Exec W (UserPermission × Option ResourceAccess)

-- `Store`, a struct of the five.
pub record Store (W : Type 0) : Type 0 where
  pub infos : ProjectInfoStore W
  pub limits : LimitStore W
  pub keys : AccessKeyStore W
  pub usage : UsageStore W
  pub permissions : PermissionStore W
