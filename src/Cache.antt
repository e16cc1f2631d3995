-- ===== src/Cache.antt =====
-- The interfaces of cache.go: what the client and the server ask of a cache. `W` is the state of the
-- world behind it; every call may fail.
pub mod Keys
pub mod Redis
pub mod RedisCache
pub mod Lru
use quotacontrol.Prelude.{ℕ, Bool, Option}
use quotacontrol.Prelude.Int.{ℤ}
use quotacontrol.Prelude.Text.{Text}
use quotacontrol.Exec.{Exec}
use quotacontrol.Proto.Errors.{Error}
use quotacontrol.Proto.Types.{AccessQuota, UserPermission, ResourceAccess}

pub record QuotaCache (W : Type 0) : Type 0 where
  pub get_project_quota : ℕ → Exec W AccessQuota
  pub set_project_quota : AccessQuota → Exec W (Unit {0})
  pub delete_project_quota : ℕ → Exec W (Unit {0})
  pub get_access_quota : Text → Exec W AccessQuota
  pub set_access_quota : AccessQuota → Exec W (Unit {0})
  pub delete_access_quota : Text → Exec W (Unit {0})

pub record UsageCache (W : Type 0) : Type 0 where
  pub set_usage : Text → ℤ → Exec W (Unit {0})
  pub clear_usage : Text → Exec W Bool
  pub peek_usage : Text → Exec W ℤ
  pub spend_usage : Text → ℤ → ℤ → Exec W (ℤ × Option Error)

pub record PermissionCache (W : Type 0) : Type 0 where
  pub get_user_permission :
      ℕ → Text → Exec W (UserPermission × Option ResourceAccess × Option Error)
  pub set_user_permission : ℕ → Text → UserPermission → Option ResourceAccess → Exec W (Unit {0})
  pub delete_user_permission : ℕ → Text → Exec W (Unit {0})

-- `Cache` of server.go, a struct of the three.
pub record Cache (W : Type 0) : Type 0 where
  pub quota : QuotaCache W
  pub usage : UsageCache W
  pub permission : PermissionCache W
