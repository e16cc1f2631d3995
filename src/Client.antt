-- ===== src/Client.antt =====
-- client.go: the client of the quota control service, over its cache and the RPC client of the
-- server. Log lines are left out. The tracker of unreported usage stands beside the world `W`.
pub mod Fetch
pub mod Permission
pub mod Spend
pub mod Lifecycle
use quotacontrol.Prelude.{ℕ, Bool, true, false, Option, none, some}
use quotacontrol.Prelude.Int.{ℤ, pos}
use quotacontrol.Prelude.Text.{Text}
use quotacontrol.Time.{Time}
use quotacontrol.Exec.{Exec}
use quotacontrol.Proto.Types.{Service, EventType, AccessQuota, UserPermission, ResourceAccess}

-- What the client calls of `proto.QuotaControlClient`, the remote server.
pub record QuotaClient (W : Type 0) : Type 0 where
  pub get_project_quota : ℕ → Time → Exec W AccessQuota
  pub get_access_quota : Text → Time → Exec W AccessQuota
  pub get_usage : ℕ → Option Text → Option Service → Option Time → Option Time → Exec W ℤ
  pub get_user_permission : ℕ → Text → Exec W (UserPermission × Option ResourceAccess)
  pub notify_event : ℕ → Service → EventType → Exec W Bool

-- What authcontrol has put into the context of a request.
pub record RequestContext : Type 0 where
  pub session : ℕ
  pub account : Option Text
  pub access_key : Option Text
  pub project_id : Option ℕ
  pub service : Option Text

-- The numbers of three session types of authcontrol.
pub record Sessions : Type 0 where
  pub admin : ℕ
  pub project : ℕ
  pub access_key : ℕ

-- `GetDefaultUsage`
unfoldable pub get_default_usage : Option ℤ → ℤ
get_default_usage none = pos 1
get_default_usage (some n) = n
