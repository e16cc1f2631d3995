-- ===== src/Rpc/Client.antt =====
-- The RPC client of proto/quotacontrol.gen.go: a method for each of the server's.
use quotacontrol.Prelude.{ℕ, Bool, Option, none, List, [], ◌++◌}
use quotacontrol.Prelude.Int.{ℤ}
use quotacontrol.Prelude.Text.{Text, text_eq, codes}
use quotacontrol.Prelude.Assoc.{Assoc}
use quotacontrol.Time.{Time}
use quotacontrol.Proto.Types.{
  Service, EventType, Cycle, AccessKey, AccessUsage, AccessQuota, ProjectStatus, UserPermission,
  unauthorized, ResourceAccess,
}
use quotacontrol.Rpc.{Call, CallBeside, QuotaControl, Codecs, path_prefix}
use quotacontrol.Rpc.Http.{HttpClient, call_json, call_beside}

module _ {W B : Type 0} (client : HttpClient W B) (codecs : Codecs B) (base : Text) where
  -- `urlBase(addr) + QuotaControlPathPrefix`, and a method's name. `base` is the former.
  abbrev pub url : Text → Text
  url name = base ++ (path_prefix ++ name)

  unfoldable pub remote_ping : Call W (Unit {0}) Text
  unfolding call_json
  remote_ping = call_json client codecs.ping (url (codes "Ping"))

  unfoldable pub remote_get_project_status : Call W ℕ ProjectStatus
  unfolding call_json
  remote_get_project_status =
      call_json client codecs.get_project_status (url (codes "GetProjectStatus"))

  unfoldable pub remote_get_access_key : Call W Text AccessKey
  unfolding call_json
  remote_get_access_key = call_json client codecs.get_access_key (url (codes "GetAccessKey"))

  unfoldable pub remote_create_access_key :
      Call W (ℕ × Text × Bool × List Text × List Service) AccessKey
  unfolding call_json
  remote_create_access_key =
      call_json client codecs.create_access_key (url (codes "CreateAccessKey"))

  unfoldable pub remote_update_access_key :
      Call W
        (Text × Option Text × Option Bool × Option (List Text) × Option (List Service))
        AccessKey
  unfolding call_json
  remote_update_access_key =
      call_json client codecs.update_access_key (url (codes "UpdateAccessKey"))

  unfoldable pub remote_list_access_keys :
      Call W (ℕ × Option Bool × Option Service) (List AccessKey)
  unfolding call_json
  remote_list_access_keys = call_json client codecs.list_access_keys (url (codes "ListAccessKeys"))

  unfoldable pub remote_rotate_access_key : Call W Text AccessKey
  unfolding call_json
  remote_rotate_access_key =
      call_json client codecs.rotate_access_key (url (codes "RotateAccessKey"))

  unfoldable pub remote_disable_access_key : Call W Text Bool
  unfolding call_json
  remote_disable_access_key =
      call_json client codecs.disable_access_key (url (codes "DisableAccessKey"))

  unfoldable pub remote_get_default_access_key : Call W ℕ AccessKey
  unfolding call_json
  remote_get_default_access_key =
      call_json client codecs.get_default_access_key (url (codes "GetDefaultAccessKey"))

  unfoldable pub remote_set_default_access_key : Call W (ℕ × Text) Bool
  unfolding call_json
  remote_set_default_access_key =
      call_json client codecs.set_default_access_key (url (codes "SetDefaultAccessKey"))

  unfoldable pub remote_get_project_quota : Call W (ℕ × Time) AccessQuota
  unfolding call_json
  remote_get_project_quota =
      call_json client codecs.get_project_quota (url (codes "GetProjectQuota"))

  unfoldable pub remote_get_access_quota : Call W (Text × Time) AccessQuota
  unfolding call_json
  remote_get_access_quota = call_json client codecs.get_access_quota (url (codes "GetAccessQuota"))

  unfoldable pub remote_clear_access_quota_cache : Call W ℕ Bool
  unfolding call_json
  remote_clear_access_quota_cache =
      call_json client codecs.clear_access_quota_cache (url (codes "ClearAccessQuotaCache"))

  unfoldable pub remote_get_usage :
      Call W (ℕ × Option Text × Option Service × Option Time × Option Time) ℤ
  unfolding call_json
  remote_get_usage = call_json client codecs.get_usage (url (codes "GetUsage"))

  unfoldable pub remote_clear_usage : Call W (ℕ × Option Service × Time) Bool
  unfolding call_json
  remote_clear_usage = call_json client codecs.clear_usage (url (codes "ClearUsage"))

  unfoldable pub remote_sync_project_usage :
      CallBeside W (Service × Time × Assoc ℕ ℤ) (Assoc ℕ Bool)
  unfolding call_beside
  remote_sync_project_usage =
      call_beside client codecs.sync_project_usage (url (codes "SyncProjectUsage")) []

  unfoldable pub remote_sync_access_key_usage :
      CallBeside W (Service × Time × Assoc Text ℤ) (Assoc Text Bool)
  unfolding call_beside
  remote_sync_access_key_usage =
      call_beside client codecs.sync_access_key_usage (url (codes "SyncAccessKeyUsage")) []

  unfoldable pub remote_notify_event : Call W (ℕ × Service × EventType) Bool
  unfolding call_json
  remote_notify_event = call_json client codecs.notify_event (url (codes "NotifyEvent"))

  unfoldable pub remote_get_user_permission :
      CallBeside W (ℕ × Text) (UserPermission × Option ResourceAccess)
  unfolding call_beside
  remote_get_user_permission =
      call_beside client codecs.get_user_permission (url (codes "GetUserPermission"))
        (unauthorized, none)

  unfoldable pub remote_get_account_usage :
      Call W (ℕ × Option Service × Option Time × Option Time) AccessUsage
  unfolding call_json
  remote_get_account_usage =
      call_json client codecs.get_account_usage (url (codes "GetAccountUsage"))

  unfoldable pub remote_get_access_key_usage :
      Call W (Text × Option Service × Option Time × Option Time) AccessUsage
  unfolding call_json
  remote_get_access_key_usage =
      call_json client codecs.get_access_key_usage (url (codes "GetAccessKeyUsage"))

  unfoldable pub remote_get_async_usage :
      Call W (ℕ × Option Service × Option Time × Option Time) AccessUsage
  unfolding call_json
  remote_get_async_usage = call_json client codecs.get_async_usage (url (codes "GetAsyncUsage"))

  unfoldable pub remote_update_project_usage :
      CallBeside W (Service × Time × Assoc ℕ AccessUsage) (Assoc ℕ Bool)
  unfolding call_beside
  remote_update_project_usage =
      call_beside client codecs.update_project_usage (url (codes "UpdateProjectUsage")) []

  unfoldable pub remote_update_key_usage :
      CallBeside W (Service × Time × Assoc Text AccessUsage) (Assoc Text Bool)
  unfolding call_beside
  remote_update_key_usage =
      call_beside client codecs.update_key_usage (url (codes "UpdateKeyUsage")) []

  unfoldable pub remote_prepare_usage : Call W (ℕ × Option Service × Option Cycle × Time) Bool
  unfolding call_json
  remote_prepare_usage = call_json client codecs.prepare_usage (url (codes "PrepareUsage"))

  abbrev pub remote : QuotaControl W
  remote = record {
    ping = remote_ping;
    get_project_status = remote_get_project_status;
    get_access_key = remote_get_access_key;
    create_access_key = remote_create_access_key;
    update_access_key = remote_update_access_key;
    list_access_keys = remote_list_access_keys;
    rotate_access_key = remote_rotate_access_key;
    disable_access_key = remote_disable_access_key;
    get_default_access_key = remote_get_default_access_key;
    set_default_access_key = remote_set_default_access_key;
    get_project_quota = remote_get_project_quota;
    get_access_quota = remote_get_access_quota;
    clear_access_quota_cache = remote_clear_access_quota_cache;
    get_usage = remote_get_usage;
    clear_usage = remote_clear_usage;
    sync_project_usage = remote_sync_project_usage;
    sync_access_key_usage = remote_sync_access_key_usage;
    notify_event = remote_notify_event;
    get_user_permission = remote_get_user_permission;
    get_account_usage = remote_get_account_usage;
    get_access_key_usage = remote_get_access_key_usage;
    get_async_usage = remote_get_async_usage;
    update_project_usage = remote_update_project_usage;
    update_key_usage = remote_update_key_usage;
    prepare_usage = remote_prepare_usage;
  }
