-- ===== src/Rpc/Adapters.antt =====
-- The server as the RPC layer calls it, and the RPC interface as client.go and SyncUsage use it.
use quotacontrol.Prelude.{ℕ, Option}
use quotacontrol.Prelude.Text.{Text, codes}
use quotacontrol.Time.{Time}
use quotacontrol.Exec.{◌>>=◌, pure, lift}
use quotacontrol.Cache.{Cache}
use quotacontrol.Store.{Store}
use quotacontrol.Server.{External}
use quotacontrol.Server.Keys.{
  get_access_key, list_keys, get_default_access_key, create_access_key, rotate_access_key,
  update_access_key, set_default_access_key, disable_access_key,
}
use quotacontrol.Server.Quota.{
  get_project_quota, get_access_quota, notify_event, clear_access_quota_cache, get_user_permission,
}
use quotacontrol.Server.Usage.{
  get_usage, server_account_usage, get_async_usage, server_key_usage, prepare_usage, clear_usage,
  sync_project_usage, sync_access_key_usage, update_project_usage, update_key_usage,
  get_project_status,
}
use quotacontrol.Usage.Sync.{UsageUpdater}
use quotacontrol.Client.{QuotaClient}
use quotacontrol.Rpc.{QuotaControl, only_value}

-- `WebRPCSchemaVersion()`
abbrev pub schema_version : Text
schema_version = codes "v0-26.2.23+dde45de"

-- `clock` is the time of the request's context and `version` the key version in it, if any.
unfoldable pub server_methods :
    {W : Type 0} → External W → Cache W → Store W → ℕ → Time → Option ℕ → QuotaControl W
server_methods ext cache store key_version clock version = record {
  ping = λ _. pure schema_version;
  get_project_status = λ p. get_project_status ext cache store clock p;
  get_access_key = λ k. get_access_key ext cache store key_version k;
  create_access_key =
      λ a. create_access_key ext cache store key_version version a.0 a.1 a.2 a.3 a.4;
  update_access_key = λ a. update_access_key ext cache store key_version a.0 a.1 a.2 a.3 a.4;
  list_access_keys = λ a. list_keys ext cache store key_version a.0 a.1 a.2;
  rotate_access_key = λ k. rotate_access_key ext cache store key_version version k;
  disable_access_key = λ k. disable_access_key ext cache store key_version k;
  get_default_access_key = λ p. get_default_access_key ext cache store key_version p;
  set_default_access_key = λ a. set_default_access_key ext cache store key_version a.0 a.1;
  get_project_quota = λ a. get_project_quota cache store a.0 a.1;
  get_access_quota = λ a. get_access_quota cache store a.0 a.1;
  clear_access_quota_cache = λ p. clear_access_quota_cache cache store p;
  get_usage = λ a. get_usage ext cache store clock a.0 a.1 a.2 a.3 a.4;
  clear_usage = λ a. clear_usage ext cache store a.0 a.1 a.2;
  sync_project_usage = λ a. sync_project_usage ext cache store a.0 a.1 a.2;
  sync_access_key_usage = λ a. sync_access_key_usage ext cache store a.0 a.1 a.2;
  notify_event = λ a. notify_event cache store a.0 a.1 a.2;
  get_user_permission = λ a. (do
    (perm, access, e) ← get_user_permission cache store a.0 a.1
    pure ((perm, access), e));
  get_account_usage = λ a. server_account_usage ext cache store clock a.0 a.1 a.2 a.3;
  get_access_key_usage = λ a. server_key_usage ext cache store clock a.0 a.1 a.2 a.3;
  get_async_usage = λ a. get_async_usage ext cache store clock a.0 a.1 a.2 a.3;
  update_project_usage = λ a. update_project_usage ext cache store a.0 a.1 a.2;
  update_key_usage = λ a. update_key_usage ext cache store a.0 a.1 a.2;
  prepare_usage = λ a. prepare_usage ext cache store clock a.0 a.1 a.2 a.3;
}

-- The calls of client.go.
abbrev pub quota_client : {W : Type 0} → QuotaControl W → QuotaClient W
quota_client rpc = record {
  get_project_quota = λ project_id now. rpc.get_project_quota (project_id, now);
  get_access_quota = λ access_key now. rpc.get_access_quota (access_key, now);
  get_usage = λ project_id access_key service from to.
      rpc.get_usage (project_id, access_key, service, from, to);
  get_user_permission = λ project_id user_id.
      rpc.get_user_permission (project_id, user_id) >>= λ r. lift (only_value r);
  notify_event =
      λ project_id service event_type. rpc.notify_event (project_id, service, event_type);
}

-- `SyncUsage` is given the RPC client as its updater.
abbrev pub rpc_updater : {W : Type 0} → QuotaControl W → UsageUpdater W
rpc_updater rpc = record {
  sync_access_key_usage = λ service now usage. rpc.sync_access_key_usage (service, now, usage);
  sync_project_usage = λ service now usage. rpc.sync_project_usage (service, now, usage);
}
