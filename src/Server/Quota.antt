-- ===== src/Server/Quota.antt =====
-- The operations of server.go on quotas and permissions.
use quotacontrol.Prelude.{
  String, ℕ, Bool, true, ◌||◌, Option, none, some, List, [], ◌∷◌, if◌then◌else◌,
}
use quotacontrol.Prelude.Text.{Text}
use quotacontrol.Time.{Time}
use quotacontrol.Exec.{Exec, ◌>>=◌, ◌>>◌, pure, raise, attempt, got, failed, wrap, ignore}
use quotacontrol.Proto.Errors.{
  Error, code, rpc, wrapped, errors_is, project_not_found, access_key_not_found, unauthorized_user,
}
use quotacontrol.Proto.Types.{
  Service, EventType, ProjectInfo, AccessKey, zero_key, AccessQuota, UserPermission, unauthorized,
  ResourceAccess, permission_beq,
}
use quotacontrol.Cache.{Cache}
use quotacontrol.Store.{Store}

module _ {W : Type 0} (cache : Cache W) (store : Store W) where
  open store.infos use {get_project_info}
  open store.limits use {get_access_limit}
  open store.keys use {find_access_key, list_access_keys}

  -- `if errors.Is(err, proto.ErrProjectNotFound) { return err }`, else a wrapped error.
  unfoldable pub project_info : String → ℕ → Time → Exec W ProjectInfo
  project_info msg project_id now = attempt (get_project_info project_id now) >>= elim [
    | got info ↦ pure info
    | failed e ↦ if errors_is e (code project_not_found) then raise e else raise (wrapped msg e)
  ]

  unfoldable pub get_project_quota : ℕ → Time → Exec W AccessQuota
  unfolding project_info
  get_project_quota project_id now = do
    info ← project_info "get project info" project_id now
    limit ← wrap "get access limit" (get_access_limit project_id info.cycle)
    let quota : AccessQuota = record {
      info = some info;
      cycle = info.cycle;
      limit = some limit;
      access_key = some (record zero_key { project_id = project_id });
    }
    ignore (cache.quota.set_project_quota quota)
    pure quota

  unfoldable pub get_access_quota : Text → Time → Exec W AccessQuota
  get_access_quota access_key now = attempt (find_access_key access_key) >>= elim [
    | failed e ↦
        if errors_is e (code access_key_not_found) || errors_is e (code project_not_found)
        then raise e
        else raise (wrapped "find access key" e)
    | got access ↦ (do
      info ← project_info "get access cycle" access.project_id now
      limit ← wrap "get access limit" (get_access_limit access.project_id info.cycle)
      let quota : AccessQuota = record {
        info = some info;
        cycle = info.cycle;
        limit = some limit;
        access_key = some access;
      }
      ignore (cache.quota.set_access_quota quota)
      pure quota)
  ]

  -- Only logs.
  unfoldable pub notify_event : ℕ → Service → EventType → Exec W Bool
  notify_event project_id service event_type = pure true

  -- The loop of `ClearAccessQuotaCache`.
  unfoldable pub delete_quotas : List AccessKey → Exec W (Unit {0})
  delete_quotas [] = pure tt
  delete_quotas (access ∷ rest) =
      ignore (cache.quota.delete_access_quota access.access_key) >> delete_quotas rest

  unfoldable pub clear_access_quota_cache : ℕ → Exec W Bool
  unfolding delete_quotas
  clear_access_quota_cache project_id =
      attempt (list_access_keys project_id (some true) none) >>= elim [
        | failed e ↦ pure true
        | got access_keys ↦ (do
          ignore (cache.quota.delete_project_quota project_id)
          delete_quotas access_keys
          pure true)
      ]

  -- The permission goes back beside the error.
  unfoldable pub get_user_permission :
      ℕ → Text → Exec W (UserPermission × Option ResourceAccess × Option Error)
  get_user_permission project_id user_id =
      attempt (store.permissions.get_user_permission project_id user_id) >>= elim [
        | failed e ↦ pure (unauthorized, none, some (rpc unauthorized_user))
        | got (perm, access) ↦ (do
          if permission_beq perm unauthorized
              then pure tt
              else ignore (cache.permission.set_user_permission project_id user_id perm access)
          pure (perm, access, none))
      ]
