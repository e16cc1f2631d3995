-- ===== src/Client/Permission.antt =====
-- `FetchPermission` and `CheckPermission` of client.go.
pub mod Cached
use quotacontrol.Prelude.{ℕ, Bool, true, not, Option, none, some, [], leb, if◌then◌else◌}
use quotacontrol.Prelude.Text.{Text}
use quotacontrol.Exec.{Exec, ◌>>=◌, ◌>>◌, pure, wrap, ignore}
use quotacontrol.Proto.Types.{UserPermission, unauthorized, rank, ResourceAccess, permission_beq}
use quotacontrol.Cache.{Cache}
use quotacontrol.Client.{QuotaClient, RequestContext, Sessions}

-- `userID, _ := authcontrol.GetAccount(ctx)`
abbrev pub user_of : RequestContext → Text
user_of ctx = elim ctx.account [ none ↦ [] | some user_id ↦ user_id ]

module _ {W : Type 0} (cache : Cache W) (quota_client : QuotaClient W) (sessions : Sessions) where
  unfoldable pub ask_permission : ℕ → Text → Exec W (UserPermission × Option ResourceAccess)
  ask_permission project_id user_id = do
    (perm, access) ←
        wrap "get user permission from quotacontrol server"
          (quota_client.get_user_permission project_id user_id)
    if permission_beq perm unauthorized
        then pure tt
        else ignore (cache.permission.set_user_permission project_id user_id perm access)
    pure (perm, access)

  -- A cache that fails, and one that knows nothing, both lead to the server.
  unfoldable pub fetch_permission :
      RequestContext → ℕ → Exec W (UserPermission × Option ResourceAccess)
  unfolding ask_permission
  fetch_permission ctx project_id = do
    (perm, access, e) ← cache.permission.get_user_permission project_id (user_of ctx)
    if not (permission_beq perm unauthorized)
        then pure (perm, access)
        else ask_permission project_id (user_of ctx)

  unfoldable pub check_permission : RequestContext → ℕ → UserPermission → Exec W Bool
  check_permission ctx project_id min_permission =
      if leb sessions.admin ctx.session then pure true else (do
        (perm, access) ← wrap "fetch permission" (fetch_permission ctx project_id)
        pure (leb (rank min_permission) (rank perm)))
