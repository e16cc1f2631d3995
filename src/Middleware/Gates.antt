-- ===== src/Middleware/Gates.antt =====
-- middleware/middleware_permission.go and middleware/middleware_cost.go.
use quotacontrol.Prelude.{not, Option, none, some, [], if◌then◌else◌}
use quotacontrol.Prelude.Int.{ℤ, pos}
use quotacontrol.Exec.{Exec, ◌>>=◌, pure, attempt, got, failed}
use quotacontrol.Proto.Errors.{plain, wrapped, with_cause, unauthorized_user}
use quotacontrol.Proto.Types.{UserPermission}
use quotacontrol.Proto.Access.{is_jwt, get_project_id}
use quotacontrol.Middleware.{Context, Response, next, refused, Client, with_cost, base_cost}

module _ {W : Type 0} (client : Client W) where
  unfoldable pub ensure_permission : UserPermission → Context → Exec W Response
  ensure_permission min_permission ctx =
      if not client.is_enabled then pure ([], next ctx) else (elim ctx.quota [
        | none ↦
            pure ([], refused (with_cause unauthorized_user (plain "no AccessQuota in context")))
        | some q ↦
            if not (is_jwt q)
            then pure
                ([], refused (with_cause unauthorized_user (plain "no AccessQuota in context")))
            else (attempt (client.check_permission ctx.auth (get_project_id q) min_permission)
                >>= elim [
                  | failed e ↦
                      pure
                        ([], refused (with_cause unauthorized_user (wrapped "check permission" e)))
                  | got allowed ↦
                      if allowed
                      then pure ([], next ctx)
                      else pure (
                        [],
                        refused (with_cause unauthorized_user (plain "not enough permissions")),
                      )
                ])
      ])

-- `SetCost`; `configured` is what authcontrol's `Config.Get` finds for the request.
unfoldable pub set_cost : ℤ → Option ℤ → Context → Response
unfolding base_cost with_cost
set_cost base_request_cost configured ctx = (
  [],
  next (with_cost (elim configured [ some v ↦ v | none ↦ pos (base_cost base_request_cost) ]) ctx),
)
