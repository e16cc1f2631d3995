-- ===== src/Middleware/Verify.antt =====
-- middleware/middleware_quota.go.
pub mod Admission
use quotacontrol.Prelude.{
  ℕ, Bool, true, false, not, ◌&&◌, Option, none, some, List, [], ◌∷◌, ◌==◌, nat_eq, nat_beq,
  if◌then◌else◌,
}
use quotacontrol.Prelude.Text.{Text, codes}
use quotacontrol.Time.{Time}
use quotacontrol.Exec.{Exec, ◌>>=◌, pure, attempt, got, failed, lift}
use quotacontrol.Proto.Errors.{
  Error, rpc, plain, with_cause, unauthorized_user, access_key_mismatch, access_key_not_found,
  invalid_service, panic,
}
use quotacontrol.Proto.Types.{AccessQuota, read}
use quotacontrol.Proto.Access.{is_active}
use quotacontrol.Proto.Limits.{get_settings}
use quotacontrol.Cache.RedisCache.{key_of}
use quotacontrol.Client.{Sessions}
use quotacontrol.Middleware.{Context, Response, next, refused, Client, format_int, get_time}

abbrev pub header_limit : Text
header_limit = codes "Quota-Limit"

-- A step of the handler: it ends with an error, or goes on with a value.
pub data Checked (A : Type 0) : Type 0 where
  stop : Error → Checked A
  go : A → Checked A

abbrev pub denied : Error
denied = with_cause unauthorized_user (plain "verify quota")

-- `project_of_key` is authcontrol's `GetProjectIDFromAccessKey`, without its error.
module _ {W : Type 0} (client : Client W) (sessions : Sessions) (project_of_key : Text → ℕ)
    (clock : Time) (chain_ids : List ℕ) (origin : Text) where
  -- May the request use the project's quota: by its account's permission, or by an access key?
  unfoldable pub admit : Context → ℕ → AccessQuota → Exec W (Checked AccessQuota)
  admit ctx project_id q = elim ctx.auth.account [
    | some a ↦ attempt (client.check_permission ctx.auth project_id read) >>= elim [
      | failed e ↦ pure (stop e)
      | got allowed ↦ if allowed then pure (go q) else pure (stop denied)
    ]
    | none ↦ elim ctx.auth.access_key [ none ↦ pure (stop denied) | some k ↦ pure (go q) ]
  ]

  unfoldable pub admit_fetched :
      Context → ℕ → Option AccessQuota × Option Error → Exec W (Checked (Option AccessQuota))
  admit_fetched ctx project_id (q, some e) = pure (stop e)
  admit_fetched ctx project_id (none, none) = pure (go none)
  admit_fetched ctx project_id (some q, none) =
      admit ctx project_id q >>= elim [ stop e ↦ pure (stop e) | go q ↦ pure (go (some q)) ]

  -- The part for a project session: the project, 0 where there is none, and its quota.
  unfoldable pub project_part : Context → Exec W (Checked (ℕ × Option AccessQuota))
  unfolding admit_fetched
  project_part ctx =
      if not (ctx.auth.session == sessions.project)
      then pure (go (0, none))
      else (elim ctx.auth.project_id [
        | none ↦ pure (stop denied)
        | some id ↦
            client.fetch_project_quota id chain_ids (get_time clock ctx)
            >>= admit_fetched ctx id
            >>= elim [ stop e ↦ pure (stop e) | go quota ↦ pure (go (id, quota)) ]
      ])

  -- The quota of the access key, checked against the project's.
  unfoldable pub key_fetched :
      Option AccessQuota → Option AccessQuota × Option Error → Exec W (Checked (Option AccessQuota))
  key_fetched quota (q, some e) = pure (stop e)
  key_fetched quota (none, none) = pure (go quota)
  key_fetched quota (some q, none) =
      if not (is_active q) then pure (stop (rpc access_key_not_found)) else (elim quota [
        | none ↦ pure (go (some q))
        | some p ↦ key_of p >>= λ a. key_of q >>= λ b.
            if a.project_id == b.project_id
            then pure (go (some q))
            else pure (stop (rpc access_key_mismatch))
      ])

  unfoldable pub key_part : Context → ℕ → Option AccessQuota → Exec W (Checked (Option AccessQuota))
  unfolding key_fetched
  key_part ctx project_id quota = elim ctx.auth.access_key [
    | none ↦ if ctx.auth.session == sessions.access_key then pure (stop denied) else pure (go quota)
    | some k ↦
        if not (project_id == 0) && not (project_of_key k == project_id)
        then pure (stop (rpc access_key_mismatch))
        else client.fetch_key_quota k origin chain_ids (get_time clock ctx) >>= key_fetched quota
  ]

  -- The end: a quota goes into the context, with the header of its free limit.
  unfoldable pub finish : Context → Option AccessQuota → Exec W Response
  finish ctx none = pure ([], next ctx)
  finish ctx (some quota) = elim quota.limit [
    | none ↦ lift panic
    | some limit ↦ elim (get_settings limit client.service) [
      | none ↦ pure ([], refused (with_cause invalid_service (plain "service is not enabled")))
      | some cfg ↦
          pure
            ((header_limit, format_int cfg.free_max) ∷ [], next (record ctx { quota = some quota }))
    ]
  ]

  -- What the quota of the whole request is.
  unfoldable pub decide : Context → Exec W (Checked (Option AccessQuota))
  unfolding project_part key_part
  decide ctx =
      project_part ctx >>= elim [ stop e ↦ pure (stop e) | go found ↦ key_part ctx found.0 found.1 ]

  unfoldable pub verify_quota : Context → Exec W Response
  unfolding decide finish
  verify_quota ctx =
      decide ctx >>= elim [ stop e ↦ pure ([], refused e) | go quota ↦ finish ctx quota ]
