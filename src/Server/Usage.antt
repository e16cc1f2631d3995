-- ===== src/Server/Usage.antt =====
-- The operations of server.go on usage, and `GetProjectStatus`.
pub mod Intervals
pub mod Answering
use quotacontrol.Prelude.{
  nat_eq, ℕ, Bool, true, false, not, Option, none, some, List, [], ◌∷◌, ◌++◌, is_empty,
  if◌then◌else◌,
}
use quotacontrol.Prelude.Int.{ℤ, pos}
use quotacontrol.Prelude.Text.{Text, text_eq, codes, decimal}
use quotacontrol.Prelude.Assoc.{Assoc, insert}
use quotacontrol.Time.{Time}
use quotacontrol.Exec.{Exec, ◌>>=◌, ◌>>◌, pure, raise, attempt, got, failed, wrap, lift}
use quotacontrol.Proto.Errors.{
  Error, code, wrapped, errors_is, cache_ready, project_not_found, panic,
}
use quotacontrol.Proto.Types.{Service, Cycle, ProjectInfo, Limit, AccessUsage, ProjectStatus}
use quotacontrol.Proto.Service.{all_services, get_name}
use quotacontrol.Proto.Limits.{get_settings}
use quotacontrol.Proto.Cycles.{get_start, get_end, set_interval}
use quotacontrol.Cache.{Cache}
use quotacontrol.Cache.Keys.{cache_key_quota}
use quotacontrol.Store.{Store}
use quotacontrol.Usage.Sync.{UsageUpdater, join_errors}
use quotacontrol.Server.{External}

module _ {W : Type 0} (ext : External W) (cache : Cache W) (store : Store W) where
  open store.infos use {get_project_info}
  open store.limits use {get_access_limit}
  open store.usage use {get_account_usage, get_access_key_usage, insert_access_usage}

  -- The reads of usage over an interval, by what the access key points to.
  unfoldable pub usage_between : ℕ → Option Text → Option Service → Time → Time → Exec W ℤ
  usage_between project_id none service from to =
      wrap "get account usage" (get_account_usage project_id service from to)
  usage_between project_id (some []) service from to =
      wrap "get async usage" (get_access_key_usage project_id [] service from to)
  usage_between project_id (some (b ∷ key)) service from to =
      wrap "get access key usage" (get_access_key_usage project_id (b ∷ key) service from to)

  -- A dereference of `from` and `to`, which panics where one is nil, and of the cycle in between.
  unfoldable pub with_interval :
      ℕ → Option Text → Option Service → Option (Option Time × Option Time) → Exec W ℤ
  unfolding usage_between
  with_interval project_id access_key service (some (some from, some to)) =
      usage_between project_id access_key service from to
  with_interval project_id access_key service _ = lift panic

  -- `now` is the time of the context.
  unfoldable pub get_usage :
      Time → ℕ → Option Text → Option Service → Option Time → Option Time → Exec W ℤ
  unfolding with_interval
  get_usage now project_id access_key service from to = do
    info ← get_project_info project_id now
    with_interval project_id access_key service (set_interval info.cycle from to now)

  abbrev valid_only : ℤ → AccessUsage
  valid_only usage = record { valid_compute = usage; over_compute = pos 0; limited_compute = pos 0 }

  unfoldable pub server_account_usage :
      Time → ℕ → Option Service → Option Time → Option Time → Exec W AccessUsage
  server_account_usage now project_id service from to = do
    usage ← wrap "get account usage" (get_usage now project_id none service from to)
    pure (valid_only usage)

  unfoldable pub get_async_usage :
      Time → ℕ → Option Service → Option Time → Option Time → Exec W AccessUsage
  get_async_usage now project_id service from to = do
    usage ← wrap "get usage" (get_usage now project_id (some []) service from to)
    pure (valid_only usage)

  unfoldable pub server_key_usage :
      Time → Text → Option Service → Option Time → Option Time → Exec W AccessUsage
  server_key_usage now access_key service from to = do
    project_id ← wrap "get project id" (lift (ext.get_project_id access_key))
    usage ← wrap "get usage" (get_usage now project_id (some access_key) service from to)
    pure (valid_only usage)

  -- `ctx_now` is the time of the context, which `GetUsage` reads.
  unfoldable pub prepare_usage : Time → ℕ → Option Service → Option Cycle → Time → Exec W Bool
  prepare_usage ctx_now project_id service cycle now = do
    usage ← wrap "get account usage" (
        get_usage ctx_now project_id none service (some (get_start cycle now))
          (some (get_end cycle now)))
    wrap "set usage cache"
        (cache.usage.set_usage (cache_key_quota project_id cycle service now) usage)
    pure true

  -- The loop of `ClearUsage` over all services.
  unfoldable pub clear_services : ℕ → Option Cycle → Time → List Service → Exec W Bool
  clear_services project_id cycle now [] = pure true
  clear_services project_id cycle now (svc ∷ rest) =
      wrap "clear usage cache for service"
        (cache.usage.clear_usage (cache_key_quota project_id cycle (some svc) now))
      >> clear_services project_id cycle now rest

  unfoldable pub clear_usage : ℕ → Option Service → Time → Exec W Bool
  unfolding clear_services
  clear_usage project_id service now = attempt (get_project_info project_id now) >>= elim [
    | failed e ↦
        if errors_is e (code project_not_found)
        then raise e
        else raise (wrapped "get access cycle" e)
    | got info ↦ elim service [
      | some svc ↦
          wrap "clear usage cache"
            (cache.usage.clear_usage (cache_key_quota project_id info.cycle (some svc) now))
      | none ↦ clear_services project_id info.cycle now all_services
    ]
  ]

  -- The loop of `SyncProjectUsage`: the answers and the errors so far.
  unfoldable pub sync_projects :
      Service → Time → Assoc ℕ ℤ → Assoc ℕ Bool → List Error → Exec W (Assoc ℕ Bool × Option Error)
  sync_projects service now [] m errs = pure (m, join_errors errs)
  sync_projects service now ((project_id, usage) ∷ rest) m errs =
      attempt (insert_access_usage project_id [] service now usage) >>= elim [
        | failed e ↦
            sync_projects service now rest (insert project_id false m)
              (errs ++ wrapped "project" e ∷ [])
        | got _ ↦ sync_projects service now rest (insert project_id true m) errs
      ]

  unfoldable pub sync_project_usage :
      Service → Time → Assoc ℕ ℤ → Exec W (Assoc ℕ Bool × Option Error)
  unfolding sync_projects
  sync_project_usage service now usage = sync_projects service now usage [] []

  -- The loop of `SyncAccessKeyUsage`: a key that names no project has no answer.
  unfoldable pub sync_keys :
      Service
      → Time
      → Assoc Text ℤ
      → Assoc Text Bool
      → List Error
      → Exec W (Assoc Text Bool × Option Error)
  sync_keys service now [] m errs = pure (m, join_errors errs)
  sync_keys service now ((key, usage) ∷ rest) m errs =
      attempt (lift (ext.get_project_id key)) >>= elim [
        | failed e ↦ sync_keys service now rest m (errs ++ wrapped "key" e ∷ [])
        | got project_id ↦ attempt (insert_access_usage project_id key service now usage) >>= elim [
          | failed e ↦
              sync_keys service now rest (insert key false m) (errs ++ wrapped "key" e ∷ [])
          | got _ ↦ sync_keys service now rest (insert key true m) errs
        ]
      ]

  unfoldable pub sync_access_key_usage :
      Service → Time → Assoc Text ℤ → Exec W (Assoc Text Bool × Option Error)
  unfolding sync_keys
  sync_access_key_usage service now usage = sync_keys service now usage [] []

  -- `UpdateProjectUsage` and `UpdateKeyUsage` pass on the valid part of each usage.
  unfoldable pub valid_part {ℓ} : {K : Type ℓ} → Assoc K AccessUsage → Assoc K ℤ
  valid_part [] = []
  valid_part ((k, u) ∷ rest) = (k, u.valid_compute) ∷ valid_part rest

  unfoldable pub update_project_usage :
      Service → Time → Assoc ℕ AccessUsage → Exec W (Assoc ℕ Bool × Option Error)
  update_project_usage service now usage = sync_project_usage service now (valid_part usage)

  unfoldable pub update_key_usage :
      Service → Time → Assoc Text AccessUsage → Exec W (Assoc Text Bool × Option Error)
  update_key_usage service now usage = sync_access_key_usage service now (valid_part usage)

  -- The server as the tracker of a client sees it.
  abbrev pub server_updater : UsageUpdater W
  server_updater = record {
    sync_access_key_usage = sync_access_key_usage;
    sync_project_usage = sync_project_usage;
  }

  -- The usage that `GetProjectStatus` shows for a service.
  unfoldable pub status_usage : Time → ℕ → Service → Option Cycle → Exec W ℤ
  status_usage now project_id svc cycle =
      let key = cache_key_quota project_id cycle (some svc) now in
      attempt (cache.usage.peek_usage key) >>= elim [
        | got usage ↦ pure usage
        | failed e ↦
            if not (errors_is e cache_ready) then raise (wrapped "peek usage cache" e) else (do
              wrap "prepare usage" (prepare_usage now project_id (some svc) cycle now)
              wrap "peek usage cache" (cache.usage.peek_usage key))
      ]

  unfoldable pub status_services :
      Time → ℕ → ProjectInfo → Limit → List Service → ProjectStatus → Exec W ProjectStatus
  unfolding status_usage
  status_services now project_id info limit [] status = pure status
  status_services now project_id info limit (svc ∷ rest) status = elim (get_settings limit svc) [
    | none ↦ status_services now project_id info limit rest status
    | some cfg ↦ (do
      usage ← status_usage now project_id svc info.cycle
      rate ← wrap "get rate limit status" (
          ext.rate_status svc cfg.rate_limit
            (codes "rl:project:" ++ (decimal project_id ++ codes ":")))
      status_services now project_id info limit rest (record status {
        usage_counter = insert (get_name svc) usage status.usage_counter;
        rate_limit_counter = insert (get_name svc) rate status.rate_limit_counter;
      }))
  ]

  unfoldable pub get_project_status : Time → ℕ → Exec W ProjectStatus
  unfolding status_services
  get_project_status now project_id = attempt (get_project_info project_id now) >>= elim [
    | failed e ↦
        if errors_is e (code project_not_found)
        then raise e
        else raise (wrapped "get project info" e)
    | got info ↦ (do
      limit ← wrap "get access limit" (get_access_limit project_id info.cycle)
      status_services now project_id info limit all_services (record {
        project_id = project_id;
        limit = limit;
        usage_counter = [];
        rate_limit_counter = [];
      }))
  ]
