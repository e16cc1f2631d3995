-- ===== src/Client/Fetch.antt =====
-- `FetchProjectQuota`, `FetchKeyQuota`, `EnsureUsage` and `FetchUsage` of client.go.
pub mod Sound
pub mod Rounds
pub mod Waiting
use quotacontrol.Prelude.{
  ℕ, zero, suc, ◌+◌, ◌*◌, Bool, true, false, not, ◌||◌, Option, none, some, List, if◌then◌else◌,
}
use quotacontrol.Prelude.Int.{ℤ, pos}
use quotacontrol.Prelude.Text.{Text}
use quotacontrol.Time.{Time}
use quotacontrol.Exec.{Exec, ◌>>=◌, ◌>>◌, pure, raise, attempt, got, failed, wrap, ignore, lift}
use quotacontrol.Proto.Errors.{
  Error, code, rpc, wrapped, with_cause, errors_is, access_key_not_found, project_not_found,
  invalid_chain, invalid_origin, invalid_service, timeout, cache_ready, cache_wait, panic,
}
use quotacontrol.Proto.Types.{Service, Cycle, ProjectInfo, AccessKey, AccessQuota}
use quotacontrol.Proto.Access.{validate_origin, validate_service, validate_chains}
use quotacontrol.Proto.Cycles.{get_start, get_end}
use quotacontrol.Cache.{Cache}
use quotacontrol.Cache.Keys.{cache_key_quota}
use quotacontrol.Cache.RedisCache.{key_of}
use quotacontrol.Client.{QuotaClient}

-- A quota that may be nil, and an error that may be nil.
abbrev pub Fetched : Type 0
Fetched = Option AccessQuota × Option Error

-- `quota.Info.ValidateChains(chainIDs)`, which panics where there is no info.
unfoldable pub quota_chains : {W : Type 0} → AccessQuota → List ℕ → Exec W (Option Error)
quota_chains quota chain_ids = elim quota.info [
  | none ↦ lift panic
  | some info ↦ pure (validate_chains info chain_ids)
]

-- `validateAccessKey`; `none` is the nil error.
unfoldable pub validate_access_key :
    (List Text → Text → Bool) → Service → AccessKey → Text → Option Error
validate_access_key match_any service access origin =
    if not access.active
    then some (rpc access_key_not_found)
    else if not (validate_origin match_any access origin)
    then some (rpc invalid_origin)
    else if not (validate_service access service)
    then some (rpc invalid_service)
    else none

module _ {W : Type 0} (cache : Cache W) (quota_client : QuotaClient W) (service : Service) where
  -- The quota of a project from the cache, or else from the server, which is then cached. `none` in
  -- place of a quota stands for `nil, nil`, the answer to an unexpected error.
  unfoldable pub load_project_quota : ℕ → Time → Exec W Fetched
  load_project_quota project_id now = attempt (cache.quota.get_project_quota project_id) >>= elim [
    | got quota ↦ pure (some quota, none)
    | failed e ↦
        if errors_is e (code access_key_not_found) || errors_is e (code project_not_found)
        then (attempt (quota_client.get_project_quota project_id now) >>= elim [
          | failed f ↦
              if errors_is f (code access_key_not_found) || errors_is f (code project_not_found)
              then pure (none, some f)
              else pure (none, none)
          | got quota ↦ ignore (cache.quota.set_project_quota quota) >> pure (some quota, none)
        ])
        else pure (none, none)
  ]

  unfoldable pub check_project_quota : List ℕ → Fetched → Exec W Fetched
  check_project_quota chain_ids (none, e) = pure (none, e)
  check_project_quota chain_ids (some quota, e) = quota_chains quota chain_ids >>= elim [
    | some f ↦ pure (some quota, some (with_cause invalid_chain f))
    | none ↦ pure (some quota, none)
  ]

  unfoldable pub fetch_project_quota : ℕ → List ℕ → Time → Exec W Fetched
  fetch_project_quota project_id chain_ids now =
      load_project_quota project_id now >>= check_project_quota chain_ids

  unfoldable pub load_key_quota : Text → Time → Exec W Fetched
  load_key_quota access_key now = attempt (cache.quota.get_access_quota access_key) >>= elim [
    | got quota ↦ pure (some quota, none)
    | failed e ↦
        if errors_is e (code access_key_not_found)
        then (attempt (quota_client.get_access_quota access_key now) >>= elim [
          | failed f ↦
              if errors_is f (code access_key_not_found) || errors_is f (code project_not_found)
              then pure (none, some f)
              else pure (none, none)
          | got quota ↦ ignore (cache.quota.set_access_quota quota) >> pure (some quota, none)
        ])
        else pure (none, none)
  ]

  unfoldable pub check_key_quota :
      (List Text → Text → Bool) → Text → List ℕ → Fetched → Exec W Fetched
  check_key_quota match_any origin chain_ids (none, e) = pure (none, e)
  check_key_quota match_any origin chain_ids (some quota, e) =
      quota_chains quota chain_ids >>= elim [
        | some f ↦ pure (some quota, some (with_cause invalid_chain f))
        | none ↦ (do
          k ← key_of quota
          pure (some quota, validate_access_key match_any service k origin))
      ]

  unfoldable pub fetch_key_quota :
      (List Text → Text → Bool) → Text → Text → List ℕ → Time → Exec W Fetched
  fetch_key_quota match_any access_key origin chain_ids now =
      load_key_quota access_key now >>= check_key_quota match_any origin chain_ids

  -- What the client does for a usage that is reserved for it: it asks the server and fills it in.
  unfoldable pub fill_usage : ℕ → Option Cycle → Time → Exec W ℤ
  fill_usage project_id cycle now = do
    usage ← wrap "get account usage" (
        quota_client.get_usage project_id none (some service) (some (get_start cycle now))
          (some (get_end cycle now)))
    wrap "set usage cache"
        (cache.usage.set_usage (cache_key_quota project_id cycle (some service) now) usage)
    pure usage

  -- The loop of `EnsureUsage`, by the rounds that are left. `sleep` lets the other clients run for a
  -- time in nanoseconds.
  unfoldable pub ensure_rounds :
      (ℕ → Exec W (Unit {0})) → ℕ → ℕ → ℕ → Option Cycle → Time → Exec W ℤ
  unfolding fill_usage
  ensure_rounds sleep zero i project_id cycle now = raise (rpc timeout)
  ensure_rounds sleep (suc left) i project_id cycle now =
      attempt (cache.usage.peek_usage (cache_key_quota project_id cycle (some service) now))
      >>= elim [
        | got usage ↦ pure usage
        | failed e ↦
            if errors_is e cache_wait
            then sleep (100000000 * (i + 1))
              >> ensure_rounds sleep left (i + 1) project_id cycle now
            else if errors_is e cache_ready
            then fill_usage project_id cycle now
            else raise (wrapped "peek usage cache" e)
      ]

  unfoldable pub ensure_usage : (ℕ → Exec W (Unit {0})) → ℕ → Option Cycle → Time → Exec W ℤ
  ensure_usage sleep project_id cycle now = ensure_rounds sleep 3 0 project_id cycle now

  unfoldable pub fetch_usage : (ℕ → Exec W (Unit {0})) → AccessQuota → Time → Exec W ℤ
  fetch_usage sleep quota now = do k ← key_of quota; ensure_usage sleep k.project_id quota.cycle now

  unfoldable pub clear_quota_by_project : ℕ → Exec W (Unit {0})
  clear_quota_by_project project_id = cache.quota.delete_project_quota project_id

  unfoldable pub clear_quota_by_key : Text → Exec W (Unit {0})
  clear_quota_by_key access_key = cache.quota.delete_access_quota access_key
