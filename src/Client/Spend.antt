-- ===== src/Client/Spend.antt =====
-- `SpendQuota` of client.go.
pub mod Sums
pub mod Counting
pub mod Interleaved
pub mod Silent
use quotacontrol.Prelude.{
  ℕ, Bool, true, false, not, Option, none, some, List, [], ◌==◌, is_empty, if◌then◌else◌,
}
use quotacontrol.Prelude.Int.{ℤ, pos, int_eq, ltb_ℤ, leb_ℤ}
use quotacontrol.Prelude.Text.{Text}
use quotacontrol.Time.{Time}
use quotacontrol.Exec.{
  Exec, ◌>>=◌, ◌>>◌, pure, raise, attempt, got, failed, wrap, ignore, lift, on_second,
}
use quotacontrol.Proto.Errors.{Error, rpc, quota_exceeded, panic}
use quotacontrol.Proto.Types.{Service, EventType, AccessKey, AccessQuota, ServiceLimit}
use quotacontrol.Proto.Limits.{get_settings, get_spend_result}
use quotacontrol.Cache.{Cache}
use quotacontrol.Cache.Keys.{cache_key_quota}
use quotacontrol.Cache.RedisCache.{key_of}
use quotacontrol.Usage.{Tracker, add_key_usage, add_project_usage}
use quotacontrol.Client.{QuotaClient}
use quotacontrol.Client.Fetch.{ensure_usage}

-- Whether the cost was spent, the total that the code returns, and the error.
abbrev pub Spent : Type 0
Spent = Bool × ℤ × Option Error

-- The usage goes to the access key, or to the project where there is none.
unfoldable pub track : AccessKey → Time → ℤ → Tracker → Tracker
track k now usage u =
    if is_empty k.access_key
    then add_project_usage k.project_id now usage u
    else add_key_usage k.access_key now usage u

module _ {W : Type 0} (cache : Cache W) (quota_client : QuotaClient W) (service : Service)
    (sleep : ℕ → Exec W (Unit {0})) where
  unfoldable pub notify : ℕ → Option EventType → Exec W (Unit {0})
  notify project_id none = pure tt
  notify project_id (some event) = ignore (quota_client.notify_event project_id service event)

  -- What follows a spend that brought the counter to `total`.
  unfoldable pub settle : ServiceLimit → AccessKey → ℤ → Time → ℤ → Exec (Tracker × W) Spent
  settle cfg k cost now total (u, w) =
      let (usage, event) = get_spend_result cfg cost total in
      let u' = track k now usage u in
      if ltb_ℤ usage cost
      then pure (false, total, some (rpc quota_exceeded)) (u', w)
      else (on_second (notify k.project_id event) >> pure (true, total, none)) (u', w)

  unfoldable pub settle_spent :
      ServiceLimit → AccessKey → ℤ → Time → ℤ × Option Error → Exec (Tracker × W) Spent
  settle_spent cfg k cost now (total, some e) = pure (false, pos 0, some e)
  settle_spent cfg k cost now (total, none) = settle cfg k cost now total

  unfoldable pub spend_from :
      ServiceLimit → AccessKey → AccessQuota → ℤ → Time → Exec (Tracker × W) Spent
  spend_from cfg k quota cost now =
      attempt
        (on_second (ensure_usage cache quota_client service sleep k.project_id quota.cycle now))
      >>= elim [
        | failed e ↦ pure (false, pos 0, some e)
        | got total ↦
            if leb_ℤ cfg.over_max total
            then pure (false, total, some (rpc quota_exceeded))
            else (on_second (
                  cache.usage.spend_usage
                    (cache_key_quota k.project_id quota.cycle (some service) now) cost cfg.over_max)
                >>= settle_spent cfg k cost now)
      ]

  -- `quota` is nil where it could not be fetched.
  unfoldable pub spend_quota : Option AccessQuota → ℤ → Time → Exec (Tracker × W) Spent
  spend_quota none cost now = pure (false, pos 0, none)
  spend_quota (some quota) cost now = if cost == pos 0 then pure (false, pos 0, none) else (do
    k ← key_of quota
    elim quota.limit [
      | none ↦ lift panic
      | some limit ↦ elim (get_settings limit service) [
        | none ↦ pure (false, pos 0, none)
        | some cfg ↦ spend_from cfg k quota cost now
      ]
    ])
