-- ===== src/Setup/Stack/Spending.antt =====
-- `SpendUsage` over the client itself, with a counter in Redis.
use quotacontrol.Prelude.{ℕ, ◌≡◌, Bool, refl, true, Option, none, some, List, arith, if◌then◌else◌}
use quotacontrol.Prelude.Int.{ℤ, pos, ◌+ℤ◌, ◌≤ℤ◌, ◌<ℤ◌, IsInt64, int_eq, int_beq_iff, ltb_ℤ}
use quotacontrol.Prelude.Text.{Text}
use quotacontrol.Time.{Time}
use quotacontrol.Exec.{Exec}
use quotacontrol.Proto.Errors.{
  code, errors_is, target_beq, code_beq, code_number, rpc, quota_exceeded,
}
use quotacontrol.Proto.Types.{Service, AccessKey, AccessQuota, Limit, ServiceLimit}
use quotacontrol.Proto.Limits.{get_settings, validate_service_limit}
use quotacontrol.Cache.{QuotaCache, PermissionCache}
use quotacontrol.Cache.Keys.{usage_key}
use quotacontrol.Cache.Redis.{Redis, Codec, CodecLaws, RedisLaws}
use quotacontrol.Usage.{Tracker}
use quotacontrol.Client.{Sessions, get_default_usage}
use quotacontrol.Client.Spend.{track}
use quotacontrol.Client.Spend.Counting.{counted, caches, key_at, Notifies, spend_quota_below}
use quotacontrol.Middleware.{Context, next, refused, get_time}
use quotacontrol.Middleware.Usage.{cost_of, settings_of, report_spend, spend_usage}
use quotacontrol.Middleware.Usage.Bound.{outcome}
use quotacontrol.Rpc.{QuotaControl}
use quotacontrol.Rpc.Adapters.{quota_client}
use quotacontrol.Setup.{Config, QuotaControlClient, is_enabled, get_service}
use quotacontrol.Setup.Stack.{middleware_client}

exceeded_found : errors_is (rpc quota_exceeded) (code quota_exceeded) ≡ true
unfolding errors_is target_beq code_beq code_number
exceeded_found = refl

module _ {W B : Type 0} (r : Redis W B) (c : Codec B) (ttl : ℤ) (content : W → Text → Option B)
    (codec : CodecLaws c) (laws : RedisLaws r c content) (quotas : QuotaCache W)
    (permissions : PermissionCache W) (server : QuotaControl W) (service : Service)
    (sleep : ℕ → Exec W (Unit {0})) (config : Config) (tick : ℤ) (sessions : Sessions)
    (match_any : List Text → Text → Bool) (clock : Time) where
  -- A client whose usage is counted in Redis.
  abbrev pub counting_client : QuotaControlClient W
  counting_client = record {
    cfg = config;
    service = service;
    cache =
        caches r c ttl content codec laws quotas permissions (quota_client server) service sleep;
    rpc = server;
    tick = tick;
  }

  abbrev pub key : AccessKey → AccessQuota → Time → Text
  key k quota now = usage_key (
      key_at r c ttl content codec laws quotas permissions (quota_client server) service sleep k
        quota now)

  -- With an enabled client of client.go under SpendUsage, for a context with a quota that has a key
  -- and valid limits of the service, a counter in Redis that is known, not negative and below the
  -- hard limit, and a positive cost whose sum with it is an int64, where NotifyEvent does not panic
  -- and does not touch Redis, whether it fails or not: the request is refused as exceeding the
  -- quota where the sum is above the hard limit and handed on as spending otherwise; the counter
  -- grows by the cost, and what lies below the limit is tracked.
  pub spend_usage_below :
      (ctx : Context) (quota : AccessQuota) (limit : Limit) (cfg : ServiceLimit) (k : AccessKey)
      (n : ℤ) (u : Tracker) (w : W)
      → Notifies r c ttl content codec laws quotas permissions (quota_client server) service sleep
      → config.enabled ≡ true
      → ctx.quota ≡ some quota
      → quota.access_key ≡ some k
      → quota.limit ≡ some limit
      → get_settings limit service ≡ some cfg
      → validate_service_limit cfg ≡ none
      → pos 0 <ℤ cost_of (get_default_usage config.default_usage) ctx
      → content w (key k quota (get_time clock ctx)) ≡ some (c.int_bytes n)
      → pos 0 ≤ℤ n
      → n <ℤ cfg.over_max
      → IsInt64 (n +ℤ cost_of (get_default_usage config.default_usage) ctx)
      → let cost = cost_of (get_default_usage config.default_usage) ctx in
        let after =
          spend_usage
            (middleware_client sessions match_any sleep counting_client)
            clock
            ctx
            (u, w) in
        (outcome after
          ≡ some (
              if ltb_ℤ cfg.over_max (n +ℤ cost)
              then refused (rpc quota_exceeded)
              else next (record ctx { spending = true })))
        × (after.1.0 ≡ track k (get_time clock ctx) (counted cfg n cost) u)
        × (content after.1.1 (key k quota (get_time clock ctx)) ≡ some (c.int_bytes (n +ℤ cost)))
  unfolding spend_usage settings_of report_spend middleware_client is_enabled get_service
  spend_usage_below ctx quota limit cfg k n u w notifies on eq ek el ec valid pays h i below fits =
      let cost = cost_of (get_default_usage config.default_usage) ctx in
      let (replied, tracked, counted) =
        spend_quota_below r c ttl content codec laws quotas permissions (quota_client server)
          service sleep notifies quota limit cfg k cost n (get_time clock ctx) u w ek el ec valid
          pays h i below fits in
      (
        ground (arith, int_beq_iff cost (pos 0), replied, exceeded_found),
        ground (arith, int_beq_iff cost (pos 0), replied, tracked),
        ground (arith, int_beq_iff cost (pos 0), replied, counted),
      )
