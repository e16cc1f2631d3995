-- ===== src/Middleware/Usage/Bound.antt =====
-- `EnsureUsage` of middleware/middleware_usage.go, for a usage that is known.
use quotacontrol.Prelude.{◌≡◌, ◌↔◌, ◌≢◌, true, Option, none, some, arith}
use quotacontrol.Prelude.Int.{ℤ, pos, ◌+ℤ◌, ◌≤ℤ◌, ◌<ℤ◌, IsInt64, int_eq, int_beq_iff, add64_exact}
use quotacontrol.Time.{Time}
use quotacontrol.Proto.Errors.{rpc, quota_exceeded, Result, ok}
use quotacontrol.Proto.Types.{AccessQuota, Limit, ServiceLimit}
use quotacontrol.Proto.Limits.{get_settings}
use quotacontrol.Middleware.{Context, Response, Outcome, next, refused, Client, get_time}
use quotacontrol.Middleware.Usage.{cost_of, settings_of, check_usage, ensure_usage}

abbrev pub outcome : {W : Type 0} → Result Response × W → Option Outcome
outcome (ok r, w) = some r.1
outcome (_, w) = none

module _ {W : Type 0} (client : Client W) (clock : Time) where
  -- For an enabled client, a context with a quota and limits of the service, a cost that is not
  -- zero, and a usage that is fetched and whose sum with the cost is an int64: EnsureUsage hands
  -- the request on with its context exactly if the sum is within the hard limit, and refuses it as
  -- exceeding the quota exactly if it is above.
  pub ensure_usage_bound :
      (ctx : Context) (q : AccessQuota) (limit : Limit) (cfg : ServiceLimit) (usage : ℤ) (w v : W)
      → client.is_enabled ≡ true
      → ctx.quota ≡ some q
      → q.limit ≡ some limit
      → get_settings limit client.service ≡ some cfg
      → cost_of client.default_usage ctx ≢ pos 0
      → client.fetch_usage q (get_time clock ctx) w ≡ (ok usage, v)
      → IsInt64 (usage +ℤ cost_of client.default_usage ctx)
      → ((outcome (ensure_usage client clock ctx w) ≡ some (next ctx))
          ↔ (usage +ℤ cost_of client.default_usage ctx ≤ℤ cfg.over_max))
        × ((outcome (ensure_usage client clock ctx w) ≡ some (refused (rpc quota_exceeded)))
            ↔ (cfg.over_max <ℤ usage +ℤ cost_of client.default_usage ctx))
  unfolding ensure_usage check_usage settings_of
  ensure_usage_bound ctx q limit cfg usage w v on eq el ec paid fetched fits =
      let cost = cost_of client.default_usage ctx in
      let exact = add64_exact usage cost fits in
      let some_cost = int_beq_iff cost (pos 0) in
      ((λ e. ground arith, λ e. ground arith), (λ e. ground arith, λ e. ground arith))
