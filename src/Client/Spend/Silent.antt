-- ===== src/Client/Spend/Silent.antt =====
-- The event of a spend that passes the hard limit.
use quotacontrol.Prelude.{ℕ, ◌≡◌, true, false, none, some, arith}
use quotacontrol.Prelude.Int.{ℤ, ◌-ℤ◌, ◌<ℤ◌, min_ℤ, ltb_ℤ, -ℤ_parts}
use quotacontrol.Time.{Time}
use quotacontrol.Exec.{Exec}
use quotacontrol.Proto.Errors.{rpc, quota_exceeded, ok}
use quotacontrol.Proto.Types.{Service, AccessKey, ServiceLimit, over_max}
use quotacontrol.Proto.Limits.{get_spend_result, validate_service_limit}
use quotacontrol.Proto.Limits.Charge.{IsSpend, charge, event}
use quotacontrol.Cache.{Cache}
use quotacontrol.Usage.{Tracker}
use quotacontrol.Client.{QuotaClient}
use quotacontrol.Client.Spend.{track, settle}

module _ {W : Type 0} (cache : Cache W) (quota_client : QuotaClient W) (service : Service)
    (sleep : ℕ → Exec W (Unit {0})) where
  less :
      (cost total m : ℤ)
      → total -ℤ cost <ℤ m
      → m <ℤ total
      → ltb_ℤ (min_ℤ total m -ℤ min_ℤ (total -ℤ cost) m) cost ≡ true
  less cost total m h k = ground (arith, -ℤ_parts total cost, -ℤ_parts m (total -ℤ cost))

  -- Under valid limits, for a spend that is not negative and took an int64 counter from below the
  -- hard limit to above it: its event is OverMax, but the spend ends with the error of an exceeded
  -- quota and the world as it was, so that the server is not notified.
  pub settle_over_silent :
      (cfg : ServiceLimit) (k : AccessKey) (cost total : ℤ) (now : Time) (u : Tracker) (w : W)
      → validate_service_limit cfg ≡ none
      → IsSpend cost total
      → total -ℤ cost <ℤ cfg.over_max
      → cfg.over_max <ℤ total
      → ((get_spend_result cfg cost total).1 ≡ some over_max)
        × (settle cache quota_client service sleep cfg k cost now total (u, w) ≡ (
          ok (false, total, some (rpc quota_exceeded)),
          (track k now (get_spend_result cfg cost total).0 u, w),
        ))
  unfolding settle
  settle_over_silent cfg k cost total now u w valid s below above = (
    (event cfg cost total valid s).0.1 (below, omega arith),
    ground (arith, charge cfg cost total valid s, less cost total cfg.over_max below above),
  )
