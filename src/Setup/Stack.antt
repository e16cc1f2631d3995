-- ===== src/Setup/Stack.antt =====
-- The client as the middlewares see it: `var _ middleware.Client = &Client{}` of client.go.
pub mod Admitted
pub mod Spending
use quotacontrol.Prelude.{ℕ, Bool, some, List}
use quotacontrol.Prelude.Text.{Text}
use quotacontrol.Exec.{Exec, on_second}
use quotacontrol.Usage.{Tracker}
use quotacontrol.Client.{Sessions, get_default_usage}
use quotacontrol.Client.Fetch.{fetch_project_quota, fetch_key_quota, fetch_usage}
use quotacontrol.Client.Permission.{check_permission}
use quotacontrol.Client.Spend.{spend_quota}
use quotacontrol.Middleware.{Client}
use quotacontrol.Rpc.Adapters.{quota_client}
use quotacontrol.Setup.{QuotaControlClient, is_enabled, get_service}

-- `match_any` is the matching of origins, and `sleep` lets the others run.
unfoldable pub middleware_client :
    {W : Type 0}
    → Sessions
    → (List Text → Text → Bool)
    → (ℕ → Exec W (Unit {0}))
    → QuotaControlClient W
    → Client (Tracker × W)
unfolding is_enabled get_service
middleware_client sessions match_any sleep c =
    let rpc = quota_client c.rpc in
    record {
      is_enabled = is_enabled (some c);
      default_usage = get_default_usage c.cfg.default_usage;
      service = get_service (some c);
      fetch_project_quota =
          λ p ids now. on_second (fetch_project_quota c.cache rpc c.service p ids now);
      fetch_key_quota = λ k origin ids now.
          on_second (fetch_key_quota c.cache rpc c.service match_any k origin ids now);
      fetch_usage = λ q now. on_second (fetch_usage c.cache rpc c.service sleep q now);
      check_permission =
          λ ctx p least. on_second (check_permission c.cache rpc sessions ctx p least);
      spend_quota = spend_quota c.cache rpc c.service sleep;
    }
