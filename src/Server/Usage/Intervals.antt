-- ===== src/Server/Usage/Intervals.antt =====
-- The interval of `GetUsage`.
use quotacontrol.Prelude.{ℕ, ◌≡◌, Option, none, some, arith, ◌⊎◌, inl, inr}
use quotacontrol.Prelude.Text.{Text}
use quotacontrol.Time.{Time}
use quotacontrol.Proto.Errors.{ok, panic}
use quotacontrol.Proto.Types.{Service, ProjectInfo}
use quotacontrol.Proto.Cycles.{set_interval, assign}
use quotacontrol.Cache.{Cache}
use quotacontrol.Store.{Store}
use quotacontrol.Server.{External}
use quotacontrol.Server.Usage.{get_usage}

module _ {W : Type 0} (ext : External W) (cache : Cache W) (store : Store W) where
  -- Where the project's info is found, GetUsage without a start or without an end panics, right
  -- after it has read the info.
  pub get_usage_nil :
      (now : Time) (project_id : ℕ) (key : Option Text) (service : Option Service)
      (from to : Option Time) (info : ProjectInfo) (w w' : W)
      → store.infos.get_project_info project_id now w ≡ (ok info, w')
      → (from ≡ none) ⊎ (to ≡ none)
      → get_usage ext cache store now project_id key service from to w ≡ (panic, w')
  unfolding get_usage set_interval assign
  get_usage_nil now p key service from none info w w' e (inr h) = ground arith
  get_usage_nil now p key service none to info w w' e (inl h) = ground arith
  get_usage_nil now p key service from (some t) info w w' e (inr h) = cc
  get_usage_nil now p key service (some f) to info w w' e (inl h) = cc
