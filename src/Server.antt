-- ===== src/Server.antt =====
-- server.go: the quota control server over its storage and its cache. What it calls of other
-- packages is the record `External`. Log lines are left out, and so is `ctx` but for the time and
-- the key version that it may carry.
pub mod Keys
pub mod Quota
pub mod Usage
use quotacontrol.Prelude.{ℕ, List}
use quotacontrol.Prelude.Int.{ℤ}
use quotacontrol.Prelude.Text.{Text}
use quotacontrol.Exec.{Exec}
use quotacontrol.Proto.Errors.{Result}
use quotacontrol.Proto.Types.{Service}

pub record External (W : Type 0) : Type 0 where
  -- authcontrol
  pub get_project_id : Text → Result ℕ
  pub generate_access_key : ℕ → ℕ → Exec W Text
  -- validation
  pub new_origins : List Text → Result (List Text)
  pub to_strings : List Text → List Text
  -- the rate limiter of httprate over the counter of a service, with the limit per minute and a key
  pub rate_status : Service → ℤ → Text → Exec W ℤ
