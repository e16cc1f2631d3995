-- ===== src/Client/Lifecycle.antt =====
-- `Run` and `Stop` of client.go, as steps of calls that may overlap. The step of a goroutine is one of
-- its operations on `running` and on the ticker, a spend, or a sync, which stands for one step. The
-- goroutine that waits for the context calls `Stop`, as anyone may. A stopped ticker drops its tick, as of Go 1.23.
pub mod Stopped
use quotacontrol.Prelude.{ℕ, Bool, true, false, not, ◌||◌, ◌≡◌, suc, Option, List, [], ◌∷◌, nat_beq}
use quotacontrol.Prelude.Int.{ℤ}
use quotacontrol.Prelude.Text.{Text}
use quotacontrol.Time.{Time}
use quotacontrol.Proto.Errors.{Error, ok}
use quotacontrol.Proto.Types.{Service}
use quotacontrol.Usage.{Tracker, add_key_usage, add_project_usage}
use quotacontrol.Usage.Sync.{UsageUpdater, sync_usage}

-- The client's fields, and how many calls stand at each place of their code.
pub record Life (W : Type 0) : Type 0 where
  pub running : ℕ
  pub ticking : Bool
  -- a tick that no loop has received yet
  pub tick : Bool
  -- `Run`: past its test, waiting in its loop, and past the receipt of a tick
  pub entering : ℕ
  pub looping : ℕ
  pub syncing : ℕ
  -- `Stop`: past its test, past the store of 2, and past the ticker's stop
  pub leaving : ℕ
  pub halting : ℕ
  pub flushing : ℕ
  pub tracker : Tracker
  pub world : W

unfoldable pub is_running : {W : Type 0} → Life W → Bool
is_running s = nat_beq s.running 1

unfoldable pub is_stopping : {W : Type 0} → Life W → Bool
is_stopping s = nat_beq s.running 2

-- `if !c.isRunning() || c.isStopping() { return }`
unfoldable pub ignores_stop : {W : Type 0} → Life W → Bool
unfolding is_running is_stopping
ignores_stop s = not (is_running s) || is_stopping s

pub data Action : Type 0 where
  test_run enter_loop fire receive serve test_stop mark_stop stop_ticker flush spend : Action

module _ {W : Type 0} (updater : UsageUpdater W) (service : Service) where
  pub data Step : Action → Life W → Life W → Type 0 where
    run_refused : {s : Life W} → is_running s ≡ true → Step test_run s s
    run_accepted :
        {s : Life W}
        → is_running s ≡ false
        → Step test_run s (record s { entering = suc s.entering })
    loop_entered :
        {s : Life W} (n : ℕ)
        → s.entering ≡ suc n
        → Step enter_loop s (record s { entering = n; running = 1; looping = suc s.looping })
    fired : {s : Life W} → s.ticking ≡ true → Step fire s (record s { tick = true })
    tick_received :
        {s : Life W} (n : ℕ)
        → s.looping ≡ suc n
        → s.tick ≡ true
        → Step receive s (record s { tick = false; looping = n; syncing = suc s.syncing })
    served :
        {s : Life W} (n : ℕ) (e : Option Error) (u : Tracker) (w : W)
        → s.syncing ≡ suc n
        → sync_usage updater service (s.tracker, s.world) ≡ (ok e, (u, w))
        → Step serve s (record s { looping = suc s.looping; syncing = n; tracker = u; world = w })
    stop_ignored : {s : Life W} → ignores_stop s ≡ true → Step test_stop s s
    stop_accepted :
        {s : Life W}
        → ignores_stop s ≡ false
        → Step test_stop s (record s { leaving = suc s.leaving })
    stop_marked :
        {s : Life W} (n : ℕ)
        → s.leaving ≡ suc n
        → Step mark_stop s (record s { leaving = n; running = 2; halting = suc s.halting })
    ticker_stopped :
        {s : Life W} (n : ℕ)
        → s.halting ≡ suc n
        → Step stop_ticker s
            (record s { halting = n; ticking = false; tick = false; flushing = suc s.flushing })
    flushed :
        {s : Life W} (n : ℕ) (e : Option Error) (u : Tracker) (w : W)
        → s.flushing ≡ suc n
        → sync_usage updater service (s.tracker, s.world) ≡ (ok e, (u, w))
        → Step flush s (record s { flushing = n; tracker = u; world = w })
    spent :
        {s : Life W} (access_key : Text) (now : Time) (usage : ℤ)
        → Step spend s (record s { tracker = add_key_usage access_key now usage s.tracker })
    spent_without_key :
        {s : Life W} (project_id : ℕ) (now : Time) (usage : ℤ)
        → Step spend s (record s { tracker = add_project_usage project_id now usage s.tracker })

  -- The runs from `s`, with their actions, the last one first.
  pub data Trace (s : Life W) : List Action → Life W → Type 0 where
    here : Trace s [] s
    then_comes :
        {done : List Action} {t u : Life W} (a : Action)
        → Trace s done t
        → Step a t u
        → Trace s (a ∷ done) u

-- A new client.
abbrev pub new_life : {W : Type 0} → W → Life W
new_life w = record {
  running = 0;
  ticking = true;
  tick = false;
  entering = 0;
  looping = 0;
  syncing = 0;
  leaving = 0;
  halting = 0;
  flushing = 0;
  tracker = [];
  world = w;
}
