-- ===== src/Client/Lifecycle/Stopped.antt =====
-- The client after its ticker was stopped.
use quotacontrol.Prelude.{ℕ, ◌≡◌, ◌≤◌, refl, ◌+◌, false, suc, List, [], ◌∷◌, arith}
use quotacontrol.Proto.Types.{Service}
use quotacontrol.Usage.Sync.{UsageUpdater}
use quotacontrol.Client.Lifecycle.{
  Life, Action, test_run, enter_loop, fire, receive, serve, test_stop, mark_stop, stop_ticker,
  flush, spend, Step, Trace, tick_received, spent_without_key, here, then_comes, run_refused,
  run_accepted, loop_entered, fired, served, stop_ignored, stop_accepted, stop_marked,
  ticker_stopped, flushed, spent,
}

-- How often a loop has synced.
abbrev pub serves : List Action → ℕ
serves [] = 0
serves (serve ∷ done) = suc (serves done)
serves (_ ∷ done) = serves done

serves_cons : (a : Action) (done : List Action) → serves (a ∷ done) ≡ serves (a ∷ []) + serves done
serves_cons test_run done = omega arith
serves_cons enter_loop done = omega arith
serves_cons fire done = omega arith
serves_cons receive done = omega arith
serves_cons serve done = omega arith
serves_cons test_stop done = omega arith
serves_cons mark_stop done = omega arith
serves_cons stop_ticker done = omega arith
serves_cons flush done = omega arith
serves_cons spend done = omega arith

module _ {W : Type 0} (updater : UsageUpdater W) (service : Service) where
  -- The ticker is stopped, and `n` is the number of loops, waiting or not, less those of later
  -- calls of `Run`.
  record NoTick (n : ℕ) (t : Life W) : Type 0 where
    ticking : t.ticking ≡ false
    tick : t.tick ≡ false
    loops : n ≤ t.looping + t.syncing

  NoTick-Step :
      {n : ℕ} {a : Action} {t u : Life W}
      → Step updater service a t u
      → NoTick n t
      → NoTick n u × (serves (a ∷ []) + u.syncing ≡ t.syncing)
  NoTick-Step (run_refused e) h = (h, omega arith)
  NoTick-Step (run_accepted e) h =
      (record { ticking = h.ticking; tick = h.tick; loops = h.loops }, omega arith)
  NoTick-Step (loop_entered n e) h =
      (record { ticking = h.ticking; tick = h.tick; loops = omega (arith, h.loops) }, omega arith)
  NoTick-Step (fired e) h = cc (e, h.ticking)
  NoTick-Step (tick_received n l k) h = cc (k, h.tick)
  NoTick-Step (served n e u w l c) h = (
    record { ticking = h.ticking; tick = h.tick; loops = omega (arith, h.loops, l) },
    omega (arith, l),
  )
  NoTick-Step (stop_ignored e) h = (h, omega arith)
  NoTick-Step (stop_accepted e) h =
      (record { ticking = h.ticking; tick = h.tick; loops = h.loops }, omega arith)
  NoTick-Step (stop_marked n e) h =
      (record { ticking = h.ticking; tick = h.tick; loops = h.loops }, omega arith)
  NoTick-Step (ticker_stopped n e) h =
      (record { ticking = refl; tick = refl; loops = h.loops }, omega arith)
  NoTick-Step (flushed n e u w l c) h =
      (record { ticking = h.ticking; tick = h.tick; loops = h.loops }, omega arith)
  NoTick-Step (spent k t n) h =
      (record { ticking = h.ticking; tick = h.tick; loops = h.loops }, omega arith)
  NoTick-Step (spent_without_key p t n) h =
      (record { ticking = h.ticking; tick = h.tick; loops = h.loops }, omega arith)

  NoTick-Trace :
      {s t : Life W} {done : List Action} {n : ℕ}
      → NoTick n s
      → Trace updater service s done t
      → NoTick n t × (serves done + t.syncing ≡ s.syncing)
  NoTick-Trace h here = (h, omega arith)
  NoTick-Trace h (then_comes {done = done} a run step) =
      let (before, sum) = NoTick-Trace h run in
      let (after, more) = NoTick-Step step before in
      (after, omega (arith, sum, more, serves_cons a done))

  -- Whatever steps follow once the ticker is stopped and has no tick left, calls of Run and Stop
  -- among them: the loops sync at most once for each that had received a tick and not synced yet,
  -- exactly as often as these have become fewer, and no call of Run leaves its loop.
  pub stopped-serves :
      (s t : Life W) (done : List Action)
      → s.ticking ≡ false
      → s.tick ≡ false
      → Trace updater service s done t
      → (serves done + t.syncing ≡ s.syncing) × (s.looping + s.syncing ≤ t.looping + t.syncing)
  stopped-serves s t done ticking tick run =
      let (after, sum) =
        NoTick-Trace (record { ticking = ticking; tick = tick; loops = omega arith }) run in
      (sum, after.loops)

  -- No call of `Run` or `Stop` is past its test.
  record Quiet (t : Life W) : Type 0 where
    running : t.running ≡ 2
    entering : t.entering ≡ 0
    leaving : t.leaving ≡ 0
    halting : t.halting ≡ 0
    flushing : t.flushing ≡ 0
    syncing : t.syncing ≡ 0
    tick : t.tick ≡ false
    ticking : t.ticking ≡ false
