-- ===== src/Tests/Lives.antt =====
-- Syncs of a tracker, and the client's `Run` and `Stop`.
use quotacontrol.Prelude.{
  ◌≡◌, ◌≤◌, ◌+◌, refl, false, Option, none, [], ◌∷◌, arith, Option-cases, ◌≢◌, ℕ, nat_eq, inl, inr,
}
use quotacontrol.Prelude.Int.{ℤ, pos, ◌+ℤ◌, IsInt64, int_eq}
use quotacontrol.Prelude.Text.{Text, codes, text_eq, text_beq}
use quotacontrol.Prelude.Assoc.{lookup, insert, lookup-insert}
use quotacontrol.Time.{Time}
use quotacontrol.Proto.Errors.{Error, ok, panic}
use quotacontrol.Cache.Redis.InMemory.{Server}
use quotacontrol.Mock.Memory.{MemoryStore, insert_access_usage}
use quotacontrol.Mock.Wiring.{beside, in_memory}
use quotacontrol.Store.{Store}
use quotacontrol.Server.Usage.{server_updater}
use quotacontrol.Server.Usage.Answering.{server_updater-Answers}
use quotacontrol.Tests.Keys.{outside, cache, keys, store_of}
use quotacontrol.Usage.{Record, new_record, add_to, Tracker, get_updates, add_key_usage}
use quotacontrol.Usage.Recorded.{recorded}
use quotacontrol.Usage.Sync.{UsageUpdater, sync_usage, sync_all, join_errors}
use quotacontrol.Client.Lifecycle.{
  Life, test_run, enter_loop, serve, run_accepted, loop_entered, served, Trace, here, then_comes,
  is_running,
}
use quotacontrol.Client.Lifecycle.Stopped.{serves, stopped-serves}
use quotacontrol.Usage.Logged.{Answers, Log, taken, logged}
use quotacontrol.Usage.Conserved.{OneEach, sync_usage-Conserves}

abbrev World : Type 0
World = MemoryStore × Server

abbrev memory : Store World
memory = in_memory

-- The server of server.go over a store in memory that has service 1.
abbrev updater : UsageUpdater World
updater = server_updater outside (beside cache) memory

abbrev Has : World → Type 0
Has w = lookup 1 w.0.usage ≢ none

abbrev start : World
start = (record (store_of keys) { usage = (1, new_record) ∷ [] }, [])

start-Has : Has start
unfolding lookup
start-Has e = cc e

inserts :
    (p : ℕ) (k : Text) (now : Time) (n : ℤ) (w : World)
    → Has w
    → ((memory.usage.insert_access_usage p k 1 now n w).0 ≢ panic)
      × Has (memory.usage.insert_access_usage p k 1 now n w).1
unfolding insert_access_usage
inserts p k now n w has = elim (Option-cases (lookup 1 w.0.usage)) [
  | inl missing ↦ absurd (has missing)
  | inr (r, found) ↦ elim (Option-cases (lookup k r.by_access_key)) [
    | inl new ↦
        let r' : Record = record r { by_access_key = insert k n r.by_access_key } in
        (
          λ e. ground (arith, found, e),
          λ e. ground (arith, found, new, lookup-insert 1 1 r' w.0.usage, e),
        )
    | inr (old, counted) ↦
        let r' : Record = record r { by_access_key = add_to k n r.by_access_key } in
        (
          λ e. ground (arith, found, e),
          λ e. ground (arith, found, counted, lookup-insert 1 1 r' w.0.usage, e),
        )
  ]
]

updater-Answers : Answers updater 1 Has
updater-Answers = server_updater-Answers outside (beside cache) memory 1 Has (λ k e. cc e) inserts

abbrev spent_two : Tracker
spent_two =
    (
      pos 0,
      record { by_project_id = []; by_access_key = (codes "a", pos 4) ∷ (codes "b", pos 9) ∷ [] },
    )
    ∷ []

spent_two-OneEach : OneEach spent_two
unfolding lookup
spent_two-OneEach = (refl, tt)

spent_two-IsInt64 : IsInt64 (recorded (codes "b") (pos 0) spent_two)
unfolding lookup text_beq
spent_two-IsInt64 = (omega arith, omega arith)

sync_usage-Conserves_example :
    (e : Option Error) × (v : Tracker) × (x : World) × (after : Log) × (sync_usage
        (logged updater)
        1
        (spent_two, (start, []))
      ≡ (ok e, (v, (x, after))))
    × (recorded (codes "b") (pos 0) v +ℤ taken (codes "b") (pos 0) after
        ≡ recorded (codes "b") (pos 0) spent_two +ℤ taken (codes "b") (pos 0) [])
sync_usage-Conserves_example =
    sync_usage-Conserves updater 1 Has updater-Answers (codes "b") (pos 0) spent_two start []
      start-Has spent_two-OneEach spent_two-IsInt64

-- A client that ran, was stopped, and has synced.
abbrev stopped_life : Life World
stopped_life = record {
  running = 2;
  ticking = false;
  tick = false;
  entering = 0;
  looping = 1;
  syncing = 0;
  leaving = 0;
  halting = 0;
  flushing = 0;
  tracker = [];
  world = start;
}

-- One whose loop had received a tick, which syncs, and then `Run` is called again.
abbrev holding_life : Life World
holding_life = record stopped_life { looping = 0; syncing = 1 }

abbrev synced : Tracker × World
synced = (sync_usage updater 1 ([], start)).1

abbrev synced_life : Life World
synced_life = record holding_life { looping = 1; syncing = 0; tracker = synced.0; world = synced.1 }

abbrev entering_life : Life World
entering_life = record synced_life { entering = 1 }

abbrev again_life : Life World
again_life = record synced_life { running = 1; looping = 2 }

nothing_synced : sync_usage updater 1 ([], start) ≡ (ok none, synced)
unfolding sync_usage sync_all get_updates join_errors
nothing_synced = refl

runs_again : Trace updater 1 holding_life (enter_loop ∷ test_run ∷ serve ∷ []) again_life
unfolding is_running
runs_again =
    then_comes {t = entering_life} enter_loop
      (then_comes {t = synced_life} test_run
        (then_comes serve here (served 0 none synced.0 synced.1 refl nothing_synced))
        (run_accepted refl))
      (loop_entered 0 refl)

stopped-serves_example :
    (serves (enter_loop ∷ test_run ∷ serve ∷ []) + again_life.syncing ≡ holding_life.syncing)
    × (holding_life.looping + holding_life.syncing ≤ again_life.looping + again_life.syncing)
stopped-serves_example =
    stopped-serves updater 1 holding_life again_life (enter_loop ∷ test_run ∷ serve ∷ []) refl refl
      runs_again

abbrev spent_life : Life World
spent_life = record stopped_life { tracker = add_key_usage (codes "a") (pos 0) (pos 4) [] }
