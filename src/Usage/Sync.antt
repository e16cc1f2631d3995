-- ===== src/Usage/Sync.antt =====
-- `SyncUsage` of internal/usage/usage.go.
use quotacontrol.Prelude.{ℕ, Option, none, some, List, [], ◌∷◌, ◌++◌, Bool, nat_eq, if◌then◌else◌}
use quotacontrol.Prelude.Int.{ℤ}
use quotacontrol.Prelude.Text.{Text, text_eq}
use quotacontrol.Prelude.Assoc.{Assoc, lookup}
use quotacontrol.Time.{Time}
use quotacontrol.Exec.{Exec, ◌>>=◌, ◌>>◌, pure}
use quotacontrol.Proto.Errors.{Error, joined}
use quotacontrol.Proto.Types.{Service}
use quotacontrol.Usage.{Record, Tracker, or_zero, add_key_usage, add_project_usage, get_updates}

-- `UsageUpdater`: the answers for the single keys come beside the error.
pub record UsageUpdater (W : Type 0) : Type 0 where
  pub sync_access_key_usage :
      Service → Time → Assoc Text ℤ → Exec W (Assoc Text Bool × Option Error)
  pub sync_project_usage : Service → Time → Assoc ℕ ℤ → Exec W (Assoc ℕ Bool × Option Error)

-- `errors.Join`
unfoldable pub join_errors : List Error → Option Error
join_errors [] = none
join_errors (e ∷ es) = elim (join_errors es) [ none ↦ some e | some f ↦ some (joined e f) ]

abbrev pub one : Option Error → List Error
one none = []
one (some e) = e ∷ []

-- The loops over the answers.
unfoldable pub add_back_keys : Time → Assoc Text ℤ → Assoc Text Bool → Tracker → Tracker
add_back_keys now usages [] u = u
add_back_keys now usages ((k, done) ∷ rest) u =
    add_back_keys now usages rest
      (if done then u else add_key_usage k now (or_zero (lookup k usages)) u)

unfoldable pub add_back_projects : Time → Assoc ℕ ℤ → Assoc ℕ Bool → Tracker → Tracker
add_back_projects now usages [] u = u
add_back_projects now usages ((k, done) ∷ rest) u =
    add_back_projects now usages rest
      (if done then u else add_project_usage k now (or_zero (lookup k usages)) u)

module _ {W : Type 0} (updater : UsageUpdater W) (service : Service) where
  -- A call of the updater, beside the tracker.
  abbrev calling : {A : Type 0} → Exec W A → Exec (Tracker × W) A
  calling call (u, w) = let (reply, w') = call w in (reply, (u, w'))

  abbrev changing : (Tracker → Tracker) → Exec (Tracker × W) (Unit {0})
  changing f (u, w) = pure tt (f u, w)

  -- One round of the loop over the updates; the result is its errors.
  unfoldable pub sync_one : Time → Record → Exec (Tracker × W) (List Error)
  sync_one now usages = do
    (key_result, key_err) ← calling (updater.sync_access_key_usage service now usages.by_access_key)
    changing (add_back_keys now usages.by_access_key key_result)
    (project_result, project_err) ←
        calling (updater.sync_project_usage service now usages.by_project_id)
    changing (add_back_projects now usages.by_project_id project_result)
    pure (one key_err ++ one project_err)

  unfoldable pub sync_all : Assoc Time Record → Exec (Tracker × W) (List Error)
  sync_all [] = pure []
  sync_all ((now, usages) ∷ rest) = do
    errs ← sync_one now usages
    more ← sync_all rest
    pure (errs ++ more)

  unfoldable pub sync_usage : Exec (Tracker × W) (Option Error)
  sync_usage (u, w) =
      let (updates, left) = get_updates u in
      (sync_all updates >>= λ errs. pure (join_errors errs)) (left, w)
