-- ===== src/Usage/Loss.antt =====
-- `SyncUsage` where the updater answers reports of access keys with an error and no map.
use quotacontrol.Prelude.{◌≡◌, refl, inl, inr, some, [], ◌∷◌, arith}
use quotacontrol.Prelude.Int.{pos}
use quotacontrol.Prelude.Text.{Text, text_eq}
use quotacontrol.Prelude.Assoc.{lookup}
use quotacontrol.Time.{Time}
use quotacontrol.Proto.Errors.{Error, ok}
use quotacontrol.Exec.{Result-cases}
use quotacontrol.Proto.Types.{Service}
use quotacontrol.Usage.{Record, Tracker, new_tracker, get_updates}
use quotacontrol.Usage.Recorded.{recorded, recorded-add_back_projects}
use quotacontrol.Usage.Sync.{UsageUpdater, sync_one, sync_all, sync_usage, add_back_keys}

module _ {W : Type 0} (updater : UsageUpdater W) (service : Service) where
  abbrev pub Fails : Time → Record → Type 0
  Fails now r =
      (w : W)
      → (e : Error) × ((updater.sync_access_key_usage service now r.by_access_key w).0
          ≡ ok ([], some e))

  -- Every record's report of access keys fails.
  abbrev pub AllFail : Tracker → Type 0
  AllFail [] = Unit {0}
  AllFail ((now, r) ∷ rest) = Fails now r × AllFail rest

  module _ (j : Text) (t : Time) where
    one_adds_nothing :
        (now : Time) (r : Record) (u : Tracker) (w : W)
        → Fails now r
        → recorded j t (sync_one updater service now r (u, w)).1.0 ≡ recorded j t u
    unfolding sync_one add_back_keys
    one_adds_nothing now r u w fails =
        let (e, failed) = fails w in
        let v = (updater.sync_access_key_usage service now r.by_access_key w).1 in
        elim (Result-cases (updater.sync_project_usage service now r.by_project_id v).0) [
          | inl ((answers, f), replied) ↦
              ground (
                arith,
                failed,
                replied,
                recorded-add_back_projects now t r.by_project_id answers u j,
              )
          | inr (inl (f, replied)) ↦ ground (arith, failed, replied)
          | inr (inr replied) ↦ ground (arith, failed, replied)
        ]

    all_add_nothing :
        (us u : Tracker) (w : W)
        → AllFail us
        → recorded j t (sync_all updater service us (u, w)).1.0 ≡ recorded j t u
    unfolding sync_all
    all_add_nothing [] u w fails = refl
    all_add_nothing ((now, r) ∷ rest) u w (fails, others) =
        let (v, x) = (sync_one updater service now r (u, w)).1 in
        let kept = one_adds_nothing now r u w fails in
        let later = all_add_nothing rest v x others in
        elim (Result-cases (sync_one updater service now r (u, w)).0) [
          | inl (es, ran) ↦ elim (Result-cases (sync_all updater service rest (v, x)).0) [
            | inl (fs, ended) ↦ ground (arith, ran, ended, kept, later)
            | inr (inl (f, ended)) ↦ ground (arith, ran, ended, kept, later)
            | inr (inr ended) ↦ ground (arith, ran, ended, kept, later)
          ]
          | inr (inl (f, ran)) ↦ ground (arith, ran, kept)
          | inr (inr ran) ↦ ground (arith, ran, kept)
        ]

    pub sync_usage_loses :
        (u : Tracker) (w : W)
        → AllFail u
        → recorded j t (sync_usage updater service (u, w)).1.0 ≡ pos 0
    unfolding sync_usage get_updates lookup
    sync_usage_loses u w fails =
        let lost = all_add_nothing u new_tracker w fails in
        elim (Result-cases (sync_all updater service u (new_tracker, w)).0) [
          | inl (es, ended) ↦ ground (arith, ended, lost)
          | inr (inl (f, ended)) ↦ ground (arith, ended, lost)
          | inr (inr ended) ↦ ground (arith, ended, lost)
        ]
