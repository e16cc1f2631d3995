-- ===== src/Usage/Logged.antt =====
-- An updater that answers, and a log of what an updater is told and answers.
use quotacontrol.Prelude.{
  ℕ, ◌≡◌, nat_eq, Bool, ◌&&◌, not, Option, List, [], ◌∷◌, ◌==◌, if◌then◌else◌,
}
use quotacontrol.Prelude.Int.{ℤ, pos, ◌+ℤ◌, int_eq}
use quotacontrol.Prelude.Text.{Text, text_eq}
use quotacontrol.Prelude.Assoc.{Assoc, lookup}
use quotacontrol.Time.{Time}
use quotacontrol.Proto.Errors.{Error, Result, ok, err, panic}
use quotacontrol.Proto.Types.{Service}
use quotacontrol.Usage.{or_zero}
use quotacontrol.Usage.Recorded.{is_failed, Once}
use quotacontrol.Usage.Sync.{UsageUpdater}

-- An updater that answers in the states that are `Fine`, with answers that name each key once, as
-- a map does, and stays in these states.
pub record Answers {W : Type 0} (updater : UsageUpdater W) (service : Service) (Fine : W → Type 0)
    : Type 0 where
  pub keys_answered :
      (now : Time) (m : Assoc Text ℤ) (w : W)
      → Fine w
      → (answers : Assoc Text Bool) × (e : Option Error) × (v : W) × (updater.sync_access_key_usage
            service now m w
          ≡ (ok (answers, e), v))
        × Once answers
        × Fine v
  pub projects_answered :
      (now : Time) (m : Assoc ℕ ℤ) (w : W)
      → Fine w
      → (answers : Assoc ℕ Bool) × (e : Option Error) × (v : W) × (updater.sync_project_usage
            service now m w
          ≡ (ok (answers, e), v))
        × Fine v

-- What an updater was told of access keys, and its answers, the last first.
abbrev pub Log : Type 0
Log = List (Time × Assoc Text ℤ × Assoc Text Bool)

-- The usage of a key at a time that the updater was told of and did not answer with false.
abbrev pub taken : Text → Time → Log → ℤ
taken j t [] = pos 0
taken j t ((now, m, answers) ∷ log) =
    taken j t log
    +ℤ (if (now == t) && not (is_failed (lookup j answers)) then or_zero (lookup j m) else pos 0)

-- The updater, with a log beside its state.
abbrev noted :
    {W : Type 0}
    → Time
    → Assoc Text ℤ
    → Log
    → Result (Assoc Text Bool × Option Error) × W
    → Result (Assoc Text Bool × Option Error) × (W × Log)
noted now m log (ok (answers, e), w) = (ok (answers, e), (w, (now, m, answers) ∷ log))
noted now m log (err e, w) = (err e, (w, log))
noted now m log (panic, w) = (panic, (w, log))

abbrev pub logged : {W : Type 0} → UsageUpdater W → UsageUpdater (W × Log)
logged updater = record {
  sync_access_key_usage =
      λ service now m s. noted now m s.1 (updater.sync_access_key_usage service now m s.0);
  sync_project_usage = λ service now m s.
      let (reply, w) = updater.sync_project_usage service now m s.0 in (reply, (w, s.1));
}
