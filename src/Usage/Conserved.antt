-- ===== src/Usage/Conserved.antt =====
-- `SyncUsage` with a log of what its updater is told and answers.
use quotacontrol.Prelude.{
  ◌≡◌, ◌⊎◌, inl, inr, refl, nat_eq, true, false, Option, none, List, [], ◌∷◌, ◌++◌, arith, ◌==◌,
  if◌then◌else◌, Bool-cases,
}
use quotacontrol.Prelude.Int.{ℤ, pos, ◌+ℤ◌, IsInt64, int_eq, int_beq_iff, int_laws}
use quotacontrol.Prelude.Text.{Text, text_eq}
use quotacontrol.Prelude.Assoc.{lookup}
use quotacontrol.Time.{Time}
use quotacontrol.Proto.Errors.{Error, ok}
use quotacontrol.Proto.Types.{Service}
use quotacontrol.Usage.{Record, Tracker, or_zero, get_updates, new_tracker}
use quotacontrol.Usage.Recorded.{recorded, recorded-add_back_keys, recorded-add_back_projects}
use quotacontrol.Usage.Logged.{Answers, Log, taken, logged}
use quotacontrol.Usage.Balance.{swap, regroup, left_zero, right_zero, balance}
use quotacontrol.Usage.Sync.{
  UsageUpdater, join_errors, add_back_keys, add_back_projects, one, sync_one, sync_all, sync_usage,
}

-- A tracker with one record for each time, as a map has.
abbrev pub OneEach : Tracker → Type 0
OneEach [] = Unit {0}
OneEach ((t, r) ∷ rest) = (lookup t rest ≡ none) × OneEach rest

recorded-none : (j : Text) (t : Time) (u : Tracker) → lookup t u ≡ none → recorded j t u ≡ pos 0
unfolding lookup
recorded-none j t u absent = ground arith

module _ {W : Type 0} (updater : UsageUpdater W) (service : Service) (Fine : W → Type 0)
    (acc : Answers updater service Fine) (j : Text) (t : Time) where
  -- What a record of a time has for the key, if it is the record of `t`.
  abbrev share : Time → Record → ℤ
  share now r = if now == t then or_zero (lookup j r.by_access_key) else pos 0

  round :
      (now : Time) (r : Record) (u : Tracker) (w : W) (log : Log)
      → Fine w
      → IsInt64 (share now r)
      → ((now == t) ≡ false) ⊎ (recorded j t u ≡ pos 0)
      → (es : List Error) × (v : Tracker) × (x : W) × (after : Log) × (sync_one
            (logged updater)
            service
            now
            r
            (u, (w, log))
          ≡ (ok es, (v, (x, after))))
        × (recorded j t v +ℤ taken j t after ≡ (recorded j t u +ℤ share now r) +ℤ taken j t log)
        × (((now == t) ≡ true) ⊎ (recorded j t v ≡ recorded j t u))
        × Fine x
  unfolding sync_one
  round now r u w log fine fits clear =
      let (answers, e, x, called, once, fine') = acc.keys_answered now r.by_access_key w fine in
      let (others, f, y, called', fine'') = acc.projects_answered now r.by_project_id x fine' in
      let u' = add_back_keys now r.by_access_key answers u in
      let back = recorded-add_back_keys now t r.by_access_key answers u j once in
      let apart = recorded-add_back_projects now t r.by_project_id others u' j in
      (
        one e ++ one f,
        add_back_projects now r.by_project_id others u',
        y,
        (now, r.by_access_key, answers) ∷ log,
        ground (arith, called, called'),
        cc (
          apart,
          back,
          balance (now == t) (lookup j answers) (lookup j r.by_access_key) (recorded j t u)
              (taken j t log) fits clear,
        ),
        elim (Bool-cases (now == t)) [
          | inl hit ↦ inl hit
          | inr other ↦ inr (ground (arith, apart, back, other))
        ],
        fine'',
      )

  recorded_cons :
      (now : Time) (r : Record) (rest : Tracker)
      → recorded j t ((now, r) ∷ rest)
        ≡ (if now == t then or_zero (lookup j r.by_access_key) else recorded j t rest)
  unfolding lookup
  recorded_cons now r rest = ground arith

  rest_none :
      (now : Time) (rest : Tracker)
      → lookup now rest ≡ none
      → (now == t) ≡ true
      → recorded j t rest ≡ pos 0
  rest_none now rest absent hit = recorded-none j t rest (ground (arith, int_beq_iff now t))

  recorded-share :
      (now : Time) (r : Record) (rest : Tracker)
      → lookup now rest ≡ none
      → share now r +ℤ recorded j t rest ≡ recorded j t ((now, r) ∷ rest)
  recorded-share now r rest absent = elim (Bool-cases (now == t)) [
    | inl hit ↦ cc (
      hit,
      rest_none now rest absent hit,
      recorded_cons now r rest,
      right_zero (or_zero (lookup j r.by_access_key)),
    )
    | inr miss ↦ cc (miss, recorded_cons now r rest, left_zero (recorded j t rest))
  ]

  fits_share :
      (now : Time) (r : Record) (rest : Tracker)
      → lookup now rest ≡ none
      → IsInt64 (recorded j t ((now, r) ∷ rest))
      → IsInt64 (share now r) × IsInt64 (recorded j t rest)
  fits_share now r rest absent fits = elim (Bool-cases (now == t)) [
    | inl hit ↦ ground (arith, hit, rest_none now rest absent hit, recorded_cons now r rest, fits)
    | inr miss ↦ ground (arith, miss, recorded_cons now r rest, fits)
  ]

  rounds :
      (us : Tracker) (u : Tracker) (w : W) (log : Log)
      → Fine w
      → OneEach us
      → IsInt64 (recorded j t us)
      → (lookup t us ≡ none) ⊎ (recorded j t u ≡ pos 0)
      → (es : List Error) × (v : Tracker) × (x : W) × (after : Log) × (sync_all
            (logged updater)
            service
            us
            (u, (w, log))
          ≡ (ok es, (v, (x, after))))
        × (recorded j t v +ℤ taken j t after ≡ (recorded j t u +ℤ recorded j t us) +ℤ taken j t log)
        × Fine x
  unfolding sync_all lookup
  rounds [] u w log fine each fits clear = ([], u, w, log, refl, omega int_laws, fine)
  rounds ((now, r) ∷ rest) u w log fine each fits clear =
      let (now_fits, rest_fits) = fits_share now r rest each.0 fits in
      let (es, v, x, after, ran, sum, kept, fine') =
        round now r u w log fine now_fits (ground (arith, clear)) in
      let (fs, v', x', after', ran', sum', fine'') =
        rounds rest v x after fine' each.1 rest_fits
          (ground (arith, clear, kept, each.0, int_beq_iff now t)) in
      (
        es ++ fs,
        v',
        x',
        after',
        ground (arith, ran, ran'),
        cc (
          sum',
          swap (recorded j t v) (recorded j t rest) (taken j t after),
          sum,
          regroup (recorded j t u) (share now r) (taken j t log) (recorded j t rest),
          recorded-share now r rest each.0,
        ),
        fine'',
      )

  nothing_recorded : recorded j t new_tracker ≡ pos 0
  unfolding lookup
  nothing_recorded = refl

  -- For an updater that answers every report in the states that are fine for it, with an answer for
  -- a key at most once, and stays in these states, and a tracker with one record for each time and
  -- an int64 usage of the key: SyncUsage ends, and what the tracker has for the key at the time,
  -- together with what the updater was ever told of it and did not answer with false, is what it
  -- was before.
  pub sync_usage-Conserves :
      (u : Tracker) (w : W) (log : Log)
      → Fine w
      → OneEach u
      → IsInt64 (recorded j t u)
      → (e : Option Error) × (v : Tracker) × (x : W) × (after : Log) × (sync_usage
            (logged updater)
            service
            (u, (w, log))
          ≡ (ok e, (v, (x, after))))
        × (recorded j t v +ℤ taken j t after ≡ recorded j t u +ℤ taken j t log)
  unfolding sync_usage get_updates
  sync_usage-Conserves u w log fine each fits =
      let (es, v, x, after, ran, sum, fine') =
        rounds u new_tracker w log fine each fits (inr nothing_recorded) in
      (
        join_errors es,
        v,
        x,
        after,
        ground (arith, ran),
        cc (sum, nothing_recorded, left_zero (recorded j t u)),
      )
