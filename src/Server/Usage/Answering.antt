-- ===== src/Server/Usage/Answering.antt =====
-- `SyncAccessKeyUsage` and `SyncProjectUsage` of server.go, as the updater of a client's tracker.
use quotacontrol.Prelude.{
  ℕ, ◌≡◌, ◌≢◌, refl, inl, inr, nat_eq, Bool, true, false, Option, [], ◌∷◌, ◌++◌, arith, List,
}
use quotacontrol.Prelude.Int.{ℤ}
use quotacontrol.Prelude.Text.{Text, text_eq, text_beq_iff}
use quotacontrol.Prelude.Assoc.{Assoc, insert, lookup, lookup-insert}
use quotacontrol.Time.{Time}
use quotacontrol.Exec.{Result-cases}
use quotacontrol.Proto.Errors.{Error, wrapped, ok, panic}
use quotacontrol.Proto.Types.{Service}
use quotacontrol.Cache.{Cache}
use quotacontrol.Store.{Store}
use quotacontrol.Usage.Recorded.{Once}
use quotacontrol.Usage.Sync.{join_errors}
use quotacontrol.Usage.Logged.{Answers}
use quotacontrol.Server.{External}
use quotacontrol.Server.Usage.{
  sync_keys, sync_projects, sync_access_key_usage, sync_project_usage, server_updater,
}

insert-Once : (k : Text) (b : Bool) (m : Assoc Text Bool) → Once m → Once (insert k b m)
unfolding insert lookup
insert-Once k b [] once = (refl, tt)
insert-Once k b ((j, c) ∷ rest) once = ground (
  arith,
  once.0,
  once.1,
  insert-Once k b rest once.1,
  lookup-insert k j b rest,
  text_beq_iff j k,
  text_beq_iff k j,
)

module _ {W : Type 0} (ext : External W) (cache : Cache W) (store : Store W) (service : Service)
    (Fine : W → Type 0) (parses : (k : Text) → ext.get_project_id k ≢ panic)
    (inserts : (p : ℕ) (k : Text) (now : Time) (n : ℤ) (w : W)
      → Fine w
      → ((store.usage.insert_access_usage p k service now n w).0 ≢ panic)
        × Fine (store.usage.insert_access_usage p k service now n w).1) where
  sync_keys_run :
      (now : Time) (m : Assoc Text ℤ) (answers : Assoc Text Bool) (errs : List Error) (w : W)
      → Fine w
      → Once answers
      → (all : Assoc Text Bool) × (e : Option Error) × (v : W) × (sync_keys ext cache store service
            now m answers errs w
          ≡ (ok (all, e), v))
        × Once all
        × Fine v
  unfolding sync_keys
  sync_keys_run now [] answers errs w fine once = (answers, join_errors errs, w, refl, once, fine)
  sync_keys_run now ((k, n) ∷ rest) answers errs w fine once =
      elim (Result-cases (ext.get_project_id k)) [
        | inr (inl (e, named)) ↦
            let (all, f, v, ran, found, fine') =
              sync_keys_run now rest answers (errs ++ wrapped "key" e ∷ []) w fine once in
            (all, f, v, ground (arith, named, ran), found, fine')
        | inr (inr named) ↦ absurd (parses k named)
        | inl (p, named) ↦
            let (calm, kept) = inserts p k now n w fine in
            let w' = (store.usage.insert_access_usage p k service now n w).1 in
            elim (Result-cases (store.usage.insert_access_usage p k service now n w).0) [
              | inl (u, done) ↦
                  let (all, f, v, ran, found, fine') =
                    sync_keys_run now rest (insert k true answers) errs w' kept
                      (insert-Once k true answers once) in
                  (all, f, v, ground (arith, named, done, ran), found, fine')
              | inr (inl (e, done)) ↦
                  let (all, f, v, ran, found, fine') =
                    sync_keys_run now rest (insert k false answers) (errs ++ wrapped "key" e ∷ [])
                      w' kept (insert-Once k false answers once) in
                  (all, f, v, ground (arith, named, done, ran), found, fine')
              | inr (inr done) ↦ absurd (calm done)
            ]
      ]

  sync_projects_run :
      (now : Time) (m : Assoc ℕ ℤ) (answers : Assoc ℕ Bool) (errs : List Error) (w : W)
      → Fine w
      → (all : Assoc ℕ Bool) × (e : Option Error) × (v : W) × (sync_projects ext cache store service
            now m answers errs w
          ≡ (ok (all, e), v))
        × Fine v
  unfolding sync_projects
  sync_projects_run now [] answers errs w fine = (answers, join_errors errs, w, refl, fine)
  sync_projects_run now ((p, n) ∷ rest) answers errs w fine =
      let (calm, kept) = inserts p [] now n w fine in
      let w' = (store.usage.insert_access_usage p [] service now n w).1 in
      elim (Result-cases (store.usage.insert_access_usage p [] service now n w).0) [
        | inl (u, done) ↦
            let (all, f, v, ran, fine') =
              sync_projects_run now rest (insert p true answers) errs w' kept in
            (all, f, v, ground (arith, done, ran), fine')
        | inr (inl (e, done)) ↦
            let (all, f, v, ran, fine') =
              sync_projects_run now rest (insert p false answers) (errs ++ wrapped "project" e ∷ [])
                w' kept in
            (all, f, v, ground (arith, done, ran), fine')
        | inr (inr done) ↦ absurd (calm done)
      ]

  -- A server whose store does not panic where it is fine, and stays fine, answers every report.
  pub server_updater-Answers : Answers (server_updater ext cache store) service Fine
  unfolding sync_access_key_usage sync_project_usage
  server_updater-Answers = record {
    keys_answered = λ now m w fine. sync_keys_run now m [] [] w fine tt;
    projects_answered = λ now m w fine. sync_projects_run now m [] [] w fine;
  }
