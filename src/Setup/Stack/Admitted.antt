-- ===== src/Setup/Stack/Admitted.antt =====
-- `VerifyQuota` over the client itself, for the session of an access key.
use quotacontrol.Prelude.{
  ℕ, ◌≡◌, ◌≢◌, refl, Bool, Option, none, some, List, arith, nat_eq, nat_beq_iff,
}
use quotacontrol.Prelude.Text.{Text}
use quotacontrol.Time.{Time}
use quotacontrol.Exec.{Exec, run_next, on_second}
use quotacontrol.Proto.Errors.{Error, Result, ok, err, panic}
use quotacontrol.Proto.Types.{AccessQuota}
use quotacontrol.Usage.{Tracker}
use quotacontrol.Client.{Sessions}
use quotacontrol.Client.Fetch.{fetch_key_quota}
use quotacontrol.Client.Fetch.Sound.{Passes, fetch_key_quota-Passes}
use quotacontrol.Middleware.{Context, next, Client, Headers, get_time}
use quotacontrol.Middleware.Verify.{go, project_part, key_part, key_fetched, finish, verify_quota}
use quotacontrol.Middleware.Verify.Admission.{verified, decided}
use quotacontrol.Rpc.Adapters.{quota_client}
use quotacontrol.Setup.{QuotaControlClient}
use quotacontrol.Setup.Stack.{middleware_client}

module _ {W : Type 0} (client : Client W) (sessions : Sessions) (project_of_key : Text → ℕ)
    (clock : Time) (chain_ids : List ℕ) (origin : Text) where
  project_skipped :
      (ctx : Context) (w : W)
      → ctx.auth.session ≢ sessions.project
      → project_part client sessions project_of_key clock chain_ids origin ctx w
        ≡ (ok (go (0, none)), w)
  unfolding project_part
  project_skipped ctx w other = ground (arith, nat_beq_iff ctx.auth.session sessions.project)

  fetched :
      (q : AccessQuota) (f : Result (Option AccessQuota × Option Error) × W) (v : W)
      → run_next (key_fetched client sessions project_of_key clock chain_ids origin none) f
        ≡ (ok (go (some q)), v)
      → f ≡ (ok (some q, none), v)
  unfolding key_fetched
  fetched q (ok (none, none), w) v h = ground arith
  fetched q (ok (some p, none), w) v h = ground arith
  fetched q (ok (p, some e), w) v h = ground arith
  fetched q (err e, w) v h = ground arith
  fetched q (panic, w) v h = ground arith

  given :
      (ctx after : Context) (hs : Headers) (r : Option AccessQuota) (q : AccessQuota) (w v : W)
      → finish client sessions project_of_key clock chain_ids origin ctx r w
        ≡ (ok (hs, next after), v)
      → ctx.quota ≡ none
      → after.quota ≡ some q
      → r ≡ some q
  unfolding finish
  given ctx after hs none q w v h empty has = ground arith
  given ctx after hs (some p) q w v h empty has = ground arith

  asked :
      (ctx : Context) (k : Text) (r : Option AccessQuota) (w v : W)
      → ctx.auth.access_key ≡ some k
      → key_part client sessions project_of_key clock chain_ids origin ctx 0 none w ≡ (ok (go r), v)
      → run_next
          (key_fetched client sessions project_of_key clock chain_ids origin none)
          (client.fetch_key_quota k origin chain_ids (get_time clock ctx) w)
        ≡ (ok (go r), v)
  unfolding key_part
  asked ctx k r w v key h = ground arith

  -- The quota that is handed on was fetched for the key.
  verified_fetched :
      (ctx after : Context) (hs : Headers) (k : Text) (q : AccessQuota) (w v : W)
      → ctx.auth.session ≢ sessions.project
      → ctx.auth.access_key ≡ some k
      → ctx.quota ≡ none
      → verify_quota client sessions project_of_key clock chain_ids origin ctx w
        ≡ (ok (hs, next after), v)
      → after.quota ≡ some q
      → (u : W) × (client.fetch_key_quota k origin chain_ids (get_time clock ctx) w
          ≡ (ok (some q, none), u))
  verified_fetched ctx after hs k q w v other key empty h has =
      let (r, u, d, f) =
        verified client sessions project_of_key clock chain_ids origin ctx after hs _ w v refl h in
      let (p, t, e, g) =
        decided client sessions project_of_key clock chain_ids origin ctx r _ w u
          (project_skipped ctx w other) d in
      let is_q = given ctx after hs r q u v f empty has in
      (u, fetched q _ u (asked ctx k (some q) w u key (cc (g, e, is_q))))

on_second_back :
    {V W A : Type 0} (call : Exec W A) (s : V) (w : W) (a : A) (r : V × W)
    → on_second call (s, w) ≡ (ok a, r)
    → call w ≡ (ok a, r.1)
on_second_back call s w a r h = ground (arith, h)

-- With the client of client.go under VerifyQuota, for a session that is not a project's, with an
-- access key and no quota in its context: a request that is handed to the next handler with a quota
-- has one whose key is active and allows the origin and the client's service, and whose project
-- allows the chains.
pub verify_quota-Passes :
    {W : Type 0} (sessions : Sessions) (match_any : List Text → Text → Bool)
    (sleep : ℕ → Exec W (Unit {0})) (c : QuotaControlClient W) (project_of_key : Text → ℕ)
    (clock : Time) (chain_ids : List ℕ) (origin : Text) (ctx after : Context) (hs : Headers)
    (k : Text) (q : AccessQuota) (w v : Tracker × W)
    → ctx.auth.session ≢ sessions.project
    → ctx.auth.access_key ≡ some k
    → ctx.quota ≡ none
    → verify_quota
        (middleware_client sessions match_any sleep c)
        sessions
        project_of_key
        clock
        chain_ids
        origin
        ctx
        w
      ≡ (ok (hs, next after), v)
    → after.quota ≡ some q
    → Passes match_any c.service origin chain_ids q
unfolding middleware_client
verify_quota-Passes sessions match_any sleep c project_of_key clock chain_ids origin ctx after hs k
      q w v other key empty h has =
    let (u, f) =
      verified_fetched (middleware_client sessions match_any sleep c) sessions project_of_key clock
        chain_ids origin ctx after hs k q w v other key empty h has in
    fetch_key_quota-Passes c.cache (quota_client c.rpc) c.service match_any k origin chain_ids
      (get_time clock ctx) q w.1 u.1
      (on_second_back
        (fetch_key_quota c.cache (quota_client c.rpc) c.service match_any k origin chain_ids
          (get_time clock ctx))
        w.0 w.1 (some q, none) u f)
