-- ===== src/Middleware/Verify/Admission.antt =====
-- `VerifyQuota` of middleware/middleware_quota.go: what a request needs to pass it.
use quotacontrol.Prelude.{
  ℕ, ◌≡◌, ◌≢◌, ◌⊎◌, inl, inr, refl, Option, none, some, List, arith, nat_eq, nat_beq_iff,
  Option-cases,
}
use quotacontrol.Prelude.Text.{Text}
use quotacontrol.Time.{Time}
use quotacontrol.Exec.{run_next, pure, ◌>>=◌}
use quotacontrol.Proto.Errors.{Result, ok, err, panic}
use quotacontrol.Proto.Types.{AccessQuota}
use quotacontrol.Client.{Sessions}
use quotacontrol.Middleware.{Context, next, Client, Headers, get_time}
use quotacontrol.Middleware.Verify.{
  Checked, stop, go, project_part, admit_fetched, key_part, decide, finish, verify_quota,
}

module _ (sessions : Sessions) (project_of_key : Text → ℕ) where
  pub record Admitted (ctx after : Context) : Type 0 where
    pub project_known : ctx.auth.session ≡ sessions.project → ctx.auth.project_id ≢ none
    pub key_known : ctx.auth.session ≡ sessions.access_key → ctx.auth.access_key ≢ none
    pub key_matches :
        (id : ℕ) (k : Text)
        → ctx.auth.session ≡ sessions.project
        → ctx.auth.project_id ≡ some id
        → id ≢ 0
        → ctx.auth.access_key ≡ some k
        → project_of_key k ≡ id
    pub only_quota : (after ≡ ctx) ⊎ (after ≡ record ctx { quota = after.quota })

module _ {W : Type 0} (client : Client W) (sessions : Sessions) (project_of_key : Text → ℕ)
    (clock : Time) (chain_ids : List ℕ) (origin : Text) where
  goes_with :
      (id : ℕ) (p : ℕ × Option AccessQuota) (r : Result (Checked (Option AccessQuota)) × W) (v : W)
      → run_next (elim [ stop e ↦ pure (stop e) | go quota ↦ pure (go (id, quota)) ]) r
        ≡ (ok (go p), v)
      → p.0 ≡ id
  goes_with id p (ok (go q), w) v h = ground arith
  goes_with id p (ok (stop e), w) v h = cc
  goes_with id p (err e, w) v h = cc
  goes_with id p (panic, w) v h = cc

  project_known_go :
      (ctx : Context) (p : ℕ × Option AccessQuota) (w v : W)
      → project_part client sessions project_of_key clock chain_ids origin ctx w ≡ (ok (go p), v)
      → ctx.auth.session ≡ sessions.project
      → (ctx.auth.project_id ≢ none) × ((id : ℕ) → ctx.auth.project_id ≡ some id → p.0 ≡ id)
  unfolding project_part
  project_known_go ctx p w v h s = elim (Option-cases ctx.auth.project_id) [
    | inl n ↦ ground (arith, nat_beq_iff ctx.auth.session sessions.project)
    | inr (id, e) ↦ (
      λ n. ground arith,
      λ j ej.
          let got_id =
            goes_with id p
              ((client.fetch_project_quota id chain_ids (get_time clock ctx)
                  >>= admit_fetched client sessions project_of_key clock chain_ids origin ctx id)
                w)
              v (ground (arith, nat_beq_iff ctx.auth.session sessions.project)) in
          ground arith,
    )
  ]

  -- The key part lets a request on only with the key that it needs.
  key_known_go :
      (ctx : Context) (id : ℕ) (found r : Option AccessQuota) (w v : W)
      → key_part client sessions project_of_key clock chain_ids origin ctx id found w
        ≡ (ok (go r), v)
      → (ctx.auth.session ≡ sessions.access_key → ctx.auth.access_key ≢ none)
        × ((k : Text) → id ≢ 0 → ctx.auth.access_key ≡ some k → project_of_key k ≡ id)
  unfolding key_part
  key_known_go ctx id found r w v h = (
    λ s n. ground (arith, nat_beq_iff ctx.auth.session sessions.access_key),
    λ k nz e. ground (arith, nat_beq_iff id 0, nat_beq_iff (project_of_key k) id),
  )

  finish_context :
      (ctx after : Context) (hs : Headers) (r : Option AccessQuota) (w v : W)
      → finish client sessions project_of_key clock chain_ids origin ctx r w
        ≡ (ok (hs, next after), v)
      → (after ≡ ctx) ⊎ (after ≡ record ctx { quota = after.quota })
  unfolding finish
  finish_context ctx after hs none w v h = inl (ground arith)
  finish_context ctx after hs (some q) w v h = inr (ground arith)

  pub decided :
      (ctx : Context) (r : Option AccessQuota) (d : Result (Checked (ℕ × Option AccessQuota)) × W)
      (w v : W)
      → project_part client sessions project_of_key clock chain_ids origin ctx w ≡ d
      → decide client sessions project_of_key clock chain_ids origin ctx w ≡ (ok (go r), v)
      → (p : ℕ × Option AccessQuota) × (u : W) × (d ≡ (ok (go p), u))
        × (key_part client sessions project_of_key clock chain_ids origin ctx p.0 p.1 u
            ≡ (ok (go r), v))
  unfolding decide
  decided ctx r (ok (go p), u) w v e h = (p, u, refl, ground arith)
  decided ctx r (ok (stop f), u) w v e h = absurd (ground arith)
  decided ctx r (err f, u) w v e h = absurd (ground arith)
  decided ctx r (panic, u) w v e h = absurd (ground arith)

  pub verified :
      (ctx after : Context) (hs : Headers) (d : Result (Checked (Option AccessQuota)) × W) (w v : W)
      → decide client sessions project_of_key clock chain_ids origin ctx w ≡ d
      → verify_quota client sessions project_of_key clock chain_ids origin ctx w
        ≡ (ok (hs, next after), v)
      → (r : Option AccessQuota) × (u : W) × (d ≡ (ok (go r), u))
        × (finish client sessions project_of_key clock chain_ids origin ctx r u
            ≡ (ok (hs, next after), v))
  unfolding verify_quota
  verified ctx after hs (ok (go r), u) w v e h = (r, u, refl, ground arith)
  verified ctx after hs (ok (stop f), u) w v e h = absurd (ground arith)
  verified ctx after hs (err f, u) w v e h = absurd (ground arith)
  verified ctx after hs (panic, u) w v e h = absurd (ground arith)

  -- A request that VerifyQuota hands to the next handler has a project where its session is a
  -- project's, and an access key where its session is an access key's; where its session is a
  -- project's and its project is not 0, its key belongs to that project; and nothing but the quota
  -- of its context has changed.
  pub verify_quota-Admitted :
      (ctx after : Context) (hs : Headers) (w v : W)
      → verify_quota client sessions project_of_key clock chain_ids origin ctx w
        ≡ (ok (hs, next after), v)
      → Admitted sessions project_of_key ctx after
  verify_quota-Admitted ctx after hs w v h =
      let (r, u, d, f) = verified ctx after hs _ w v refl h in
      let (p, t, e, k) = decided ctx r _ w u refl d in
      let known = key_known_go ctx p.0 p.1 r t u k in
      record {
        project_known = λ s. (project_known_go ctx p w t e s).0;
        key_known = known.0;
        key_matches = λ id key s i nz a.
            let same = (project_known_go ctx p w t e s).1 id i in ground (arith, known.1 key);
        only_quota = finish_context ctx after hs r u v f;
      }
