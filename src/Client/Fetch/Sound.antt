-- ===== src/Client/Fetch/Sound.antt =====
-- `FetchKeyQuota` of client.go, against what the checks mean.
use quotacontrol.Prelude.{
  ℕ, ◌≡◌, ◌≢◌, ◌⊎◌, inl, inr, Bool, true, false, none, some, List, [], Among, All, arith,
  Option-cases,
}
use quotacontrol.Prelude.Text.{Text}
use quotacontrol.Time.{Time}
use quotacontrol.Exec.{run_next}
use quotacontrol.Proto.Errors.{Result, ok, err, panic}
use quotacontrol.Proto.Types.{Service, AccessKey, AccessQuota, ProjectInfo}
use quotacontrol.Proto.Access.{validate_origin, validate_service}
use quotacontrol.Proto.Access.Meaning.{
  validate_service_iff, validate_chains_iff, validate_origin_iff,
}
use quotacontrol.Cache.{Cache}
use quotacontrol.Cache.RedisCache.{key_of}
use quotacontrol.Client.{QuotaClient}
use quotacontrol.Client.Fetch.{
  Fetched, quota_chains, validate_access_key, check_key_quota, fetch_key_quota, load_key_quota,
}

-- What a checked quota satisfies, stated without the code's tests.
pub record Passes (match_any : List Text → Text → Bool) (service : Service) (origin : Text)
    (chain_ids : List ℕ) (q : AccessQuota) : Type 0 where
  pub info : ProjectInfo
  pub key : AccessKey
  pub has_info : q.info ≡ some info
  pub has_key : q.access_key ≡ some key
  pub active : key.active ≡ true
  pub origin_allowed :
      ((origin ≡ []) × (key.require_origin ≡ false))
      ⊎ ((origin ≢ []) × (match_any key.allowed_origins origin ≡ true))
  pub service_allowed : (key.allowed_services ≡ []) ⊎ Among service key.allowed_services
  pub chains_allowed : (info.chain_ids ≡ []) ⊎ All (λ id. Among id info.chain_ids) chain_ids

validated :
    (match_any : List Text → Text → Bool) (service : Service) (k : AccessKey) (origin : Text)
    → validate_access_key match_any service k origin ≡ none
    → (k.active ≡ true)
      × (validate_origin match_any k origin ≡ true)
      × (validate_service k service ≡ true)
unfolding validate_access_key
validated match_any service k origin h = ground arith

module _ {W : Type 0} (cache : Cache W) (quota_client : QuotaClient W) (service : Service) where
  checked :
      (match_any : List Text → Text → Bool) (origin : Text) (chain_ids : List ℕ) (f : Fetched)
      (q : AccessQuota) (w w' : W)
      → check_key_quota cache quota_client service match_any origin chain_ids f w
        ≡ (ok (some q, none), w')
      → Passes match_any service origin chain_ids q
  unfolding check_key_quota quota_chains key_of
  checked match_any origin chain_ids (none, e) q w w' h = cc
  checked match_any origin chain_ids (some p, e) q w w' h = elim (Option-cases p.info) [
    | inl n ↦ ground arith
    | inr (i, ei) ↦ elim (Option-cases p.access_key) [
      | inl n ↦ ground arith
      | inr (k, ek) ↦
          let same : p ≡ q = ground arith in
          let v = validated match_any service k origin (ground arith) in
          record {
            info = i;
            key = k;
            has_info = ground arith;
            has_key = ground arith;
            active = v.0;
            origin_allowed = (validate_origin_iff match_any k origin).0 v.1;
            service_allowed = (validate_service_iff k service).0 v.2;
            chains_allowed = (validate_chains_iff i chain_ids).0 (ground arith);
          }
    ]
  ]

  checked_run :
      (match_any : List Text → Text → Bool) (origin : Text) (chain_ids : List ℕ) (q : AccessQuota)
      (r : Result Fetched × W) (w' : W)
      → run_next (check_key_quota cache quota_client service match_any origin chain_ids) r
        ≡ (ok (some q, none), w')
      → Passes match_any service origin chain_ids q
  checked_run match_any origin chain_ids q (ok f, w) w' h =
      checked match_any origin chain_ids f q w w' h
  checked_run match_any origin chain_ids q (err e, w) w' h = cc
  checked_run match_any origin chain_ids q (panic, w) w' h = cc

  -- A quota of an access key that FetchKeyQuota returns without an error has an active key, which
  -- allows the origin and the client's service, and a project that allows the chains.
  pub fetch_key_quota-Passes :
      (match_any : List Text → Text → Bool) (access_key origin : Text) (chain_ids : List ℕ)
      (now : Time) (q : AccessQuota) (w w' : W)
      → fetch_key_quota cache quota_client service match_any access_key origin chain_ids now w
        ≡ (ok (some q, none), w')
      → Passes match_any service origin chain_ids q
  unfolding fetch_key_quota
  fetch_key_quota-Passes match_any access_key origin chain_ids now q w w' h =
      checked_run match_any origin chain_ids q
        (load_key_quota cache quota_client service access_key now w) w' h
