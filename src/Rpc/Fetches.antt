-- ===== src/Rpc/Fetches.antt =====
-- `FetchKeyQuota` of client.go with the RPC client, over the network.
use quotacontrol.Prelude.{
  ℕ, Bool, true, ◌≡◌, ◌≢◌, ap, sym, subst, none, some, List, arith, if◌then◌else◌, ◌||◌,
}
use quotacontrol.Prelude.Text.{Text}
use quotacontrol.Time.{Time}
use quotacontrol.Proto.Errors.{
  Error, code, code_beq, errors_is, ok, err, access_key_not_found, project_not_found, http_status,
}
use quotacontrol.Proto.Types.{Service, AccessQuota}
use quotacontrol.Cache.{Cache}
use quotacontrol.Client.Fetch.{load_key_quota, check_key_quota, fetch_key_quota}
use quotacontrol.Rpc.{JsonLaws, QuotaControl, Codecs}
use quotacontrol.Rpc.Wire.{WireError, rpc_error}
use quotacontrol.Rpc.Client.{remote}
use quotacontrol.Rpc.Http.{HttpClient}
use quotacontrol.Rpc.Adapters.{quota_client}
use quotacontrol.Rpc.RoundTrip.{Carries, over_wire, Travels}
use quotacontrol.Rpc.Faithful.{remote_get_access_quota_lem, over_wire_code}

module _ {W B : Type 0} (text_of : Error → Text) (put_error : WireError → B)
    (client : HttpClient W B) (codecs : Codecs B) (base : Text) (service : QuotaControl W)
    (net : Carries text_of put_error client codecs base service) where
  -- Over a network that carries what the server writes, where the cache misses the access key and
  -- the server refuses the quota with an error whose HTTP status is not 200: FetchKeyQuota fails
  -- with the error from the wire where its code is that of an unknown access key or project, and
  -- otherwise returns neither a quota nor an error.
  pub remote-fetch_key_quota_refused :
      (P : Text × Time → Type 0) (Q : AccessQuota → Type 0)
      (laws : JsonLaws codecs.get_access_quota P Q) (cache : Cache W) (served : Service)
      (match_any : List Text → Text → Bool) (access_key origin : Text) (chain_ids : List ℕ)
      (now : Time) (miss e : Error) (w v u : W)
      → P (access_key, now)
      → cache.quota.get_access_quota access_key w ≡ (err miss, v)
      → errors_is miss (code access_key_not_found) ≡ true
      → service.get_access_quota (access_key, now) v ≡ (err e, u)
      → http_status (rpc_error e).error ≢ 200
      → fetch_key_quota cache
          (quota_client (remote client codecs base))
          served
          match_any
          access_key
          origin
          chain_ids
          now
          w
        ≡ (
          ok (
            none,
            if code_beq (rpc_error e).error access_key_not_found
                  || code_beq (rpc_error e).error project_not_found
                then some (over_wire text_of e)
                else none,
          ),
          u,
        )
  unfolding fetch_key_quota load_key_quota check_key_quota
  remote-fetch_key_quota_refused P Q laws cache served match_any access_key origin chain_ids now
        miss e w v u fits missed is_miss called bad =
      ground (
        arith,
        missed,
        is_miss,
        called,
        bad,
        remote_get_access_quota_lem text_of put_error client codecs base service net P Q laws
            (access_key, now) v fits (subst (Travels Q) (sym (ap (λ p. p.0) called)) bad),
        over_wire_code text_of e access_key_not_found,
        over_wire_code text_of e project_not_found,
      )
