-- ===== src/Rpc/Unknown.antt =====
-- An access key that the store does not have, from `FetchKeyQuota` of client.go over the network to
-- `GetAccessQuota` of server.go over the store in memory, and back.
use quotacontrol.Prelude.{ℕ, ◌≡◌, ◌≢◌, Bool, true, Option, none, some, List, arith}
use quotacontrol.Prelude.Text.{Text, text_eq}
use quotacontrol.Prelude.Assoc.{lookup}
use quotacontrol.Time.{Time}
use quotacontrol.Proto.Errors.{
  Error, code, code_beq, code_number, target_beq, errors_is, ok, err, rpc, access_key_not_found,
  http_status,
}
use quotacontrol.Proto.Types.{Service, AccessQuota}
use quotacontrol.Cache.{Cache}
use quotacontrol.Client.Fetch.{fetch_key_quota}
use quotacontrol.Mock.Memory.{MemoryStore, find_access_key}
use quotacontrol.Mock.Wiring.{beside, in_memory}
use quotacontrol.Server.{External}
use quotacontrol.Server.Quota.{get_access_quota}
use quotacontrol.Rpc.{JsonLaws, Codecs}
use quotacontrol.Rpc.Wire.{WireError, rpc_error, wire_error, received_error}
use quotacontrol.Rpc.Http.{HttpClient}
use quotacontrol.Rpc.Client.{remote}
use quotacontrol.Rpc.Adapters.{server_methods, quota_client}
use quotacontrol.Rpc.RoundTrip.{Carries}
use quotacontrol.Rpc.Fetches.{remote-fetch_key_quota_refused}

not_200 : http_status (rpc_error (rpc access_key_not_found)).error ≢ 200
unfolding http_status rpc_error
not_200 e = omega arith

module _ {C : Type 0} (ext : External (MemoryStore × C)) (cache : Cache C) (key_version : ℕ)
    (clock : Time) (version : Option ℕ) where
  unknown_refused :
      (access_key : Text) (now : Time) (v : MemoryStore × C)
      → lookup access_key v.0.access_keys ≡ none
      → (server_methods ext (beside cache) in_memory key_version clock version).get_access_quota
          (access_key, now)
          v
        ≡ (err (rpc access_key_not_found), v)
  unfolding server_methods get_access_quota find_access_key errors_is target_beq code_beq
      code_number
  unknown_refused access_key now v absent = ground (arith, absent)

  -- Over a network that carries what the server writes, and a server over the store in memory:
  -- where the client's cache misses the access key and the store does not have it, FetchKeyQuota
  -- fails with the error AccessKeyNotFound and no quota, and leaves the world as the cache left it.
  pub remote-fetch_key_quota_unknown :
      {B : Type 0} (text_of : Error → Text) (put_error : WireError → B)
      (client : HttpClient (MemoryStore × C) B) (codecs : Codecs B) (base : Text)
      → Carries text_of put_error client codecs base
          (server_methods ext (beside cache) in_memory key_version clock version)
      → (P : Text × Time → Type 0) (Q : AccessQuota → Type 0) → JsonLaws codecs.get_access_quota P Q
      → (client_cache : Cache (MemoryStore × C)) (served : Service)
        (match_any : List Text → Text → Bool) (access_key origin : Text) (chain_ids : List ℕ)
        (now : Time) (miss : Error) (w v : MemoryStore × C)
      → P (access_key, now)
      → client_cache.quota.get_access_quota access_key w ≡ (err miss, v)
      → errors_is miss (code access_key_not_found) ≡ true
      → lookup access_key v.0.access_keys ≡ none
      → fetch_key_quota client_cache
          (quota_client (remote client codecs base))
          served
          match_any
          access_key
          origin
          chain_ids
          now
          w
        ≡ (ok (none, some (rpc access_key_not_found)), v)
  unfolding code_beq code_number rpc_error wire_error received_error
  remote-fetch_key_quota_unknown text_of put_error client codecs base net P Q laws client_cache
        served match_any access_key origin chain_ids now miss w v fits missed is_miss absent =
      remote-fetch_key_quota_refused text_of put_error client codecs base
        (server_methods ext (beside cache) in_memory key_version clock version) net P Q laws
        client_cache served match_any access_key origin chain_ids now miss
        (rpc access_key_not_found) w v v fits missed is_miss
        (unknown_refused access_key now v absent) not_200
