-- ===== src/Tests/Wires.antt =====
-- The RPC client and server, over a network that loses nothing.
use quotacontrol.Prelude.{
  ◌≡◌, ◌≢◌, refl, ap, Bool, true, false, none, some, [], ◌∷◌, ◌++◌, arith, if◌then◌else◌, ◌==◌,
  ◌||◌,
}
use quotacontrol.Prelude.Int.{pos}
use quotacontrol.Prelude.Text.{Text, codes, text_eq, text_beq}
use quotacontrol.Prelude.Assoc.{lookup, insert}
use quotacontrol.Exec.{Exec, got}
use quotacontrol.Proto.Errors.{
  Error, wrapped, with_cause, joined, webrpc_endpoint, is_exactly, target_beq, ok, err, rpc, plain,
  code, errors_is, access_key_not_found, code_beq, code_number, project_not_found, aborted,
  http_status,
}
use quotacontrol.Cache.Redis.InMemory.{Server}
use quotacontrol.Cache.RedisCache.{get_quota}
use quotacontrol.Client.Fetch.{fetch_key_quota}
use quotacontrol.Mock.Memory.{MemoryStore, find_access_key}
use quotacontrol.Mock.Wiring.{beside, in_memory}
use quotacontrol.Server.{External}
use quotacontrol.Server.Quota.{get_access_quota}
use quotacontrol.Server.Usage.{sync_access_key_usage, sync_keys}
use quotacontrol.Usage.Recorded.{recorded}
use quotacontrol.Usage.{Tracker}
use quotacontrol.Usage.Sync.{sync_usage, join_errors}
use quotacontrol.Rpc.{QuotaControl, Request, path_prefix}
use quotacontrol.Rpc.Wire.{rpc_error}
use quotacontrol.Rpc.Server.{
  serve_http, answer, recovered, serve_json, routes, serve_get_access_quota,
}
use quotacontrol.Rpc.MediaType.{media_type}
use quotacontrol.Rpc.Client.{url, remote}
use quotacontrol.Rpc.Http.{HttpClient, Arrived, call_json}
use quotacontrol.Rpc.Adapters.{server_methods, quota_client, rpc_updater}
use quotacontrol.Rpc.RoundTrip.{Carries, arrived, post, over_wire, crossed, replied}
use quotacontrol.Rpc.Faithful.{errors_is-over_wire, serve_http-Guarded}
use quotacontrol.Rpc.Fetches.{remote-fetch_key_quota_refused}
use quotacontrol.Rpc.Unknown.{remote-fetch_key_quota_unknown}
use quotacontrol.Rpc.Losses.{remote-sync_usage_loses}
use quotacontrol.Tests.Bodies.{
  Body, key_asked, refused, get_refused, get_asked, codecs, quota_json-Laws, keys_json-Laws,
}
use quotacontrol.Tests.Keys.{outside, cache, keys, store_of}

abbrev pub World : Type 0
World = MemoryStore × Server

abbrev start : World
start = (store_of keys, [])

-- Every error has the same text.
abbrev text_of : Error → Text
text_of e = codes "error"

abbrev pub service : QuotaControl World
service = server_methods outside (beside cache) in_memory 1 (pos 0) none

-- No key names a project.
abbrev unnamed : External World
unnamed = record outside { get_project_id = λ key. err (plain "malformed") }

abbrev failing : QuotaControl World
failing = server_methods unnamed (beside cache) in_memory 1 (pos 0) none

abbrev sent_to : QuotaControl World → Text → Body → Exec World (Arrived Body)
sent_to service path b w =
    let served =
      serve_http text_of refused codecs service
        (record {
          verb = codes "POST";
          path = path;
          content_type = codes "application/json";
          body = got b;
        })
        w in
    if served.0.panics
    then (err (plain "EOF"), served.1)
    else (ok (arrived served.0.response), served.1)

abbrev network : QuotaControl World → HttpClient World Body
network service = record {
  send = sent_to service;
  url_error = λ u. none;
  context_error = none;
  get_error = get_refused;
}

network-Carries :
    (service : QuotaControl World) → Carries text_of refused (network service) codecs [] service
unfolding get_refused
network-Carries service = record {
  error_back = λ e. refl;
  live = refl;
  url_fine = λ name. refl;
  carried = λ name b w fine. ground (arith, fine);
}

not_found_status : http_status (rpc_error (rpc access_key_not_found)).error ≢ 200
unfolding http_status rpc_error
not_found_status e = omega arith

aborted_status : http_status (rpc_error (rpc aborted)).error ≢ 200
unfolding http_status rpc_error
aborted_status e = omega arith

-- The key "z" is not in the store.
not_found :
    service.get_access_quota (codes "z", pos 0) start ≡ (err (rpc access_key_not_found), start)
unfolding server_methods get_access_quota errors_is code_beq code_number lookup insert
    find_access_key text_beq
not_found = refl

-- The client's cache misses the key.
missed :
    (beside cache).quota.get_access_quota (codes "z") start
    ≡ (err (rpc access_key_not_found), start)
unfolding get_quota lookup is_exactly target_beq
missed = refl

errors_is_itself : errors_is (rpc access_key_not_found) (code access_key_not_found) ≡ true
unfolding errors_is code_beq code_number
errors_is_itself = refl

get_access_quota_route :
    lookup (path_prefix ++ codes "GetAccessQuota") (routes text_of refused codecs service)
    ≡ some (serve_json text_of refused codecs.get_access_quota service.get_access_quota)
unfolding routes lookup text_beq serve_get_access_quota
get_access_quota_route = refl

replied_example :
    call_json
      (network service)
      codecs.get_access_quota
      (url (network service) codecs [] (codes "GetAccessQuota"))
      (codes "z", pos 0)
      start
    ≡ crossed text_of (err (rpc access_key_not_found), start)
replied_example =
    replied text_of refused (network service) codecs [] service (network-Carries service)
      codecs.get_access_quota (λ a. Unit {0}) (λ q. Unit {0}) quota_json-Laws
      service.get_access_quota (codes "GetAccessQuota") (codes "z", pos 0) start start
      (err (rpc access_key_not_found)) get_access_quota_route tt not_found not_found_status

remote-fetch_key_quota_refused_example :
    fetch_key_quota
      (beside cache)
      (quota_client (remote (network service) codecs []))
      1
      (λ origins o. false)
      (codes "z")
      []
      []
      (pos 0)
      start
    ≡ (
      ok (
        none,
        if code_beq (rpc_error (rpc access_key_not_found)).error access_key_not_found
              || code_beq (rpc_error (rpc access_key_not_found)).error project_not_found
            then some (over_wire text_of (rpc access_key_not_found))
            else none,
      ),
      start,
    )
remote-fetch_key_quota_refused_example =
    remote-fetch_key_quota_refused text_of refused (network service) codecs [] service
      (network-Carries service) (λ a. Unit {0}) (λ q. Unit {0}) quota_json-Laws (beside cache) 1
      (λ origins o. false) (codes "z") [] [] (pos 0) (rpc access_key_not_found)
      (rpc access_key_not_found) start start start tt missed errors_is_itself not_found
      not_found_status

no_such_key : lookup (codes "z") start.0.access_keys ≡ none
unfolding lookup insert text_beq
no_such_key = refl

remote-fetch_key_quota_unknown_example :
    fetch_key_quota
      (beside cache)
      (quota_client (remote (network service) codecs []))
      1
      (λ origins o. false)
      (codes "z")
      []
      []
      (pos 0)
      start
    ≡ (ok (none, some (rpc access_key_not_found)), start)
remote-fetch_key_quota_unknown_example =
    remote-fetch_key_quota_unknown outside cache 1 (pos 0) none text_of refused (network service)
      codecs [] (network-Carries service) (λ a. Unit {0}) (λ q. Unit {0}) quota_json-Laws
      (beside cache) 1 (λ origins o. false) (codes "z") [] [] (pos 0) (rpc access_key_not_found)
      start start tt missed errors_is_itself no_such_key

abbrev spent_four : Tracker
spent_four = (pos 0, record { by_project_id = []; by_access_key = (codes "a", pos 4) ∷ [] }) ∷ []

abbrev malformed : Error
malformed = wrapped "key" (plain "malformed")

reported :
    (w : World)
    → failing.sync_access_key_usage (1, pos 0, (codes "a", pos 4) ∷ []) w
      ≡ (ok ([], some malformed), w)
unfolding server_methods sync_access_key_usage sync_keys join_errors
reported w = refl

malformed_status : http_status (rpc_error malformed).error ≢ 200
unfolding http_status rpc_error
malformed_status e = omega arith

remote-sync_usage_loses_example :
    recorded
      (codes "a")
      (pos 0)
      (sync_usage (rpc_updater (remote (network failing) codecs [])) 1 (spent_four, start)).1.0
    ≡ pos 0
remote-sync_usage_loses_example =
    remote-sync_usage_loses text_of refused (network failing) codecs [] failing
      (network-Carries failing) 1 (λ a. a.0 ≡ 1) (λ r. Unit {0}) keys_json-Laws spent_four start
      (codes "a") (pos 0) ((refl, λ w. ([], malformed, w, reported w, malformed_status)), tt)

abbrev lost : Error
lost = rpc access_key_not_found

errors_is-over_wire_example :
    (errors_is (over_wire text_of lost) (code access_key_not_found)
      ≡ code_beq access_key_not_found access_key_not_found)
    × (errors_is
          (over_wire text_of (with_cause access_key_not_found lost))
          (code access_key_not_found)
        ≡ code_beq access_key_not_found access_key_not_found)
    × (errors_is (wrapped "find access key" lost) (code access_key_not_found)
        ≡ errors_is lost (code access_key_not_found))
    × (errors_is (over_wire text_of (wrapped "find access key" lost)) (code access_key_not_found)
        ≡ code_beq webrpc_endpoint access_key_not_found)
    × (errors_is (joined lost lost) (code access_key_not_found)
        ≡ errors_is lost (code access_key_not_found) || errors_is lost (code access_key_not_found))
    × (errors_is (over_wire text_of (joined lost lost)) (code access_key_not_found)
        ≡ code_beq webrpc_endpoint access_key_not_found)
errors_is-over_wire_example =
    errors_is-over_wire text_of "find access key" access_key_not_found access_key_not_found lost
      lost

-- A server that forgets its keys.
abbrev forgetful : QuotaControl World
forgetful = record service { get_access_quota = λ a w. (err (rpc aborted), (store_of [], [])) }

abbrev asked : Request Body
asked = post (codes "GetAccessQuota") (key_asked (codes "z", pos 0))

has_first : World → Bool
has_first w = elim (lookup (codes "a") w.0.access_keys) [ none ↦ false | some k ↦ true ]

start_has_first : has_first start ≡ true
unfolding has_first lookup insert text_beq
start_has_first = refl

forgotten : has_first (serve_http text_of refused codecs forgetful asked start).1 ≡ false
unfolding has_first lookup routes text_beq serve_http serve_get_access_quota serve_json media_type
    get_asked answer recovered
forgotten = refl

changed : (serve_http text_of refused codecs forgetful asked start).1 ≢ start
changed e = ground (arith, start_has_first, ap has_first e, forgotten)

serve_http-Guarded_example :
    (lookup asked.path (routes text_of refused codecs forgetful) ≢ none)
    × (asked.verb == codes "POST") ≡ true
    × (media_type asked.content_type == codes "application/json") ≡ true
serve_http-Guarded_example = serve_http-Guarded text_of refused codecs forgetful asked start changed
