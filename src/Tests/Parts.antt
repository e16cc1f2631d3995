-- ===== src/Tests/Parts.antt =====
-- Texts of enums and headers, the events of spends, sleeps, and histories of access keys.
use quotacontrol.Prelude.{
  ℕ, ◌+◌, ◌≡◌, ◌≤◌, refl, false, ◌&&◌, not, none, some, [], ◌++◌, arith, nat_eq, ◌==◌,
  if◌then◌else◌,
}
use quotacontrol.Prelude.Int.{pos, ltb_ℤ}
use quotacontrol.Prelude.Text.{codes}
use quotacontrol.Prelude.Assoc.{lookup}
use quotacontrol.Exec.{Exec, pure, raise}
use quotacontrol.Proto.Errors.{ok, plain, sentinel, cache_wait}
use quotacontrol.Proto.Types.{read}
use quotacontrol.Proto.Limits.{get_spend_result}
use quotacontrol.Rpc.Versions.{
  WebrpcGenVersions, version_from_header, header_of, IsTame, version_from_header-header_of,
}
use quotacontrol.Cache.{Cache}
use quotacontrol.Cache.Redis.InMemory
use quotacontrol.Cache.Redis.InMemory.{
  redis, codec, content, permission, codec-CodecLaws, redis-RedisLaws,
}
use quotacontrol.Cache.Keys.{permission_key}
use quotacontrol.Client.{QuotaClient, RequestContext}
use quotacontrol.Client.Permission.{user_of, fetch_permission}
use quotacontrol.Client.Permission.Cached.{over_redis, fetch_permission-Cached}
use quotacontrol.Client.Fetch.{ensure_usage}
use quotacontrol.Client.Fetch.Waiting.{ensure_usage_sleep}
use quotacontrol.Client.Spend.{settle}
use quotacontrol.Rpc.Adapters.{quota_client}
use quotacontrol.Mock.Memory.{MemoryStore}
use quotacontrol.Mock.Wiring.{beside, in_memory}
use quotacontrol.Mock.Server.{Server, get_events, mock_methods}
use quotacontrol.Mock.Server.Events.{added, get_events-settle}
use quotacontrol.Server.Keys.{create_access_key, disable_access_key}
use quotacontrol.Server.Keys.Defaults.{IsSound}
use quotacontrol.Server.Keys.Histories.{begun, created, disabled, History-IsSound}
use quotacontrol.Tests.Clients.{the_key, week, remote}
use quotacontrol.Tests.Requests.{sessions}
use quotacontrol.Tests.Proto.{ten_to_twenty}
use quotacontrol.Tests.Keys.{outside, cache, no_panic, keys, store_of, keys-IsSound}
use quotacontrol.Tests.Wires.{World, service}

abbrev versions : WebrpcGenVersions
versions = record {
  webrpc_gen_version = codes "v0.31.1";
  code_gen_name = codes "gen-golang";
  code_gen_version = codes "v0.23.3";
  schema_name = codes "quota-control";
  schema_version = codes "v0-26.2.23+dde45de";
}

versions-IsTame : IsTame versions
versions-IsTame = ground arith

version_from_header-header_of_example : version_from_header (header_of versions) ≡ ok versions
version_from_header-header_of_example = version_from_header-header_of versions versions-IsTame

-- A cache that knows nothing, and whose counter is always being filled in by another client.
abbrev busy : {W : Type 0} → Cache W
busy = record {
  quota = record {
    get_project_quota = λ p. raise (plain "none");
    set_project_quota = λ q. pure tt;
    delete_project_quota = λ p. pure tt;
    get_access_quota = λ k. raise (plain "none");
    set_access_quota = λ q. pure tt;
    delete_access_quota = λ k. pure tt;
  };
  usage = record {
    set_usage = λ k n. pure tt;
    clear_usage = λ k. pure false;
    peek_usage = λ k. raise (sentinel cache_wait);
    spend_usage = λ k n l. pure (n, none);
  };
  permission = record {
    get_user_permission = λ p u. raise (plain "none");
    set_user_permission = λ p u r a. pure tt;
    delete_user_permission = λ p u. pure tt;
  };
}

abbrev resting : {W : Type 0} → ℕ → Exec W (Unit {0})
resting ns = pure tt

abbrev quiet : Server
quiet = record { notifications = []; err_get_project_quota = none; err_get_access_quota = none }

get_events-settle_example :
    get_events 7
      (settle busy
        (quota_client (mock_methods service))
        1
        resting
        ten_to_twenty
        the_key
        (pos 1)
        (pos 0)
        (pos 20)
        ([], (quiet, (store_of keys, [])))).1.1.0
    ≡ (if (the_key.project_id == 7)
          && not (ltb_ℤ (get_spend_result ten_to_twenty (pos 1) (pos 20)).0 (pos 1))
        then get_events 7 quiet ++ added 1 (get_spend_result ten_to_twenty (pos 1) (pos 20)).1
        else get_events 7 quiet)
get_events-settle_example =
    get_events-settle service busy 1 resting ten_to_twenty the_key (pos 1) (pos 20) (pos 0) [] quiet
      (store_of keys, []) 7

-- The clock, and nothing else.
abbrev Clock : Type 0
Clock = ℕ × Unit {0}

abbrev sleeping : ℕ → Exec Clock (Unit {0})
sleeping ns s = (ok tt, (s.0 + ns, tt))

abbrev no_server : QuotaClient Clock
no_server = record {
  get_project_quota = λ project now. raise (plain "offline");
  get_access_quota = λ key now. raise (plain "offline");
  get_usage = λ project key service from to. raise (plain "offline");
  get_user_permission = λ project user. raise (plain "offline");
  notify_event = λ project service event. raise (plain "offline");
}

ensure_usage_sleep_example :
    (ensure_usage busy no_server 1 sleeping 7 week (pos 0) (5, tt)).1.0 ≤ 600000005
ensure_usage_sleep_example =
    ensure_usage_sleep busy no_server 1 sleeping (λ k s. refl) (λ k n s. refl) (λ p k v a b s. refl)
      (λ ns s. refl) 7 week (pos 0) (5, tt)

store_kept :
    (v p : ℕ) (m : MemoryStore) (c : InMemory.Server)
    → (outside.generate_access_key v p (m, c)).1.0 ≡ m
store_kept v p m c = refl

abbrev start : World
start = (store_of keys, [])

abbrev later : World
later =
    (disable_access_key outside (beside cache) in_memory 1 (codes "a")
      (create_access_key outside (beside cache) in_memory 1 none 7 [] false [] [] start).1).1

History-IsSound_example : IsSound later.0.access_keys
History-IsSound_example =
    History-IsSound outside cache 1 no_panic store_kept start later keys-IsSound
      (disabled (codes "a") (created none 7 [] false [] [] begun))

abbrev by_alice : RequestContext
by_alice = record {
  session = 2;
  account = some (codes "alice");
  access_key = none;
  project_id = some 7;
  service = none;
}

nothing_cached : content [] (permission_key 7 (user_of by_alice)) ≡ none
unfolding lookup
nothing_cached = refl

fetch_permission-Cached_example :
    let after =
      fetch_permission
        (over_redis redis codec
          (pos 0)
          content
          codec-CodecLaws
          redis-RedisLaws
          cache.quota
          cache.usage)
        remote
        sessions
        by_alice
        7
        [] in
    (after.0 ≡ ok (read, none))
    × ((later : QuotaClient InMemory.Server)
        → (fetch_permission
            (over_redis redis codec
              (pos 0)
              content
              codec-CodecLaws
              redis-RedisLaws
              cache.quota
              cache.usage)
            later
            sessions
            by_alice
            7
            after.1).0
          ≡ ok (read, none))
fetch_permission-Cached_example =
    fetch_permission-Cached redis codec (pos 0) content codec-CodecLaws redis-RedisLaws cache.quota
      cache.usage remote sessions by_alice 7 read none (permission (read, none)) []
      (redis.get (permission_key 7 (user_of by_alice)) []).1 refl refl nothing_cached refl
