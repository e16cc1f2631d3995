-- ===== src/Tests/Stacks.antt =====
-- A client over a Redis server, under the middlewares.
use quotacontrol.Prelude.{ℕ, some, if◌then◌else◌, ◌≡◌, refl, true, false, none, [], ◌∷◌, arith}
use quotacontrol.Prelude.Int.{pos, ltb_ℤ, ◌+ℤ◌}
use quotacontrol.Prelude.Text.{Text, codes, text_eq}
use quotacontrol.Prelude.Assoc.{lookup-insert, beq_self}
use quotacontrol.Exec.{Exec, pure, raise}
use quotacontrol.Proto.Errors.{ok, err, plain, rpc, quota_exceeded}
use quotacontrol.Exec.{failed}
use quotacontrol.Proto.Access.{is_active, validate_origin, validate_service, validate_chains}
use quotacontrol.Cache.Keys.{quota_key, usage_key}
use quotacontrol.Cache.Redis.InMemory.{number}
use quotacontrol.Cache.Redis.InMemory.{
  Server, quota, redis, codec, content, codec-CodecLaws, redis-RedisLaws,
}
use quotacontrol.Cache.Lru.{Memory}
use quotacontrol.Cache.RedisCache.{get_quota, key_of, redis_ttl}
use quotacontrol.Cache.RedisCache.Quotas.{get_quota_stored}
use quotacontrol.Client.Fetch.{
  fetch_key_quota, load_key_quota, check_key_quota, quota_chains, validate_access_key,
}
use quotacontrol.Client.Fetch.Sound.{Passes}
use quotacontrol.Middleware.{Context, next, refused, format_int, get_time}
use quotacontrol.Middleware.Verify.{
  verify_quota, decide, project_part, key_part, key_fetched, finish, header_limit,
}
use quotacontrol.Rpc.Http.{HttpClient}
use quotacontrol.Setup.{Config, QuotaControlClient, client_cache, new_client}
use quotacontrol.Setup.Stack.{middleware_client}
use quotacontrol.Setup.Stack.Admitted.{verify_quota-Passes}
use quotacontrol.Tests.Proto.{ten_to_twenty, ten_to_twenty_valid}
use quotacontrol.Tests.Clients.{
  cache, the_key, the_limit, the_quota, settings_found, counter, holding, holds,
}
use quotacontrol.Client.{get_default_usage}
use quotacontrol.Client.Spend.{track}
use quotacontrol.Client.Spend.Counting.{counted}
use quotacontrol.Rpc.{QuotaControl}
use quotacontrol.Middleware.Usage.{spend_usage}
use quotacontrol.Middleware.Usage.Bound.{outcome}
use quotacontrol.Setup.Stack.Spending.{counting_client, spend_usage_below}
use quotacontrol.Tests.Fetches.{any_origin, with_quota}
use quotacontrol.Tests.Requests.{by_key, admitted, sessions, projects}
use quotacontrol.Tests.Bodies.{Body, codecs}

abbrev config : Config
config = record {
  enabled = true;
  url = [];
  auth_token = [];
  update_freq = pos 0;
  rate_limiter = record {
    enabled = false;
    public_rpm = pos 0;
    account_rpm = pos 0;
    service_rpm = pos 0;
  };
  redis = record {
    enabled = true;
    host = codes "localhost";
    port = 6379;
    db_index = pos 0;
    max_idle = pos 4;
    max_active = pos 8;
    key_ttl = pos 0;
  };
  default_usage = none;
  lru_size = pos 0;
  lru_expiration = pos 0;
  danger_mode = false;
}

-- No map in memory, and no network.
abbrev forgets : Memory (Unit {0})
forgets = record { lookup = λ k s. (none, s); add = λ k q s. s; remove = λ k s. s }

abbrev offline : Text → HttpClient (Unit {0} × Server) Body
offline token = record {
  send = λ u b w. (err (plain "offline"), w);
  url_error = λ u. none;
  context_error = none;
  get_error = λ b. failed (plain "offline");
}

abbrev the_client : QuotaControlClient (Unit {0} × Server)
the_client =
    new_client (λ o. redis) codec (λ size ttl. forgets) offline codecs (λ u. u) 1 config none

abbrev awake : ℕ → Exec (Unit {0} × Server) (Unit {0})
awake ns w = (ok tt, w)

quota_found : (get_quota redis codec (redis_ttl (pos 0)) (codes "k") with_quota).0 ≡ ok the_quota
quota_found =
    get_quota_stored redis codec (redis_ttl (pos 0)) content codec-CodecLaws redis-RedisLaws
      (codes "k") with_quota the_quota (quota the_quota) refl
      (ground (
        arith,
        lookup-insert (quota_key (codes "k")) (quota_key (codes "k")) (quota the_quota) [],
        beq_self (quota_key (codes "k")),
      ))

abbrev read_quota : Server
read_quota = (get_quota redis codec (redis_ttl (pos 0)) (codes "k") with_quota).1

verified :
    verify_quota
      (middleware_client sessions any_origin awake the_client)
      sessions
      projects
      (pos 0)
      []
      []
      by_key
      ([], (tt, with_quota))
    ≡ (ok ((header_limit, format_int (pos 10)) ∷ [], next admitted), ([], (tt, read_quota)))
unfolding verify_quota decide project_part key_part key_fetched finish is_active middleware_client
    new_client client_cache fetch_key_quota load_key_quota check_key_quota quota_chains key_of
    validate_access_key validate_origin validate_service validate_chains
verified = ground (arith, quota_found, settings_found)

verify_quota-Passes_example : Passes any_origin 1 [] [] the_quota
unfolding new_client
verify_quota-Passes_example =
    verify_quota-Passes sessions any_origin awake the_client projects (pos 0) [] [] by_key admitted
      ((header_limit, format_int (pos 10)) ∷ []) (codes "k") the_quota ([], (tt, with_quota))
      ([], (tt, read_quota)) (λ e. omega arith) refl refl verified refl

-- A server that fails every call, also where it is notified.
abbrev unheard : QuotaControl Server
unheard = record {
  ping = λ a. pure [];
  get_project_status = λ a. raise (plain "unused");
  get_access_key = λ a. raise (plain "unused");
  create_access_key = λ a. raise (plain "unused");
  update_access_key = λ a. raise (plain "unused");
  list_access_keys = λ a. raise (plain "unused");
  rotate_access_key = λ a. raise (plain "unused");
  disable_access_key = λ a. raise (plain "unused");
  get_default_access_key = λ a. raise (plain "unused");
  set_default_access_key = λ a. raise (plain "unused");
  get_project_quota = λ a. raise (plain "unused");
  get_access_quota = λ a. raise (plain "unused");
  clear_access_quota_cache = λ a. raise (plain "unused");
  get_usage = λ a. raise (plain "unused");
  clear_usage = λ a. raise (plain "unused");
  sync_project_usage = λ a. raise (plain "unused");
  sync_access_key_usage = λ a. raise (plain "unused");
  get_user_permission = λ a. raise (plain "unused");
  get_account_usage = λ a. raise (plain "unused");
  get_access_key_usage = λ a. raise (plain "unused");
  get_async_usage = λ a. raise (plain "unused");
  update_project_usage = λ a. raise (plain "unused");
  update_key_usage = λ a. raise (plain "unused");
  prepare_usage = λ a. raise (plain "unused");
  notify_event = λ a. raise (plain "unheard");
}

abbrev standing : ℕ → Exec Server (Unit {0})
standing ns w = (ok tt, w)

abbrev spender : Context
spender = record admitted { cost = some (pos 2); time = some (pos 0) }

spend_usage_below_example :
    let client =
      counting_client redis codec
        (pos 60)
        content
        codec-CodecLaws
        redis-RedisLaws
        cache.quota
        cache.permission
        unheard
        1
        standing
        config
        (pos 0)
        sessions
        any_origin
        (pos 0) in
    let after =
      spend_usage
        (middleware_client sessions any_origin standing client)
        (pos 0)
        spender
        ([], holding (pos 18)) in
    (outcome after
      ≡ some (
          if ltb_ℤ (pos 20) (pos 18 +ℤ pos 2)
          then refused (rpc quota_exceeded)
          else next (record spender { spending = true })))
    × (after.1.0 ≡ track the_key (pos 0) (counted ten_to_twenty (pos 18) (pos 2)) [])
    × (content after.1.1 (usage_key counter) ≡ some (number (pos 18 +ℤ pos 2)))
unfolding ◌+ℤ◌ get_default_usage get_time
spend_usage_below_example =
    spend_usage_below redis codec (pos 60) content codec-CodecLaws redis-RedisLaws cache.quota
      cache.permission unheard 1 standing config (pos 0) sessions any_origin (pos 0) spender
      the_quota the_limit ten_to_twenty the_key (pos 18) [] (holding (pos 18))
      (λ p s e w. (λ h. cc h, λ j. refl)) refl refl refl refl settings_found ten_to_twenty_valid
      (omega arith) (holds (pos 18)) (omega arith) (omega arith) (omega arith, omega arith)
