-- ===== src/Setup.antt =====
-- How the parts are put together: config.go, `NewClient` and the client's settings in client.go,
-- `NewServer` of server.go, and `NewLimitCounter` of cache.go. What connects to a Redis server, makes
-- the map of the LRU layer and sends HTTP requests with an `Authorization` header are parameters.
pub mod Stack
use quotacontrol.Prelude.{
  ℕ, Bool, true, false, not, ◌&&◌, Option, none, some, [], ◌++◌, is_empty, ◌*◌, if◌then◌else◌,
}
use quotacontrol.Prelude.Int.{ℤ, pos, leb_ℤ}
use quotacontrol.Prelude.Text.{Text, codes, decimal}
use quotacontrol.Time.{Time}
use quotacontrol.Exec.{Exec, on_first, on_second}
use quotacontrol.Proto.Types.{Service, AccessQuota}
use quotacontrol.Proto.Service.{service_string}
use quotacontrol.Cache.{Cache, QuotaCache, UsageCache, PermissionCache}
use quotacontrol.Cache.Redis.{Redis, Codec}
use quotacontrol.Cache.RedisCache.{
  second, redis_ttl, redis_quota_cache, redis_usage_cache, redis_permission_cache,
}
use quotacontrol.Cache.Lru.{Memory, lru_ttl, lru_quota_cache}
use quotacontrol.Store.{Store}
use quotacontrol.Server.{External}
use quotacontrol.Middleware.Rate.{RateLimitConfig}
use quotacontrol.Rpc.{Codecs, QuotaControl}
use quotacontrol.Rpc.Client.{remote}
use quotacontrol.Rpc.Http.{HttpClient}
use quotacontrol.Rpc.Adapters.{server_methods}

pub record RedisConfig : Type 0 where
  pub enabled : Bool
  pub host : Text
  pub port : ℕ
  pub db_index : ℤ
  pub max_idle : ℤ
  pub max_active : ℤ
  pub key_ttl : ℤ

pub record Config : Type 0 where
  pub enabled : Bool
  pub url : Text
  pub auth_token : Text
  pub update_freq : ℤ
  pub rate_limiter : RateLimitConfig
  pub redis : RedisConfig
  pub default_usage : Option ℤ
  pub lru_size : ℤ
  pub lru_expiration : ℤ
  pub danger_mode : Bool

-- What `NewLimitCounter` gives to httprate-redis: `none` is the nil counter.
pub record CounterConfig : Type 0 where
  pub host : Text
  pub port : ℕ
  pub max_idle : ℤ
  pub max_active : ℤ
  pub db_index : ℤ
  pub prefix_key : Text

unfoldable pub counter_prefix : Service → Text
counter_prefix svc =
    let s = service_string svc in
    if is_empty s then codes "rl:" else codes "rl:" ++ (s ++ codes ":")

unfoldable pub new_limit_counter : Service → RedisConfig → Option CounterConfig
unfolding counter_prefix
new_limit_counter svc cfg =
    if not cfg.enabled
    then none
    else some (record {
      host = cfg.host;
      port = cfg.port;
      max_idle = cfg.max_idle;
      max_active = cfg.max_active;
      db_index = cfg.db_index;
      prefix_key = counter_prefix svc;
    })

-- `redis.Options`
pub record RedisOptions : Type 0 where
  pub addr : Text
  pub db : ℤ
  pub max_idle_conns : ℤ

unfoldable pub redis_options : RedisConfig → RedisOptions
redis_options cfg = record {
  addr = cfg.host ++ (codes ":" ++ decimal cfg.port);
  db = cfg.db_index;
  max_idle_conns = cfg.max_idle;
}

-- The header that `bearerToken.RoundTrip` sets.
unfoldable pub bearer : Text → Text
bearer token = codes "BEARER " ++ token

-- The time between two syncs: 5 minutes where none is configured.
unfoldable pub tick_of : ℤ → ℤ
tick_of update_freq = if leb_ℤ update_freq (pos 0) then pos (5 * 60 * second) else update_freq

-- A quota cache on one half of a state.
abbrev pub quota_beside : {M W : Type 0} → QuotaCache W → QuotaCache (M × W)
quota_beside c = record {
  get_project_quota = λ p. on_second (c.get_project_quota p);
  set_project_quota = λ q. on_second (c.set_project_quota q);
  delete_project_quota = λ p. on_second (c.delete_project_quota p);
  get_access_quota = λ k. on_second (c.get_access_quota k);
  set_access_quota = λ q. on_second (c.set_access_quota q);
  delete_access_quota = λ k. on_second (c.delete_access_quota k);
}

-- The client's fields. `M` is the state of the LRU map, and `W` the world with the Redis server in it.
pub record QuotaControlClient (W : Type 0) : Type 0 where
  pub cfg : Config
  pub service : Service
  pub cache : Cache W
  pub rpc : QuotaControl W
  pub tick : ℤ

module _ {M W B P : Type 0} (connect : RedisOptions → Redis W B) (codec : Codec B)
    (make_lru : ℤ → ℤ → Memory M) (dial : Text → HttpClient (M × W) P) (codecs : Codecs P)
    (url_base : Text → Text) where
  unfoldable pub client_cache : Config → Cache (M × W)
  unfolding redis_ttl lru_ttl redis_options
  client_cache cfg =
      let r = connect (redis_options cfg.redis) in
      let ttl = redis_ttl cfg.redis.key_ttl in
      let usage = redis_usage_cache r codec ttl in
      let permission = redis_permission_cache r codec ttl in
      let backend = redis_quota_cache r codec ttl in
      record {
        quota =
            if leb_ℤ cfg.lru_size (pos 0)
            then quota_beside backend
            else lru_quota_cache (make_lru cfg.lru_size (lru_ttl cfg.lru_expiration)) backend;
        usage = record {
          set_usage = λ k n. on_second (usage.set_usage k n);
          clear_usage = λ k. on_second (usage.clear_usage k);
          peek_usage = λ k. on_second (usage.peek_usage k);
          spend_usage = λ k n l. on_second (usage.spend_usage k n l);
        };
        permission = record {
          get_user_permission = λ p u. on_second (permission.get_user_permission p u);
          set_user_permission = λ p u r a. on_second (permission.set_user_permission p u r a);
          delete_user_permission = λ p u. on_second (permission.delete_user_permission p u);
        };
      }

  -- `qc` is the RPC client that may be given.
  unfoldable pub new_client :
      Service → Config → Option (QuotaControl (M × W)) → QuotaControlClient (M × W)
  unfolding client_cache bearer tick_of
  new_client service cfg qc = record {
    cfg = cfg;
    service = service;
    cache = client_cache cfg;
    rpc = elim qc [
      | some rpc ↦ rpc
      | none ↦ remote (dial (bearer cfg.auth_token)) codecs (url_base cfg.url)
    ];
    tick = tick_of cfg.update_freq;
  }

-- The settings of a client that may be nil.
unfoldable pub is_enabled : {W : Type 0} → Option (QuotaControlClient W) → Bool
is_enabled none = false
is_enabled (some c) = c.cfg.enabled

unfoldable pub is_danger_mode : {W : Type 0} → Option (QuotaControlClient W) → Bool
is_danger_mode none = false
is_danger_mode (some c) = c.cfg.danger_mode

-- `math.MaxUint16` for the nil client.
unfoldable pub get_service : {W : Type 0} → Option (QuotaControlClient W) → Service
get_service none = 65535
get_service (some c) = c.service
