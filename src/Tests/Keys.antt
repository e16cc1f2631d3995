-- ===== src/Tests/Keys.antt =====
-- The server's operations on access keys, and its usage.
use quotacontrol.Prelude.{◌≡◌, ◌≢◌, refl, true, false, none, some, [], arith, inl}
use quotacontrol.Prelude.Int.{pos}
use quotacontrol.Prelude.Text.{Text, codes, text_eq, text_beq}
use quotacontrol.Prelude.Assoc.{Assoc, lookup, insert}
use quotacontrol.Proto.Errors.{ok, err, panic, rpc, no_default_key}
use quotacontrol.Proto.Types.{AccessKey, zero_key, zero_info}
use quotacontrol.Cache.{Cache}
use quotacontrol.Cache.Redis.InMemory.{Server, redis, codec}
use quotacontrol.Cache.RedisCache.{
  redis_quota_cache, redis_usage_cache, redis_permission_cache, delete_quota,
}
use quotacontrol.Mock.Memory.{MemoryStore, listed, get_project_info}
use quotacontrol.Mock.Memory.Keyed.{active_keys}
use quotacontrol.Mock.Wiring.{beside, in_memory}
use quotacontrol.Server.{External}
use quotacontrol.Server.Keys.{
  first_default, set_default_access_key, disable_access_key, get_default_access_key,
}
use quotacontrol.Server.Keys.Effects.{put, made}
use quotacontrol.Server.Keys.Defaults.{IsSound, put-IsSound, made-IsSound}
use quotacontrol.Server.Keys.Failures.{disable_panics, set_default_inactive}
use quotacontrol.Server.Usage.{get_usage}
use quotacontrol.Server.Usage.Intervals.{get_usage_nil}

abbrev pub cache : Cache Server
cache = record {
  quota = redis_quota_cache redis codec (pos 3600000000000);
  usage = redis_usage_cache redis codec (pos 3600000000000);
  permission = redis_permission_cache redis codec (pos 3600000000000);
}

pub no_panic : (k : Text) (w : Server) → (cache.quota.delete_access_quota k w).0 ≢ panic
unfolding delete_quota
no_panic k w e = ground arith

-- Every key belongs to project 7, and the next key is "n".
abbrev pub outside : External (MemoryStore × Server)
outside = record {
  get_project_id = λ key. ok 7;
  generate_access_key = λ version project s. (ok (codes "n"), s);
  new_origins = λ origins. ok origins;
  to_strings = λ origins. origins;
  rate_status = λ service limit key s. (ok (pos 0), s);
}

abbrev first : AccessKey
first = made 7 [] (codes "a") false [] [] true

abbrev second : AccessKey
second = made 7 [] (codes "b") false [] [] false

abbrev retired_one : AccessKey
retired_one = record zero_key { project_id = 7; access_key = codes "c" }

abbrev pub keys : Assoc Text AccessKey
keys = put retired_one (put second (put first []))

abbrev only_retired : Assoc Text AccessKey
only_retired = put retired_one []

abbrev pub store_of : Assoc Text AccessKey → MemoryStore
store_of keys = record {
  limits = [];
  infos = [];
  access_keys = keys;
  usage = [];
  users = [];
  projects = [];
  permissions = [];
}

empty-IsSound : IsSound []
unfolding lookup
empty-IsSound = record { keyed = tt; active = λ a k e d. cc; single = λ a b j k e f d d' q. cc }

pub keys-IsSound : IsSound keys
unfolding lookup insert listed text_beq
keys-IsSound =
    put-IsSound retired_one _
      (made-IsSound second _ (made-IsSound first [] empty-IsSound refl refl) refl refl) (λ d. cc)
      (λ d. cc)

retired_found : lookup (codes "c") keys ≡ some retired_one
unfolding lookup insert text_beq
retired_found = refl

retired_only_found : lookup (codes "c") only_retired ≡ some retired_one
unfolding lookup insert text_beq
retired_only_found = refl

nothing_active : active_keys 7 only_retired ≡ []
unfolding listed insert
nothing_active = refl

first_is_default : first_default (active_keys 7 keys) ≡ some first
unfolding first_default listed insert text_beq
first_is_default = refl

disable_panics_example :
    (disable_access_key outside
      (beside cache)
      in_memory
      1
      (codes "c")
      (store_of only_retired, [])).0
    ≡ panic
disable_panics_example =
    disable_panics outside cache 1 no_panic (codes "c") retired_one (store_of only_retired) []
      retired_only_found nothing_active

set_default_inactive_example :
    let after =
      set_default_access_key outside (beside cache) in_memory 1 7 (codes "c") (store_of keys, []) in
    (after.0 ≡ ok true)
    × ((get_default_access_key outside (beside cache) in_memory 1 7 after.1).0
        ≡ err (rpc no_default_key))
set_default_inactive_example =
    set_default_inactive outside cache 1 no_panic 7 (codes "c") retired_one first (store_of keys) []
      keys-IsSound retired_found refl refl first_is_default

no_info :
    (in_memory {C = Server}).infos.get_project_info 7 (pos 0) (store_of keys, [])
    ≡ (ok zero_info, (store_of keys, []))
unfolding get_project_info lookup
no_info = refl

get_usage_nil_example :
    get_usage outside (beside cache) in_memory (pos 0) 7 none none none none (store_of keys, [])
    ≡ (panic, (store_of keys, []))
get_usage_nil_example =
    get_usage_nil outside (beside cache) in_memory (pos 0) 7 none none none none zero_info
      (store_of keys, []) (store_of keys, []) no_info (inl refl)
