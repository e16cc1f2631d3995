-- ===== src/Tests/Fetches.antt =====
-- The client's fetches, over a Redis server.
use quotacontrol.Prelude.{ℕ, ◌≡◌, refl, Bool, true, none, some, List, [], arith}
use quotacontrol.Prelude.Int.{pos}
use quotacontrol.Prelude.Text.{Text, codes, text_eq}
use quotacontrol.Prelude.Assoc.{lookup, insert, lookup-insert, beq_self}
use quotacontrol.Exec.{Exec}
use quotacontrol.Proto.Errors.{ok, err, rpc, timeout}
use quotacontrol.Proto.Access.{validate_origin, validate_service, validate_chains}
use quotacontrol.Cache.Keys.{usage_key, quota_key}
use quotacontrol.Cache.Redis.InMemory.{
  Server, quota, number, redis, codec, content, codec-CodecLaws, redis-RedisLaws,
}
use quotacontrol.Cache.RedisCache.{special_value, get_quota, key_of}
use quotacontrol.Cache.RedisCache.Quotas.{get_quota_stored}
use quotacontrol.Client.Fetch.{
  ensure_usage, fetch_key_quota, load_key_quota, check_key_quota, quota_chains, validate_access_key,
}
use quotacontrol.Client.Fetch.Sound.{Passes, fetch_key_quota-Passes}
use quotacontrol.Client.Fetch.Rounds.{
  ensure_usage_waits, ensure_usage_times_out, ensure_usage_fills,
}
use quotacontrol.Tests.Clients.{
  ttl, cache, week, the_quota, remote, counter, holding, holds, idle, seen,
}

-- While this one sleeps, another client fills the counter in.
abbrev filled_by_another : ℕ → Exec Server (Unit {0})
filled_by_another ns w = (ok tt, holding (pos 7))

ensure_usage_waits_example :
    (ensure_usage cache remote 1 filled_by_another 7 week (pos 0) (holding special_value)).0
    ≡ ok (pos 7)
ensure_usage_waits_example =
    ensure_usage_waits redis codec ttl content codec-CodecLaws redis-RedisLaws cache.quota
      cache.permission remote 1 filled_by_another 7 week (pos 0) (pos 7) (holding special_value)
      (holding (pos 7)) (holds special_value) refl (omega arith) (holds (pos 7))

-- Whenever this one sleeps, another client reserves the counter.
abbrev reserving : ℕ → Exec Server (Unit {0})
reserving ns w = (ok tt, holding special_value)

ensure_usage_times_out_example :
    ensure_usage cache remote 1 reserving 7 week (pos 0) (holding special_value)
    ≡ (err (rpc timeout), holding special_value)
ensure_usage_times_out_example =
    ensure_usage_times_out redis codec ttl content codec-CodecLaws redis-RedisLaws cache.quota
      cache.permission remote 1 reserving 7 week (pos 0) (holding special_value)
      (holding special_value) (holding special_value) (holding special_value) (holds special_value)
      refl (holds special_value) refl (holds special_value) refl

nothing_held : content [] (usage_key counter) ≡ none
unfolding lookup
nothing_held = refl

ensure_usage_fills_example :
    ((ensure_usage cache remote 1 idle 7 week (pos 0) []).0 ≡ ok (pos 7))
    × (content (ensure_usage cache remote 1 idle 7 week (pos 0) []).1 (usage_key counter)
        ≡ some (number (pos 7)))
ensure_usage_fills_example =
    ensure_usage_fills redis codec ttl content codec-CodecLaws redis-RedisLaws cache.quota
      cache.permission remote 1 idle 7 week (pos 0) (pos 7) [] (seen []) nothing_held refl

abbrev pub any_origin : List Text → Text → Bool
any_origin patterns origin = true

abbrev pub with_quota : Server
with_quota = insert (quota_key (codes "k")) (quota the_quota) []

quota_found : (get_quota redis codec ttl (codes "k") with_quota).0 ≡ ok the_quota
quota_found =
    get_quota_stored redis codec ttl content codec-CodecLaws redis-RedisLaws (codes "k") with_quota
      the_quota (quota the_quota) refl
      (ground (
        arith,
        lookup-insert (quota_key (codes "k")) (quota_key (codes "k")) (quota the_quota) [],
        beq_self (quota_key (codes "k")),
      ))

quota_fetched :
    fetch_key_quota cache remote 1 any_origin (codes "k") [] [] (pos 0) with_quota
    ≡ (ok (some the_quota, none), (get_quota redis codec ttl (codes "k") with_quota).1)
unfolding fetch_key_quota load_key_quota check_key_quota quota_chains key_of validate_access_key
    validate_origin validate_service validate_chains
quota_fetched = ground (arith, quota_found)

fetch_key_quota-Passes_example : Passes any_origin 1 [] [] the_quota
fetch_key_quota-Passes_example =
    fetch_key_quota-Passes cache remote 1 any_origin (codes "k") [] [] (pos 0) the_quota with_quota
      _ quota_fetched
