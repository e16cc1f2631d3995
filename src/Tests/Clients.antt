-- ===== src/Tests/Clients.antt =====
-- The client over a Redis server.
use quotacontrol.Prelude.{
  ℕ, ◌≡◌, refl, Bool, true, false, Option, none, some, [], ◌∷◌, arith, if◌then◌else◌,
}
use quotacontrol.Prelude.Int.{ℤ, pos, ◌+ℤ◌, ◌-ℤ◌, ◌≤ℤ◌, min_ℤ, ltb_ℤ}
use quotacontrol.Prelude.Text.{Text, codes, text_eq, text_beq}
use quotacontrol.Prelude.Assoc.{lookup, insert, lookup-insert, beq_self}
use quotacontrol.Exec.{Exec}
use quotacontrol.Proto.Errors.{Error, Result, ok, err, plain, rpc, quota_exceeded}
use quotacontrol.Proto.Types.{
  Cycle, Limit, over_max, AccessKey, zero_key, AccessQuota, zero_info, read,
}
use quotacontrol.Proto.Service.{service_string}
use quotacontrol.Proto.Limits.{get_settings, get_spend_result}
use quotacontrol.Cache.{Cache}
use quotacontrol.Cache.Keys.{usage_key, cache_key_quota}
use quotacontrol.Cache.Redis.InMemory.{
  Server, number, redis, codec, content, codec-CodecLaws, redis-RedisLaws,
}
use quotacontrol.Cache.RedisCache.{
  redis_quota_cache, redis_usage_cache, redis_permission_cache, peek_usage, look_to_spend,
  add_spend, proceed,
}
use quotacontrol.Usage.{Tracker}
use quotacontrol.Client.{QuotaClient}
use quotacontrol.Client.Spend.{track, settle, spend_quota}
use quotacontrol.Client.Spend.Counting.{counted, spend_quota_full, spend_quota_below}
use quotacontrol.Client.Spend.Sums.{sum}
use quotacontrol.Client.Spend.Interleaved.{
  Run, none_yet, looked, added, Counts, bound, spends_accounted,
}
use quotacontrol.Client.Spend.Silent.{settle_over_silent}
use quotacontrol.Tests.Proto.{ten_to_twenty, ten_to_twenty_valid}

abbrev pub ttl : ℤ
ttl = pos 3600000000000

abbrev pub cache : Cache Server
cache = record {
  quota = redis_quota_cache redis codec ttl;
  usage = redis_usage_cache redis codec ttl;
  permission = redis_permission_cache redis codec ttl;
}

abbrev pub week : Option Cycle
week = some (record { start = pos 86400000000000; end = pos 691200000000000 })

abbrev pub the_key : AccessKey
the_key = record zero_key { project_id = 7; access_key = codes "k"; active = true }

abbrev pub the_limit : Limit
the_limit = record {
  service_limit = (codes "API", ten_to_twenty) ∷ [];
  rate_limit = pos 0;
  free_warn = pos 0;
  free_max = pos 0;
  over_warn = pos 0;
  over_max = pos 0;
}

abbrev pub the_quota : AccessQuota
the_quota = record {
  info = some (record zero_info { id = 7 });
  cycle = week;
  limit = some the_limit;
  access_key = some the_key;
}

-- A remote server that answers every call; the project has used seven.
abbrev pub remote : QuotaClient Server
remote = record {
  get_project_quota = λ project now w. (ok the_quota, w);
  get_access_quota = λ key now w. (ok the_quota, w);
  get_usage = λ project key service from to w. (ok (pos 7), w);
  get_user_permission = λ project user w. (ok (read, none), w);
  notify_event = λ project service event w. (ok true, w);
}

abbrev pub counter : Text
counter = cache_key_quota 7 week (some 1) (pos 0)

-- A server whose counter holds a number.
abbrev pub holding : ℤ → Server
holding n = insert (usage_key counter) (number n) []

pub holds : (n : ℤ) → content (holding n) (usage_key counter) ≡ some (number n)
holds n = ground (
  arith,
  lookup-insert (usage_key counter) (usage_key counter) (number n) [],
  beq_self (usage_key counter),
)

abbrev pub idle : ℕ → Exec Server (Unit {0})
idle ns w = (ok tt, w)

pub settings_found : get_settings the_limit 1 ≡ some ten_to_twenty
unfolding get_settings service_string lookup text_beq
settings_found = refl

abbrev after : ℤ → ℤ → Result (Bool × ℤ × Option Error) × (Tracker × Server)
after cost n = spend_quota cache remote 1 idle (some the_quota) cost (pos 0) ([], holding n)

abbrev pub seen : Server → Server
seen w = (peek_usage redis codec ttl counter w).1

spend_quota_full_example :
    (after (pos 3) (pos 20)
      ≡ (ok (false, pos 20, some (rpc quota_exceeded)), ([], seen (holding (pos 20)))))
    × ((j : Text) → content (seen (holding (pos 20))) j ≡ content (holding (pos 20)) j)
spend_quota_full_example =
    spend_quota_full redis codec ttl content codec-CodecLaws redis-RedisLaws cache.quota
      cache.permission remote 1 idle the_quota the_limit ten_to_twenty the_key (pos 3) (pos 20)
      (pos 0) [] (holding (pos 20)) refl refl settings_found (λ e. ground arith) (holds (pos 20))
      (omega arith) (omega arith)

-- A remote server whose NotifyEvent fails.
abbrev unheard : QuotaClient Server
unheard = record remote { notify_event = λ project service event w. (err (plain "unheard"), w) }

abbrev below : Result (Bool × ℤ × Option Error) × (Tracker × Server)
below = spend_quota cache unheard 1 idle (some the_quota) (pos 2) (pos 0) ([], holding (pos 18))

spend_quota_below_example :
    (below.0
      ≡ ok (
          if ltb_ℤ (pos 20) (pos 18 +ℤ pos 2)
          then (false, pos 18 +ℤ pos 2, some (rpc quota_exceeded))
          else (true, pos 18 +ℤ pos 2, none)))
    × (below.1.0 ≡ track the_key (pos 0) (counted ten_to_twenty (pos 18) (pos 2)) [])
    × (content below.1.1 (usage_key counter) ≡ some (number (pos 18 +ℤ pos 2)))
unfolding ◌+ℤ◌
spend_quota_below_example =
    spend_quota_below redis codec ttl content codec-CodecLaws redis-RedisLaws cache.quota
      cache.permission unheard 1 idle (λ p s e w. (λ h. cc h, λ j. refl)) the_quota the_limit
      ten_to_twenty the_key (pos 2) (pos 18) (pos 0) [] (holding (pos 18)) refl refl settings_found
      ten_to_twenty_valid (omega arith) (holds (pos 18)) (omega arith) (omega arith)
      (omega arith, omega arith)

settle_over_silent_example :
    ((get_spend_result ten_to_twenty (pos 4) (pos 22)).1 ≡ some over_max)
    × (settle cache remote 1 idle ten_to_twenty the_key
          (pos 4)
          (pos 0)
          (pos 22)
          ([], holding (pos 22))
        ≡ (
          ok (false, pos 22, some (rpc quota_exceeded)),
          (
            track the_key (pos 0) (get_spend_result ten_to_twenty (pos 4) (pos 22)).0 [],
            holding (pos 22),
          ),
        ))
unfolding ◌-ℤ◌
settle_over_silent_example =
    settle_over_silent cache remote 1 idle ten_to_twenty the_key (pos 4) (pos 22) (pos 0) []
      (holding (pos 22)) ten_to_twenty_valid
      (record { spent = omega arith; started = omega arith; fits = (omega arith, omega arith) })
      (omega arith) (omega arith)

look_at_18 :
    look_to_spend redis codec ttl counter (pos 20) (holding (pos 18))
    ≡ (ok (proceed (pos 18)), holding (pos 18))
unfolding look_to_spend peek_usage
look_at_18 = ground (arith, holds (pos 18))

-- Two clients have seen the counter at 18, and one of them has added its four.
abbrev after_four : Server
after_four = (redis.incr_by (usage_key counter) (pos 4) (holding (pos 18))).1

four_added :
    add_spend redis codec ttl counter (pos 4) (pos 18) (holding (pos 18))
    ≡ (ok (pos 22, none), after_four)
unfolding add_spend ◌+ℤ◌
four_added = ground (
  arith,
  redis-RedisLaws.incr_reply (usage_key counter) (pos 18) (pos 4) (holding (pos 18))
      (holds (pos 18)) (omega arith, omega arith),
)

abbrev the_run :
    Run redis codec ttl content codec-CodecLaws redis-RedisLaws counter ten_to_twenty
      (holding (pos 18))
      (pos 10)
      after_four
      (pos 3 ∷ [])
      (pos 0 +ℤ (get_spend_result ten_to_twenty (pos 4) (pos 22)).0)
unfolding ◌+ℤ◌
the_run =
    added [] (pos 3 ∷ []) (pos 4) (pos 18) (pos 22)
      (looked (pos 18) (pos 4)
        (looked (pos 18) (pos 3) none_yet (omega arith) (omega arith) look_at_18) (omega arith)
        (omega arith) look_at_18)
      four_added

spends_accounted_example :
    (n : ℤ) × Counts redis codec ttl content codec-CodecLaws redis-RedisLaws counter ten_to_twenty
      after_four n
    × (n +ℤ sum (pos 3 ∷ [])
        ≤ℤ bound redis codec ttl content codec-CodecLaws redis-RedisLaws counter ten_to_twenty
            (pos 18)
            (pos 10))
    × (pos 0 +ℤ (get_spend_result ten_to_twenty (pos 4) (pos 22)).0
        ≡ min_ℤ n (pos 20) -ℤ min_ℤ (pos 18) (pos 20))
unfolding ◌+ℤ◌
spends_accounted_example =
    spends_accounted redis codec ttl content codec-CodecLaws redis-RedisLaws counter ten_to_twenty
      (holding (pos 18)) (pos 18) (pos 10) ten_to_twenty_valid (holds (pos 18)) (omega arith)
      (omega arith, omega arith) the_run
