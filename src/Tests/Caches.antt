-- ===== src/Tests/Caches.antt =====
-- The caches, over a Redis server and a map in memory.
use quotacontrol.Prelude.{◌≡◌, ◌≢◌, refl, Option, none, some, [], ◌∷◌, arith, inl}
use quotacontrol.Prelude.Int.{ℤ, pos, ◌+ℤ◌}
use quotacontrol.Prelude.Text.{Text, codes, text_eq, text_beq, text_beq_iff}
use quotacontrol.Prelude.Assoc.{
  Assoc, lookup, insert, remove, lookup-insert, lookup-remove, beq_self,
}
use quotacontrol.Proto.Errors.{ok}
use quotacontrol.Proto.Types.{AccessQuota, zero_key}
use quotacontrol.Cache.Keys.{usage_key, quota_key, get_project_key}
use quotacontrol.Cache.Redis.InMemory.{
  Server, quota, number, redis, codec, content, codec-CodecLaws, redis-RedisLaws,
}
use quotacontrol.Cache.RedisCache.{
  peek_usage, spend_usage, set_usage, clear_usage, redis_quota_cache,
}
use quotacontrol.Cache.RedisCache.Usage.{
  counting, peek, spend, peek_usage_refines, spend_usage_refines, Leaves,
}
use quotacontrol.Cache.RedisCache.Quotas.{get_quota-set_quota}
use quotacontrol.Cache.RedisCache
use quotacontrol.Cache.Lru
use quotacontrol.Cache.Lru.{Memory, MemoryLaws, lru_quota_cache}
use quotacontrol.Cache.Lru.Coherence.{get_quota-set_quota_self, set_project_quota_misses}

abbrev ttl : ℤ
ttl = pos 3600000000000

abbrev key : Text
key = codes "k"

-- A server on which the counter of the key stands at seven.
abbrev at_seven : Server
at_seven = (codes "usage:k", number (pos 7)) ∷ []

at_seven_holds : content at_seven (usage_key key) ≡ some (number (pos 7))
unfolding usage_key lookup text_beq
at_seven_holds = refl

peek_usage_refines_example :
    ((peek_usage redis codec ttl key at_seven).0 ≡ (peek (counting (pos 7))).0)
    × Leaves redis codec ttl content codec-CodecLaws redis-RedisLaws at_seven
        (peek_usage redis codec ttl key at_seven).1
        key
        (peek (counting (pos 7))).1
peek_usage_refines_example =
    peek_usage_refines redis codec ttl content codec-CodecLaws redis-RedisLaws key at_seven
      (counting (pos 7)) (omega arith) at_seven_holds

spend_usage_refines_example :
    ((spend_usage redis codec ttl key (pos 5) (pos 20) at_seven).0
      ≡ ok (spend (pos 5) (pos 20) (counting (pos 7))).0)
    × Leaves redis codec ttl content codec-CodecLaws redis-RedisLaws at_seven
        (spend_usage redis codec ttl key (pos 5) (pos 20) at_seven).1
        key
        (spend (pos 5) (pos 20) (counting (pos 7))).1
unfolding ◌+ℤ◌
spend_usage_refines_example =
    spend_usage_refines redis codec ttl content codec-CodecLaws redis-RedisLaws key (pos 5) (pos 20)
      at_seven (counting (pos 7)) (omega arith) (λ n e. ground arith) at_seven_holds

abbrev project_quota : AccessQuota
project_quota = record {
  info = none;
  cycle = none;
  limit = none;
  access_key = some (record zero_key { project_id = 7 });
}

get_quota-set_quota_example :
    let w = (RedisCache.set_quota redis codec ttl key project_quota at_seven).1 in
    ((RedisCache.get_quota redis codec ttl key w).0 ≡ ok project_quota)
    × ((RedisCache.get_quota redis codec ttl (codes "j") w).0
        ≡ (RedisCache.get_quota redis codec ttl (codes "j") at_seven).0)
get_quota-set_quota_example =
    get_quota-set_quota redis codec ttl content codec-CodecLaws redis-RedisLaws key (codes "j")
      at_seven project_quota project_quota (quota project_quota) refl refl (λ e. ground arith)

-- A map in memory that never evicts.
abbrev Held : Type 0
Held = Assoc Text AccessQuota

abbrev held : Held → Text → Option AccessQuota
held s k = lookup k s

abbrev memory : Memory Held
memory = record { lookup = λ k s. (lookup k s, s); add = insert; remove = remove }

memory-MemoryLaws : MemoryLaws memory held
memory-MemoryLaws = record {
  lookup_reply = λ k s. refl;
  lookup_keeps = λ k s j. refl;
  add_self = λ k q s. ground (arith, lookup-insert k k q s, beq_self k);
  add_other = λ k q s j ne. inl (ground (arith, lookup-insert k j q s, text_beq_iff k j));
  remove_self = λ k s. ground (arith, lookup-remove k k s, beq_self k);
  remove_other = λ k s j ne. ground (arith, lookup-remove k j s, text_beq_iff k j);
}

get_quota-set_quota_self_example :
    (Lru.get_quota memory
      (redis_quota_cache redis codec ttl)
      key
      (Lru.set_quota memory
        (redis_quota_cache redis codec ttl)
        key
        project_quota
        ([], at_seven)).1).0
    ≡ ok project_quota
get_quota-set_quota_self_example =
    get_quota-set_quota_self memory (redis_quota_cache redis codec ttl) held memory-MemoryLaws key
      project_quota ([], at_seven)

no_key_differs : [] ≢ get_project_key 7
unfolding get_project_key
no_key_differs e = cc

set_project_quota_misses_example :
    let w =
      ((lru_quota_cache memory (redis_quota_cache redis codec ttl)).set_project_quota project_quota
        ([], at_seven)).1.1 in
    (content w (quota_key (get_project_key 7)) ≡ content at_seven (quota_key (get_project_key 7)))
    × (content w (quota_key []) ≡ some (quota project_quota))
set_project_quota_misses_example =
    set_project_quota_misses memory redis codec ttl content codec-CodecLaws redis-RedisLaws
      project_quota (record zero_key { project_id = 7 }) (quota project_quota) [] at_seven refl refl
      no_key_differs
