-- ===== src/Client/Fetch/Rounds.antt =====
-- The rounds of `EnsureUsage` over a counter in Redis.
use quotacontrol.Prelude.{ℕ, ◌+◌, ◌*◌, ◌≡◌, Option, none, some, arith}
use quotacontrol.Prelude.Int.{ℤ, pos, ◌≤ℤ◌}
use quotacontrol.Prelude.Text.{Text, text_eq}
use quotacontrol.Prelude.Assoc.{beq_self}
use quotacontrol.Time.{Time}
use quotacontrol.Exec.{Exec}
use quotacontrol.Proto.Errors.{rpc, timeout, ok, err, errors_is}
use quotacontrol.Proto.Types.{Service, Cycle}
use quotacontrol.Proto.Cycles.{get_start, get_end}
use quotacontrol.Cache.{Cache, QuotaCache, PermissionCache}
use quotacontrol.Cache.Keys.{usage_key, cache_key_quota}
use quotacontrol.Cache.Redis.{Redis, Codec, CodecLaws, RedisLaws}
use quotacontrol.Cache.RedisCache.{redis_usage_cache, peek_usage, special_value}
use quotacontrol.Cache.RedisCache.Usage.{
  counting, filling, empty, peek_usage_refines, set_usage_refines,
}
use quotacontrol.Client.{QuotaClient}
use quotacontrol.Client.Fetch.{ensure_usage, ensure_rounds, fill_usage}

module _ {W B : Type 0} (r : Redis W B) (c : Codec B) (ttl : ℤ) (content : W → Text → Option B)
    (codec : CodecLaws c) (laws : RedisLaws r c content) (quotas : QuotaCache W)
    (permissions : PermissionCache W) (quota_client : QuotaClient W) (service : Service)
    (sleep : ℕ → Exec W (Unit {0})) (p : ℕ) (cycle : Option Cycle) (now : Time) where
  abbrev caches : Cache W
  caches = record { quota = quotas; usage = redis_usage_cache r c ttl; permission = permissions }

  abbrev counter : Text
  counter = cache_key_quota p cycle (some service) now

  abbrev at_counter : W → Option B
  at_counter w = content w (usage_key counter)

  abbrev seen : W → W
  seen w = (peek_usage r c ttl counter w).1

  round_hit :
      (left i : ℕ) (n : ℤ) (w : W)
      → pos 0 ≤ℤ n
      → at_counter w ≡ some (c.int_bytes n)
      → (ensure_rounds caches quota_client service sleep (left + 1) i p cycle now w).0 ≡ ok n
  unfolding ensure_rounds
  round_hit left i n w pos_n h =
      ground
        (arith, (peek_usage_refines r c ttl content codec laws counter w (counting n) pos_n h).0)

  round_wait :
      (left i : ℕ) (w v : W)
      → at_counter w ≡ some (c.int_bytes special_value)
      → sleep (100000000 * (i + 1)) (seen w) ≡ (ok tt, v)
      → ensure_rounds caches quota_client service sleep (left + 1) i p cycle now w
        ≡ ensure_rounds caches quota_client service sleep left (i + 1) p cycle now v
  unfolding ensure_rounds errors_is
  round_wait left i w v h slept =
      ground (arith, (peek_usage_refines r c ttl content codec laws counter w filling tt h).0)

  -- Over Redis, where the counter is being filled in by another client and holds a number that is
  -- not negative after the first sleep of 100 ms: EnsureUsage returns that number.
  pub ensure_usage_waits :
      (n : ℤ) (w v : W)
      → at_counter w ≡ some (c.int_bytes special_value)
      → sleep 100000000 (seen w) ≡ (ok tt, v)
      → pos 0 ≤ℤ n
      → at_counter v ≡ some (c.int_bytes n)
      → (ensure_usage caches quota_client service sleep p cycle now w).0 ≡ ok n
  unfolding ensure_usage
  ensure_usage_waits n w v h slept pos_n filled =
      ground (arith, round_wait 2 0 w v h slept, round_hit 1 1 n v pos_n filled)

  -- Over Redis, where the counter is being filled in by another client in each of three rounds:
  -- EnsureUsage sleeps for 100, 200 and 300 ms and fails with the timeout error.
  pub ensure_usage_times_out :
      (w0 w1 w2 w3 : W)
      → at_counter w0 ≡ some (c.int_bytes special_value)
      → sleep 100000000 (seen w0) ≡ (ok tt, w1)
      → at_counter w1 ≡ some (c.int_bytes special_value)
      → sleep 200000000 (seen w1) ≡ (ok tt, w2)
      → at_counter w2 ≡ some (c.int_bytes special_value)
      → sleep 300000000 (seen w2) ≡ (ok tt, w3)
      → ensure_usage caches quota_client service sleep p cycle now w0 ≡ (err (rpc timeout), w3)
  unfolding ensure_usage ensure_rounds
  ensure_usage_times_out w0 w1 w2 w3 h0 s0 h1 s1 h2 s2 =
      ground
        (arith, round_wait 2 0 w0 w1 h0 s0, round_wait 1 1 w1 w2 h1 s1, round_wait 0 2 w2 w3 h2 s2)

  -- Over Redis, where the counter is empty and the server answers with the usage of the cycle:
  -- EnsureUsage returns that usage and leaves it in the counter.
  pub ensure_usage_fills :
      (n : ℤ) (w v : W)
      → at_counter w ≡ none
      → quota_client.get_usage p none
          (some service)
          (some (get_start cycle now))
          (some (get_end cycle now))
          (seen w)
        ≡ (ok n, v)
      → ((ensure_usage caches quota_client service sleep p cycle now w).0 ≡ ok n)
        × (at_counter (ensure_usage caches quota_client service sleep p cycle now w).1
            ≡ some (c.int_bytes n))
  unfolding ensure_usage ensure_rounds fill_usage errors_is
  ensure_usage_fills n w v h answered =
      let looked = (peek_usage_refines r c ttl content codec laws counter w empty tt h).0 in
      let set = set_usage_refines r c ttl content codec laws counter n v in
      (
        ground (arith, looked, set.0),
        ground (arith, looked, set.0, set.1 (usage_key counter), beq_self (usage_key counter)),
      )
