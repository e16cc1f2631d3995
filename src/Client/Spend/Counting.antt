-- ===== src/Client/Spend/Counting.antt =====
-- `SpendQuota` over a counter in Redis that some client has filled in.
use quotacontrol.Prelude.{
  ℕ, ◌≡◌, ◌≢◌, refl, Bool, true, false, Option, none, some, arith, if◌then◌else◌,
}
use quotacontrol.Prelude.Int.{
  ℤ, pos, ◌+ℤ◌, ◌-ℤ◌, ◌≤ℤ◌, ◌<ℤ◌, IsInt64, int_eq, int_beq_iff, ltb_ℤ, min_ℤ, int_laws, -ℤ_parts,
  +ℤ_parts,
}
use quotacontrol.Prelude.Text.{Text, text_eq, text_beq_iff}
use quotacontrol.Prelude.Assoc.{beq_self}
use quotacontrol.Time.{Time}
use quotacontrol.Exec.{Exec, attempted, pure, run_next}
use quotacontrol.Proto.Errors.{rpc, quota_exceeded, Result, ok, err, panic}
use quotacontrol.Proto.Types.{
  Service, EventType, AccessKey, AccessQuota, Limit, ServiceLimit, Cycle,
}
use quotacontrol.Proto.Limits.{get_settings, get_spend_result, validate_service_limit}
use quotacontrol.Proto.Limits.Charge.{charge}
use quotacontrol.Cache.{Cache, QuotaCache, PermissionCache}
use quotacontrol.Cache.Keys.{usage_key, cache_key_quota}
use quotacontrol.Cache.Redis.{Redis, Codec, CodecLaws, RedisLaws}
use quotacontrol.Cache.RedisCache.{redis_usage_cache, key_of, peek_usage, spend_usage}
use quotacontrol.Cache.RedisCache.Usage.{counting, peek_usage_refines, spend_usage_refines}
use quotacontrol.Usage.{Tracker}
use quotacontrol.Client.{QuotaClient}
use quotacontrol.Client.Fetch.{ensure_usage, ensure_rounds}
use quotacontrol.Client.Spend.{track, notify, settle, settle_spent, spend_from, spend_quota}

-- The usage that a spend counts for, from a counter below the limit.
abbrev pub counted : ServiceLimit → ℤ → ℤ → ℤ
counted cfg n cost = min_ℤ (n +ℤ cost) cfg.over_max -ℤ n

charge_below :
    (cfg : ServiceLimit) (n cost : ℤ)
    → validate_service_limit cfg ≡ none
    → pos 0 ≤ℤ n
    → n <ℤ cfg.over_max
    → pos 0 <ℤ cost
    → IsInt64 (n +ℤ cost)
    → (get_spend_result cfg cost (n +ℤ cost)).0 ≡ counted cfg n cost
charge_below cfg n cost valid i below spent fits =
    let back : (n +ℤ cost) -ℤ cost ≡ n = omega int_laws in
    let c =
      charge cfg cost (n +ℤ cost) valid
        (record { spent = omega arith; started = omega int_laws; fits = fits }) in
    ground (arith, c, back)

exceeds_iff :
    (cfg : ServiceLimit) (n cost : ℤ)
    → ltb_ℤ (counted cfg n cost) cost ≡ ltb_ℤ cfg.over_max (n +ℤ cost)
exceeds_iff cfg n cost =
    ground (arith, -ℤ_parts (n +ℤ cost) n, -ℤ_parts cfg.over_max n, +ℤ_parts n cost)

ignore_lem :
    {W : Type 0} (x : Result Bool × W)
    → x.0 ≢ panic
    → run_next {B = Unit {0}} (λ _. pure tt) (attempted x) ≡ (ok tt, x.1)
ignore_lem (ok b, w) calm = refl
ignore_lem (err e, w) calm = refl
ignore_lem (panic, w) calm = absurd (calm refl)

module _ {W B : Type 0} (r : Redis W B) (c : Codec B) (ttl : ℤ) (content : W → Text → Option B)
    (codec : CodecLaws c) (laws : RedisLaws r c content) (quotas : QuotaCache W)
    (permissions : PermissionCache W) (quota_client : QuotaClient W) (service : Service)
    (sleep : ℕ → Exec W (Unit {0})) where
  abbrev pub caches : Cache W
  caches = record { quota = quotas; usage = redis_usage_cache r c ttl; permission = permissions }

  abbrev pub key_at : AccessKey → AccessQuota → Time → Text
  key_at k quota now = cache_key_quota k.project_id quota.cycle (some service) now

  -- The world after a look at a counter.
  abbrev seen : Text → W → W
  seen key w = (peek_usage r c ttl key w).1

  ensure_counting :
      (p : ℕ) (cycle : Option Cycle) (now : Time) (n : ℤ) (w : W)
      → pos 0 ≤ℤ n
      → content w (usage_key (cache_key_quota p cycle (some service) now)) ≡ some (c.int_bytes n)
      → ensure_usage caches quota_client service sleep p cycle now w
        ≡ (ok n, seen (cache_key_quota p cycle (some service) now) w)
  unfolding ensure_usage ensure_rounds
  ensure_counting p cycle now n w i h = ground (
    arith,
    (peek_usage_refines r c ttl content codec laws (cache_key_quota p cycle (some service) now) w
        (counting n) i h).0,
  )

  -- For a quota with a key and limits of the service, whose counter is known, not negative and at
  -- or above the hard limit: a spend that is not zero is refused as exceeding the quota with the
  -- counter as its total, the tracker is as before, and so is everything in Redis.
  pub spend_quota_full :
      (quota : AccessQuota) (limit : Limit) (cfg : ServiceLimit) (k : AccessKey) (cost n : ℤ)
      (now : Time) (u : Tracker) (w : W)
      → quota.access_key ≡ some k
      → quota.limit ≡ some limit
      → get_settings limit service ≡ some cfg
      → cost ≢ pos 0
      → content w (usage_key (key_at k quota now)) ≡ some (c.int_bytes n)
      → pos 0 ≤ℤ n
      → cfg.over_max ≤ℤ n
      → (spend_quota caches quota_client service sleep (some quota) cost now (u, w)
          ≡ (ok (false, n, some (rpc quota_exceeded)), (u, seen (key_at k quota now) w)))
        × ((j : Text) → content (seen (key_at k quota now) w) j ≡ content w j)
  unfolding spend_quota spend_from key_of
  spend_quota_full quota limit cfg k cost n now u w ek el ec nonzero h i full =
      let key = key_at k quota now in
      (
        ground
            (arith, int_beq_iff cost (pos 0), ensure_counting k.project_id quota.cycle now n w i h),
        λ j. ground (
          arith,
          (peek_usage_refines r c ttl content codec laws key w (counting n) i h).1 j,
          text_beq_iff (usage_key key) j,
        ),
      )

  -- NotifyEvent may fail and may change what is not in Redis, but it does not panic.
  abbrev pub Notifies : Type 0
  Notifies =
      (p : ℕ) (s : Service) (e : EventType) (w : W)
      → ((quota_client.notify_event p s e w).0 ≢ panic)
        × ((j : Text) → content (quota_client.notify_event p s e w).1 j ≡ content w j)

  module _ (notifies : Notifies) where
    notify_lem :
        (p : ℕ) (e : Option EventType) (w : W)
        → (v : W) × (notify caches quota_client service sleep p e w ≡ (ok tt, v))
          × ((j : Text) → content v j ≡ content w j)
    unfolding notify
    notify_lem p none w = (w, refl, λ j. refl)
    notify_lem p (some e) w =
        let (calm, same) = notifies p service e w in
        let reply = quota_client.notify_event p service e w in
        (reply.1, ignore_lem reply calm, same)

    settle_run :
        (cfg : ServiceLimit) (k : AccessKey) (cost : ℤ) (now : Time) (total : ℤ) (u : Tracker)
        (w : W)
        → let after = settle caches quota_client service sleep cfg k cost now total (u, w) in
          (after.0
            ≡ ok (
                if ltb_ℤ (get_spend_result cfg cost total).0 cost
                then (false, total, some (rpc quota_exceeded))
                else (true, total, none)))
          × (after.1.0 ≡ track k now (get_spend_result cfg cost total).0 u)
          × ((j : Text) → content after.1.1 j ≡ content w j)
    unfolding settle
    settle_run cfg k cost now total u w =
        let (v, done, same) = notify_lem k.project_id (get_spend_result cfg cost total).1 w in
        (ground (arith, done), ground (arith, done), λ j. ground (arith, done, same j))

    -- For a quota with a key and valid limits of the service, whose counter is known, not negative
    -- and below the hard limit, and a positive cost whose sum with it is an int64, where
    -- NotifyEvent does not panic and does not touch Redis, whether it fails or not: the spend adds
    -- the cost to the counter and succeeds exactly when the sum is within the hard limit, and what
    -- lies below the limit is tracked in either case.
    pub spend_quota_below :
        (quota : AccessQuota) (limit : Limit) (cfg : ServiceLimit) (k : AccessKey) (cost n : ℤ)
        (now : Time) (u : Tracker) (w : W)
        → quota.access_key ≡ some k
        → quota.limit ≡ some limit
        → get_settings limit service ≡ some cfg
        → validate_service_limit cfg ≡ none
        → pos 0 <ℤ cost
        → content w (usage_key (key_at k quota now)) ≡ some (c.int_bytes n)
        → pos 0 ≤ℤ n
        → n <ℤ cfg.over_max
        → IsInt64 (n +ℤ cost)
        → let after = spend_quota caches quota_client service sleep (some quota) cost now (u, w) in
          (after.0
            ≡ ok (
                if ltb_ℤ cfg.over_max (n +ℤ cost)
                then (false, n +ℤ cost, some (rpc quota_exceeded))
                else (true, n +ℤ cost, none)))
          × (after.1.0 ≡ track k now (counted cfg n cost) u)
          × (content after.1.1 (usage_key (key_at k quota now)) ≡ some (c.int_bytes (n +ℤ cost)))
    unfolding spend_quota spend_from settle_spent key_of
    spend_quota_below quota limit cfg k cost n now u w ek el ec valid pays h i below fits =
        let key = key_at k quota now in
        let w1 = seen key w in
        let w2 = (spend_usage r c ttl key cost cfg.over_max w1).1 in
        let looked = peek_usage_refines r c ttl content codec laws key w (counting n) i h in
        let h1 : content w1 (usage_key key) ≡ some (c.int_bytes n) =
          ground (arith, looked.1 (usage_key key), beq_self (usage_key key)) in
        let spent =
          spend_usage_refines r c ttl content codec laws key cost cfg.over_max w1 (counting n) i
            (λ m e. ground arith) h1 in
        let ensured = ensure_counting k.project_id quota.cycle now n w i h in
        let settled = settle_run cfg k cost now (n +ℤ cost) u w2 in
        let charged = charge_below cfg n cost valid i below pays fits in
        let exceeds = exceeds_iff cfg n cost in
        (
          ground (arith, int_beq_iff cost (pos 0), ensured, spent.0, settled.0, charged, exceeds),
          ground (arith, int_beq_iff cost (pos 0), ensured, spent.0, settled.1, charged),
          ground (
            arith,
            int_beq_iff cost (pos 0),
            ensured,
            spent.0,
            settled.2 (usage_key key),
            spent.1 (usage_key key),
            beq_self (usage_key key),
          ),
        )
