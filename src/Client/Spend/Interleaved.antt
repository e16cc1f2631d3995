-- ===== src/Client/Spend/Interleaved.antt =====
-- Spends of several clients on one counter in Redis. `SpendUsage` reads the counter and later adds
-- to it, so that other clients may come in between; the steps are single Redis operations.
use quotacontrol.Prelude.{◌≡◌, Option, none, some, List, [], ◌∷◌, ◌++◌, arith, if◌then◌else◌}
use quotacontrol.Prelude.Int.{
  ℤ, pos, ◌+ℤ◌, ◌-ℤ◌, ◌≤ℤ◌, ◌<ℤ◌, IsInt64, min_ℤ, max_ℤ, leb_ℤ, int_laws,
}
use quotacontrol.Prelude.Text.{Text, text_eq}
use quotacontrol.Prelude.Assoc.{beq_self}
use quotacontrol.Proto.Errors.{Error, rpc, quota_exceeded, ok}
use quotacontrol.Proto.Types.{ServiceLimit}
use quotacontrol.Proto.Limits.{get_spend_result, validate_service_limit}
use quotacontrol.Proto.Limits.Charge.{charge}
use quotacontrol.Client.Spend.Sums.{
  sum, cancel_right, assoc_bound, chain, below_bound, at_most_max, fits_between, self_diff,
  add_zero, sum-split,
}
use quotacontrol.Cache.Keys.{usage_key}
use quotacontrol.Cache.Redis.{Redis, Codec, CodecLaws, RedisLaws}
use quotacontrol.Cache.RedisCache.{refuse, proceed, peek_usage, look_to_spend, add_spend}
use quotacontrol.Cache.RedisCache.Usage.{counting, peek_usage_refines}

module _ {W B : Type 0} (r : Redis W B) (c : Codec B) (ttl : ℤ) (content : W → Text → Option B)
    (codec : CodecLaws c) (laws : RedisLaws r c content) (key : Text) (cfg : ServiceLimit) where
  abbrev pub Counts : W → ℤ → Type 0
  Counts w n = content w (usage_key key) ≡ some (c.int_bytes n)

  -- The runs of clients that call `SpendUsage` for the key, from `start`, one Redis operation at a
  -- time: each looks, and if it may proceed adds later. A run ends in a world, with the amounts of
  -- the clients that may add and have not yet, and with the usage that was counted for the spends
  -- so far. Amounts are positive, and those that wait never exceed `burst` together. Clients that
  -- only look come in between.
  pub data Run (start : W) (burst : ℤ) : W → List ℤ → ℤ → Type 0 where
    none_yet : Run start burst start [] (pos 0)
    peeked :
        {w : W} {waiting : List ℤ} {total : ℤ}
        → Run start burst w waiting total
        → Run start burst (peek_usage r c ttl key w).1 waiting total
    turned_away :
        {w v : W} {waiting : List ℤ} {total : ℤ} (n : ℤ) (e : Error)
        → Run start burst w waiting total
        → look_to_spend r c ttl key cfg.over_max w ≡ (ok (refuse n e), v)
        → Run start burst v waiting total
    looked :
        {w v : W} {waiting : List ℤ} {total : ℤ} (n a : ℤ)
        → Run start burst w waiting total
        → pos 0 <ℤ a
        → a +ℤ sum waiting ≤ℤ burst
        → look_to_spend r c ttl key cfg.over_max w ≡ (ok (proceed n), v)
        → Run start burst v (a ∷ waiting) total
    added :
        {w v : W} {total : ℤ} (xs ys : List ℤ) (a seen n : ℤ)
        → Run start burst w (xs ++ a ∷ ys) total
        → add_spend r c ttl key a seen w ≡ (ok (n, none), v)
        → Run start burst v (xs ++ ys) (total +ℤ (get_spend_result cfg a n).0)

  -- A look at a counter leaves it, and lets a spend proceed only below the limit.
  peek-Counts : (n : ℤ) (w : W) → pos 0 ≤ℤ n → Counts w n → Counts (peek_usage r c ttl key w).1 n
  peek-Counts n w i h = ground (
    arith,
    (peek_usage_refines r c ttl content codec laws key w (counting n) i h).1 (usage_key key),
    beq_self (usage_key key),
  )

  look-Counts :
      (n limit : ℤ) (w : W)
      → pos 0 ≤ℤ n
      → Counts w n
      → (look_to_spend r c ttl key limit w ≡ (
        ok (if leb_ℤ limit n then refuse n (rpc quota_exceeded) else proceed n),
        (peek_usage r c ttl key w).1,
      ))
        × Counts (peek_usage r c ttl key w).1 n
  unfolding look_to_spend
  look-Counts n limit w i h = (
    ground (arith, (peek_usage_refines r c ttl content codec laws key w (counting n) i h).0),
    peek-Counts n w i h,
  )

  add_lem :
      (a seen n : ℤ) (w v : W)
      → add_spend r c ttl key a seen w ≡ (ok (n, none), v)
      → r.incr_by (usage_key key) a w ≡ (ok n, v)
  unfolding add_spend
  add_lem a seen n w v e = ground arith

  abbrev AllPos : List ℤ → Type 0
  AllPos [] = Unit {0}
  AllPos (a ∷ rest) = (pos 0 <ℤ a) × AllPos rest

  AllPos-split : (xs ys : List ℤ) (a : ℤ) → AllPos (xs ++ a ∷ ys) → (pos 0 <ℤ a) × AllPos (xs ++ ys)
  AllPos-split [] ys a h = h
  AllPos-split (x ∷ xs) ys a h = let (p, q) = AllPos-split xs ys a h.1 in (p, (h.0, q))

  sum-AllPos : (xs : List ℤ) → AllPos xs → pos 0 ≤ℤ sum xs
  sum-AllPos [] h = omega arith
  sum-AllPos (x ∷ xs) h = omega (int_laws, sum-AllPos xs h.1, h.0)

  abbrev pub bound : ℤ → ℤ → ℤ
  bound n0 burst = max_ℤ n0 (cfg.over_max +ℤ burst)

  record Keeps (n0 burst : ℤ) (w : W) (waiting : List ℤ) (total : ℤ) : Type 0 where
    n : ℤ
    counts : Counts w n
    grows : n0 ≤ℤ n
    positive : AllPos waiting
    bounded : n +ℤ sum waiting ≤ℤ bound n0 burst
    accounted : total ≡ min_ℤ n cfg.over_max -ℤ min_ℤ n0 cfg.over_max

  module _ (start : W) (n0 burst : ℤ) (valid : validate_service_limit cfg ≡ none)
      (starts : Counts start n0) (nonneg : pos 0 ≤ℤ n0) (fits : IsInt64 (bound n0 burst)) where
    -- A step that leaves the counter as it is.
    Keeps-same :
        {w v : W} {waiting : List ℤ} {total : ℤ}
        → (s : Keeps n0 burst w waiting total) → Counts v s.n
        → Keeps n0 burst v waiting total
    Keeps-same s h = record {
      n = s.n;
      counts = h;
      grows = s.grows;
      positive = s.positive;
      bounded = s.bounded;
      accounted = s.accounted;
    }

    Keeps-peeked :
        {w : W} {waiting : List ℤ} {total : ℤ}
        → Keeps n0 burst w waiting total
        → Keeps n0 burst (peek_usage r c ttl key w).1 waiting total
    Keeps-peeked {w} s = Keeps-same s (peek-Counts s.n w (omega (arith, s.grows)) s.counts)

    Keeps-turned_away :
        {w v : W} {waiting : List ℤ} {total : ℤ} (n : ℤ) (e : Error)
        → Keeps n0 burst w waiting total
        → look_to_spend r c ttl key cfg.over_max w ≡ (ok (refuse n e), v)
        → Keeps n0 burst v waiting total
    Keeps-turned_away {w} n e s h =
        let (ran, counts) = look-Counts s.n cfg.over_max w (omega (arith, s.grows)) s.counts in
        Keeps-same s (ground (arith, ran, counts, h))

    Keeps-looked :
        {w v : W} {waiting : List ℤ} {total : ℤ} (n a : ℤ)
        → Keeps n0 burst w waiting total
        → pos 0 <ℤ a
        → a +ℤ sum waiting ≤ℤ burst
        → look_to_spend r c ttl key cfg.over_max w ≡ (ok (proceed n), v)
        → Keeps n0 burst v (a ∷ waiting) total
    Keeps-looked {w} {v} {waiting} {total} n a s p q e =
        let (ran, counts) = look-Counts s.n cfg.over_max w (omega (arith, s.grows)) s.counts in
        let below : s.n <ℤ cfg.over_max = ground (arith, ran, e) in
        record {
          n = s.n;
          counts = ground (arith, ran, counts, e);
          grows = s.grows;
          positive = (p, s.positive);
          bounded = omega (
            arith,
            below_bound s.n a (sum waiting) cfg.over_max burst q below,
            at_most_max n0 (cfg.over_max +ℤ burst),
          );
          accounted = s.accounted;
        }

    Keeps-added :
        {w v : W} {total : ℤ} (xs ys : List ℤ) (a n : ℤ)
        → Keeps n0 burst w (xs ++ a ∷ ys) total
        → r.incr_by (usage_key key) a w ≡ (ok n, v)
        → Keeps n0 burst v (xs ++ ys) (total +ℤ (get_spend_result cfg a n).0)
    Keeps-added {w} {v} {total} xs ys a n s e =
        let (p, ps) = AllPos-split xs ys a s.positive in
        let rest = sum-AllPos (xs ++ ys) ps in
        let b = bound n0 burst in
        let within : s.n +ℤ (a +ℤ sum (xs ++ ys)) ≤ℤ b = rw (sum-split xs ys a) at s.bounded in
        let more =
          fits_between s.n a (sum (xs ++ ys)) b (omega (arith, s.grows)) p rest within fits in
        let same : n ≡ s.n +ℤ a =
          ground (arith, laws.incr_reply (usage_key key) s.n a w s.counts more) in
        let back = cancel_right s.n a in
        let cost =
          charge cfg a (s.n +ℤ a) valid
            (record { spent = omega arith; started = omega (int_laws, s.grows); fits = more }) in
        let step =
          chain (min_ℤ n0 cfg.over_max) (min_ℤ s.n cfg.over_max) (min_ℤ (s.n +ℤ a) cfg.over_max) in
        record {
          n = s.n +ℤ a;
          counts = ground (
            arith,
            laws.incr_content (usage_key key) s.n a w (usage_key key) s.counts more,
            beq_self (usage_key key),
          );
          grows = omega (int_laws, s.grows);
          positive = ps;
          bounded = assoc_bound s.n a (sum (xs ++ ys)) b within;
          accounted = cc (s.accounted, same, cost, back, step);
        }

    Keeps-run :
        {w : W} {waiting : List ℤ} {total : ℤ}
        → Run start burst w waiting total
        → Keeps n0 burst w waiting total
    Keeps-run none_yet = record {
      n = n0;
      counts = starts;
      grows = omega arith;
      positive = tt;
      bounded = ground (arith, add_zero n0);
      accounted = cc (self_diff (min_ℤ n0 cfg.over_max));
    }
    Keeps-run (peeked run) = Keeps-peeked (Keeps-run run)
    Keeps-run (turned_away n e run h) = Keeps-turned_away n e (Keeps-run run) h
    Keeps-run (looked n a run p q e) = Keeps-looked n a (Keeps-run run) p q e
    Keeps-run (added xs ys a seen n run e) =
        Keeps-added xs ys a n (Keeps-run run) (add_lem a seen n _ _ e)

    -- For spends of positive amounts under the same valid limits, from a counter that is not
    -- negative, where the amounts of clients that have looked and not added never exceed a burst
    -- together and the bound fits an int64: however the Redis operations of SpendUsage and
    -- PeekUsage by several clients interleave, the usage that was counted for their spends is the
    -- growth of the counter below the hard limit, and the counter together with the spends still to
    -- be added stays within the hard limit plus the burst, or within the value the counter started
    -- from where that is larger.
    pub spends_accounted :
        {w : W} {waiting : List ℤ} {total : ℤ}
        → Run start burst w waiting total
        → (n : ℤ) × Counts w n
          × (n +ℤ sum waiting ≤ℤ bound n0 burst)
          × (total ≡ min_ℤ n cfg.over_max -ℤ min_ℤ n0 cfg.over_max)
    spends_accounted run = let k = Keeps-run run in (k.n, k.counts, k.bounded, k.accounted)
