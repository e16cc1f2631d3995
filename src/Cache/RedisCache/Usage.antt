-- ===== src/Cache/RedisCache/Usage.antt =====
-- The usage counters of `RedisCache`, against an abstract slot: empty, being filled in, or counting.
use quotacontrol.Prelude.{
  ◌≡◌, refl, Option, none, some, arith, ◌==◌, Bool, true, false, if◌then◌else◌,
}
use quotacontrol.Prelude.Int.{ℤ, pos, ◌+ℤ◌, ◌≤ℤ◌, IsInt64, int_eq, leb_ℤ}
use quotacontrol.Prelude.Text.{Text, text_eq, text_beq_iff}
use quotacontrol.Prelude.Assoc.{beq_self}
use quotacontrol.Proto.Errors.{
  Error, sentinel, wrapped, rpc, quota_exceeded, cache_ready, cache_wait, Result, ok, err,
  errors_is,
}
use quotacontrol.Cache.Keys.{usage_key}
use quotacontrol.Cache.Redis.{Redis, Codec, CodecLaws, RedisLaws}
use quotacontrol.Cache.RedisCache.{
  special_value, peek_usage, look_to_spend, add_spend, spend_usage, set_usage, clear_usage,
}

pub data Slot : Type 0 where
  empty filling : Slot
  counting : ℤ → Slot

-- A look at a slot. An empty one is reserved for whoever looked: the errors tell to fill it in, or
-- to wait for the one who does.
abbrev pub peek : Slot → Result ℤ × Slot
peek empty = (err (sentinel cache_ready), filling)
peek filling = (err (sentinel cache_wait), filling)
peek (counting n) = (ok n, counting n)

-- A spend below the limit is added; one at the limit is refused.
abbrev pub spend : ℤ → ℤ → Slot → (ℤ × Option Error) × Slot
spend amount limit empty =
    ((pos 0, some (wrapped "spend usage - peek" (sentinel cache_ready))), filling)
spend amount limit filling =
    ((pos 0, some (wrapped "spend usage - peek" (sentinel cache_wait))), filling)
spend amount limit (counting n) =
    if leb_ℤ limit n
    then ((n, some (rpc quota_exceeded)), counting n)
    else ((n +ℤ amount, none), counting (n +ℤ amount))

abbrev pub IsCount : Slot → Type 0
IsCount (counting n) = pos 0 ≤ℤ n
IsCount _ = Unit {0}

abbrev pub is_taken : Slot → Bool
is_taken empty = false
is_taken _ = true

module _ {W B : Type 0} (r : Redis W B) (c : Codec B) (ttl : ℤ) (content : W → Text → Option B)
    (codec : CodecLaws c) (laws : RedisLaws r c content) where
  open laws use {
    get_reply, get_keeps, set_reply, set_content, set_nx_reply, set_nx_content, incr_reply,
    incr_content, del_reply, del_content,
  }
  open codec use {int_back}

  abbrev pub stored : Slot → Option B
  stored empty = none
  stored filling = some (c.int_bytes special_value)
  stored (counting n) = some (c.int_bytes n)

  -- `w` holds the slot under the key, and is `v` at every other.
  abbrev pub Leaves : W → W → Text → Slot → Type 0
  Leaves v w key s =
      (j : Text) → content w j ≡ (if usage_key key == j then stored s else content v j)

  peek_reply :
      (key : Text) (w : W) (s : Slot)
      → IsCount s
      → content w (usage_key key) ≡ stored s
      → (peek_usage r c ttl key w).0 ≡ (peek s).0
  unfolding peek_usage errors_is
  peek_reply key w empty i h =
      let k = usage_key key in
      let w' = (r.get k w).1 in
      ground (
        arith,
        h,
        get_reply k w,
        get_keeps k w k,
        set_nx_reply k (c.int_bytes special_value) (pos 2000000000) w',
      )
  peek_reply key w filling i h =
      let k = usage_key key in ground (arith, h, get_reply k w, int_back special_value)
  peek_reply key w (counting n) i h =
      let k = usage_key key in ground (arith, h, get_reply k w, int_back n)

  content-peek :
      (key j : Text) (w : W) (s : Slot)
      → IsCount s
      → content w (usage_key key) ≡ stored s
      → content (peek_usage r c ttl key w).1 j
        ≡ (if usage_key key == j then stored (peek s).1 else content w j)
  unfolding peek_usage errors_is
  content-peek key j w empty i h =
      let k = usage_key key in
      let w' = (r.get k w).1 in
      ground (
        arith,
        h,
        get_reply k w,
        get_keeps k w k,
        get_keeps k w j,
        set_nx_reply k (c.int_bytes special_value) (pos 2000000000) w',
        set_nx_content k (c.int_bytes special_value) (pos 2000000000) w' j,
      )
  content-peek key j w filling i h =
      let k = usage_key key in
      ground (arith, h, get_reply k w, get_keeps k w j, text_beq_iff k j, int_back special_value)
  content-peek key j w (counting n) i h =
      let k = usage_key key in
      ground (arith, h, get_reply k w, get_keeps k w j, text_beq_iff k j, int_back n)

  -- For a slot that is empty, being filled in, or counting from a number that is not negative:
  -- PeekUsage is the look at the slot under its key, and changes nothing else in Redis.
  pub peek_usage_refines :
      (key : Text) (w : W) (s : Slot)
      → IsCount s
      → content w (usage_key key) ≡ stored s
      → ((peek_usage r c ttl key w).0 ≡ (peek s).0)
        × Leaves w (peek_usage r c ttl key w).1 key (peek s).1
  peek_usage_refines key w s i h = (peek_reply key w s i h, λ j. content-peek key j w s i h)

  -- For a slot that is empty, being filled in, or counting from a number that is not negative,
  -- where the sum with the amount is an int64: SpendUsage is the spend from the slot under its key,
  -- and changes nothing else in Redis.
  pub spend_usage_refines :
      (key : Text) (amount limit : ℤ) (w : W) (s : Slot)
      → IsCount s
      → ((n : ℤ) → s ≡ counting n → IsInt64 (n +ℤ amount))
      → content w (usage_key key) ≡ stored s
      → ((spend_usage r c ttl key amount limit w).0 ≡ ok (spend amount limit s).0)
        × Leaves w (spend_usage r c ttl key amount limit w).1 key (spend amount limit s).1
  unfolding spend_usage look_to_spend add_spend
  spend_usage_refines key amount limit w empty i fits h = (
    ground (arith, peek_reply key w empty i h),
    λ j. ground (arith, peek_reply key w empty i h, content-peek key j w empty i h),
  )
  spend_usage_refines key amount limit w filling i fits h = (
    ground (arith, peek_reply key w filling i h),
    λ j. ground (arith, peek_reply key w filling i h, content-peek key j w filling i h),
  )
  spend_usage_refines key amount limit w (counting n) i fits h =
      let k = usage_key key in
      let w' = (peek_usage r c ttl key w).1 in
      let after = content-peek key k w (counting n) i h in
      let same = beq_self k in
      (
        ground (
          arith,
          peek_reply key w (counting n) i h,
          after,
          same,
          fits n refl,
          incr_reply k n amount w',
        ),
        λ j. ground (
          arith,
          peek_reply key w (counting n) i h,
          after,
          same,
          fits n refl,
          incr_reply k n amount w',
          content-peek key j w (counting n) i h,
          incr_content k n amount w' j,
        ),
      )

  -- SetUsage succeeds, makes the slot under its key count the amount, and changes nothing else in
  -- Redis.
  pub set_usage_refines :
      (key : Text) (amount : ℤ) (w : W)
      → ((set_usage r c ttl key amount w).0 ≡ ok tt)
        × Leaves w (set_usage r c ttl key amount w).1 key (counting amount)
  unfolding set_usage
  set_usage_refines key amount w =
      let k = usage_key key in
      (
        ground (arith, set_reply k (c.int_bytes amount) ttl w),
        λ j. ground (
          arith,
          set_reply k (c.int_bytes amount) ttl w,
          set_content k (c.int_bytes amount) ttl w j,
        ),
      )

  -- ClearUsage tells whether the slot under its key was taken, empties it, and changes nothing else
  -- in Redis.
  pub clear_usage_refines :
      (key : Text) (w : W) (s : Slot)
      → content w (usage_key key) ≡ stored s
      → ((clear_usage r c ttl key w).0 ≡ ok (is_taken s))
        × Leaves w (clear_usage r c ttl key w).1 key empty
  unfolding clear_usage
  clear_usage_refines key w s h =
      let k = usage_key key in
      (ground (arith, h, del_reply k w), λ j. ground (arith, del_reply k w, del_content k w j))
