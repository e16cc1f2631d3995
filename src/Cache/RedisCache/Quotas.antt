-- ===== src/Cache/RedisCache/Quotas.antt =====
-- The quotas that `RedisCache` of cache.go stores, by their keys.
use quotacontrol.Prelude.{if◌then◌else◌, ◌≡◌, ◌≢◌, Option, none, some, arith, ◌==◌}
use quotacontrol.Prelude.Int.{ℤ}
use quotacontrol.Prelude.Text.{Text, text_eq, text_beq_iff, append_cancel, codes}
use quotacontrol.Prelude.Assoc.{beq_self}
use quotacontrol.Proto.Errors.{rpc, access_key_not_found, ok, err, is_exactly}
use quotacontrol.Proto.Types.{AccessQuota}
use quotacontrol.Cache.Keys.{quota_key}
use quotacontrol.Cache.Redis.{Redis, Codec, CodecLaws, RedisLaws}
use quotacontrol.Cache.RedisCache.{get_quota, set_quota, delete_quota}

pub quota_key_ne : (k j : Text) → k ≢ j → quota_key k ≢ quota_key j
unfolding quota_key
quota_key_ne k j ne e = ne (append_cancel (codes "quota:v2:") k j e)

module _ {W B : Type 0} (r : Redis W B) (c : Codec B) (ttl : ℤ) (content : W → Text → Option B)
    (codec : CodecLaws c) (laws : RedisLaws r c content) where
  open laws use {get_reply, set_reply, set_content, del_reply, del_content}

  -- What a read replies depends on what is stored under its key.
  pub get_quota_stored :
      (key : Text) (w : W) (quota : AccessQuota) (raw : B)
      → c.unmarshal_quota raw ≡ ok quota
      → content w (quota_key key) ≡ some raw
      → (get_quota r c ttl key w).0 ≡ ok quota
  unfolding get_quota
  get_quota_stored key w quota raw m h = ground (arith, get_reply (quota_key key) w, m)

  pub get_quota_missing :
      (key : Text) (w : W)
      → content w (quota_key key) ≡ none
      → (get_quota r c ttl key w).0 ≡ err (rpc access_key_not_found)
  unfolding get_quota is_exactly
  get_quota_missing key w h = ground (arith, get_reply (quota_key key) w)

  pub get_quota_congr :
      (key : Text) (v w : W)
      → content w (quota_key key) ≡ content v (quota_key key)
      → (get_quota r c ttl key w).0 ≡ (get_quota r c ttl key v).0
  unfolding get_quota
  get_quota_congr key v w h =
      ground (arith, get_reply (quota_key key) w, get_reply (quota_key key) v)

  pub content-set_quota :
      (key j : Text) (w : W) (quota : AccessQuota) (raw : B)
      → c.marshal_quota quota ≡ ok raw
      → content (set_quota r c ttl key quota w).1 j
        ≡ (if quota_key key == j then some raw else content w j)
  unfolding set_quota
  content-set_quota key j w quota raw m =
      ground (arith, set_reply (quota_key key) raw ttl w, set_content (quota_key key) raw ttl w j)

  -- After a quota whose encoding is decoded as a quota is set under a key, a read of that key
  -- replies with the decoded one, which is the one that was set where the encoding keeps it, and a
  -- read of another key replies as before.
  pub get_quota-set_quota :
      (key other : Text) (w : W) (quota back : AccessQuota) (raw : B)
      → c.marshal_quota quota ≡ ok raw
      → c.unmarshal_quota raw ≡ ok back
      → key ≢ other
      → ((get_quota r c ttl key (set_quota r c ttl key quota w).1).0 ≡ ok back)
        × ((get_quota r c ttl other (set_quota r c ttl key quota w).1).0
            ≡ (get_quota r c ttl other w).0)
  get_quota-set_quota key other w quota back raw m u ne =
      let w' = (set_quota r c ttl key quota w).1 in
      (
        get_quota_stored key w' back raw u (
            ground (
              arith,
              content-set_quota key (quota_key key) w quota raw m,
              beq_self (quota_key key),
            )),
        get_quota_congr other w w' (
            ground (
              arith,
              content-set_quota key (quota_key other) w quota raw m,
              text_beq_iff (quota_key key) (quota_key other),
              quota_key_ne key other ne,
            )),
      )

  -- To delete a quota succeeds; after it a read of the key fails with the error of an unknown
  -- access key, and a read of another key replies as before.
  pub get_quota-delete_quota :
      (key other : Text) (w : W)
      → key ≢ other
      → ((delete_quota r c ttl key w).0 ≡ ok tt)
        × ((get_quota r c ttl key (delete_quota r c ttl key w).1).0
            ≡ err (rpc access_key_not_found))
        × ((get_quota r c ttl other (delete_quota r c ttl key w).1).0
            ≡ (get_quota r c ttl other w).0)
  unfolding delete_quota
  get_quota-delete_quota key other w ne =
      let k = quota_key key in
      let o = quota_key other in
      (
        ground (arith, del_reply k w),
        get_quota_missing key (delete_quota r c ttl key w).1
            (ground (arith, del_reply k w, del_content k w k, beq_self k)),
        get_quota_congr other w (delete_quota r c ttl key w).1 (
            ground (
              arith,
              del_reply k w,
              del_content k w o,
              text_beq_iff k o,
              quota_key_ne key other ne,
            )),
      )
