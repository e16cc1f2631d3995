-- ===== src/Client/Permission/Cached.antt =====
-- `FetchPermission` of client.go over Redis.
use quotacontrol.Prelude.{ℕ, ◌*◌, ◌≡◌, Option, none, some, false, arith, ap}
use quotacontrol.Prelude.Int.{ℤ, pos}
use quotacontrol.Prelude.Text.{Text, text_eq}
use quotacontrol.Prelude.Assoc.{beq_self}
use quotacontrol.Proto.Errors.{ok, is_exactly}
use quotacontrol.Proto.Types.{UserPermission, unauthorized, ResourceAccess, permission_beq}
use quotacontrol.Cache.{Cache, QuotaCache, UsageCache}
use quotacontrol.Cache.Keys.{permission_key}
use quotacontrol.Cache.Redis.{Redis, Codec, CodecLaws, RedisLaws}
use quotacontrol.Cache.RedisCache.{
  second, get_user_permission, set_user_permission, redis_permission_cache,
}
use quotacontrol.Client.{QuotaClient, RequestContext, Sessions}
use quotacontrol.Client.Permission.{user_of, ask_permission, fetch_permission}

module _ {W B : Type 0} (r : Redis W B) (c : Codec B) (ttl : ℤ) (content : W → Text → Option B)
    (codec : CodecLaws c) (laws : RedisLaws r c content) where
  stored_reply :
      (p : ℕ) (u : Text) (w : W) (perm : UserPermission) (access : Option ResourceAccess) (raw : B)
      → c.marshal_permission (perm, access) ≡ ok raw
      → content w (permission_key p u) ≡ some raw
      → (get_user_permission r c ttl p u w).0 ≡ ok (perm, access, none)
  unfolding get_user_permission
  stored_reply p u w perm access raw m h =
      ground
        (arith, laws.get_reply (permission_key p u) w, codec.permission_back (perm, access) raw m)

  missing_reply :
      (p : ℕ) (u : Text) (w : W)
      → content w (permission_key p u) ≡ none
      → get_user_permission r c ttl p u w
        ≡ (ok (unauthorized, none, none), (r.get (permission_key p u) w).1)
  unfolding get_user_permission is_exactly
  missing_reply p u w h = ground (arith, laws.get_reply (permission_key p u) w)

  set_reply :
      (p : ℕ) (u : Text) (w : W) (perm : UserPermission) (access : Option ResourceAccess) (raw : B)
      → c.marshal_permission (perm, access) ≡ ok raw
      → ((set_user_permission r c ttl p u perm access w).0 ≡ ok tt)
        × (content (set_user_permission r c ttl p u perm access w).1 (permission_key p u)
            ≡ some raw)
  unfolding set_user_permission
  set_reply p u w perm access raw m = ground (
    arith,
    laws.set_reply (permission_key p u) raw (pos (10 * second)) w,
    laws.set_content (permission_key p u) raw (pos (10 * second)) w (permission_key p u),
    beq_self (permission_key p u),
  )

  -- A cache whose permissions are in Redis.
  abbrev pub over_redis : QuotaCache W → UsageCache W → Cache W
  over_redis quota usage = record {
    quota = quota;
    usage = usage;
    permission = redis_permission_cache r c ttl;
  }

  -- Over Redis, where the permission is not cached and the server replies with one other than
  -- unauthorized that can be encoded: FetchPermission returns it, and so does the next one,
  -- whatever the server would reply by then.
  pub fetch_permission-Cached :
      (quota : QuotaCache W) (usage : UsageCache W) (quota_client : QuotaClient W)
      (sessions : Sessions) (ctx : RequestContext) (p : ℕ) (perm : UserPermission)
      (access : Option ResourceAccess) (raw : B) (w v : W)
      → permission_beq perm unauthorized ≡ false
      → c.marshal_permission (perm, access) ≡ ok raw
      → content w (permission_key p (user_of ctx)) ≡ none
      → quota_client.get_user_permission p
          (user_of ctx)
          (r.get (permission_key p (user_of ctx)) w).1
        ≡ (ok (perm, access), v)
      → let after = fetch_permission (over_redis quota usage) quota_client sessions ctx p w in
        (after.0 ≡ ok (perm, access))
        × ((later : QuotaClient W)
            → (fetch_permission (over_redis quota usage) later sessions ctx p after.1).0
              ≡ ok (perm, access))
  unfolding fetch_permission ask_permission
  fetch_permission-Cached quota usage quota_client sessions ctx p perm access raw w v some_right m
        empty asked =
      let u = user_of ctx in
      let (set_ok, stored) = set_reply p u v perm access raw m in
      let after = (set_user_permission r c ttl p u perm access v).1 in
      let run : fetch_permission (over_redis quota usage) quota_client sessions ctx p w
          ≡ (ok (perm, access), after) =
        ground (arith, missing_reply p u w empty, asked, set_ok, some_right) in
      (
        ap (λ x. x.0) run,
        λ later. ground (arith, run, stored_reply p u after perm access raw m stored, some_right),
      )
