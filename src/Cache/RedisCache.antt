-- ===== src/Cache/RedisCache.antt =====
-- `RedisCache` of cache.go.
pub mod Quotas
pub mod Usage
use quotacontrol.Prelude.{ℕ, ◌*◌, Bool, not, Option, none, some, ◌==◌, if◌then◌else◌, nat_beq}
use quotacontrol.Prelude.Int.{ℤ, pos, negsuc, int_eq, leb_ℤ}
use quotacontrol.Prelude.Text.{Text}
use quotacontrol.Exec.{Exec, ◌>>=◌, ◌>>◌, pure, raise, attempt, got, failed, wrap, lift}
use quotacontrol.Proto.Errors.{
  Error, sentinel, wrapped, rpc, access_key_not_found, quota_exceeded, redis_nil, cache_ready,
  cache_wait, errors_is, is_exactly, panic,
}
use quotacontrol.Proto.Types.{AccessQuota, AccessKey, UserPermission, unauthorized, ResourceAccess}
use quotacontrol.Cache.{QuotaCache, UsageCache, PermissionCache}
use quotacontrol.Cache.Keys.{usage_key, quota_key, permission_key, get_project_key}
use quotacontrol.Cache.Redis.{Redis, Codec}

abbrev pub second : ℕ
second = 1000000000

-- `NewRedisCache`: the time to live of the cache, an hour where none is configured.
unfoldable pub redis_ttl : ℤ → ℤ
redis_ttl ttl = if leb_ℤ ttl (pos 0) then pos (3600 * second) else ttl

-- `quota.AccessKey.…` panics where the quota has no access key.
unfoldable pub key_of : {W : Type 0} → AccessQuota → Exec W AccessKey
key_of quota = elim quota.access_key [ none ↦ lift panic | some k ↦ pure k ]

-- The value that marks a usage which some client is about to fill in.
abbrev pub special_value : ℤ
special_value = negsuc 0

-- What `SpendUsage` has found when it comes to add: what it returns at once, or the value that it saw.
pub data Look : Type 0 where
  refuse : ℤ → Error → Look
  proceed : ℤ → Look

module _ {W B : Type 0} (r : Redis W B) (c : Codec B) (ttl : ℤ) where
  unfoldable pub get_quota : Text → Exec W AccessQuota
  get_quota key = attempt (r.get (quota_key key)) >>= elim [
    | failed e ↦
        if is_exactly e redis_nil
        then raise (rpc access_key_not_found)
        else raise (wrapped "get quota" e)
    | got raw ↦ wrap "unmarshal quota" (lift (c.unmarshal_quota raw))
  ]

  unfoldable pub delete_quota : Text → Exec W (Unit {0})
  delete_quota key = wrap "delete quota" (r.del (quota_key key)) >> pure tt

  unfoldable pub set_quota : Text → AccessQuota → Exec W (Unit {0})
  set_quota key quota = do
    raw ← wrap "marshal quota" (lift (c.marshal_quota quota))
    wrap "set quota" (r.set (quota_key key) raw ttl)

  unfoldable pub set_usage : Text → ℤ → Exec W (Unit {0})
  set_usage key amount = wrap "set usage" (r.set (usage_key key) (c.int_bytes amount) ttl)

  unfoldable pub clear_usage : Text → Exec W Bool
  clear_usage key = do
    count ← wrap "clear usage" (r.del (usage_key key))
    pure (not (nat_beq count 0))

  unfoldable pub peek_usage : Text → Exec W ℤ
  peek_usage key = attempt (r.get (usage_key key) >>= λ raw. lift (c.int_of raw)) >>= elim [
    | got v ↦ if v == special_value then raise (sentinel cache_wait) else pure v
    | failed e ↦ if not (errors_is e redis_nil) then raise (wrapped "peek usage - get" e) else (do
      fresh ←
          wrap "peek usage - setnx"
            (r.set_nx (usage_key key) (c.int_bytes special_value) (pos (second * 2)))
      if fresh then raise (sentinel cache_ready) else raise (sentinel cache_wait))
  ]

  -- `SpendUsage` before it adds: `v >= limit` is the test.
  unfoldable pub look_to_spend : Text → ℤ → Exec W Look
  look_to_spend key limit = attempt (peek_usage key) >>= elim [
    | failed e ↦ pure (refuse (pos 0) (wrapped "spend usage - peek" e))
    | got v ↦ if leb_ℤ limit v then pure (refuse v (rpc quota_exceeded)) else pure (proceed v)
  ]

  unfoldable pub add_spend : Text → ℤ → ℤ → Exec W (ℤ × Option Error)
  add_spend key amount v = attempt (r.incr_by (usage_key key) amount) >>= elim [
    | failed e ↦ pure (v, some (wrapped "spend usage - incrby" e))
    | got value ↦ pure (value, none)
  ]

  -- The value goes back beside the error.
  unfoldable pub spend_usage : Text → ℤ → ℤ → Exec W (ℤ × Option Error)
  unfolding look_to_spend add_spend
  spend_usage key amount limit =
      look_to_spend key limit
      >>= elim [ refuse v e ↦ pure (v, some e) | proceed v ↦ add_spend key amount v ]

  unfoldable pub get_user_permission :
      ℕ → Text → Exec W (UserPermission × Option ResourceAccess × Option Error)
  get_user_permission project_id user_id =
      attempt (r.get (permission_key project_id user_id)) >>= elim [
        | failed e ↦
            if is_exactly e redis_nil
            then pure (unauthorized, none, none)
            else pure (unauthorized, none, some e)
        | got raw ↦ attempt (lift (c.unmarshal_permission raw)) >>= elim [
          | failed e ↦ pure (unauthorized, none, some e)
          | got (perm, access) ↦ pure (perm, access, none)
        ]
      ]

  unfoldable pub set_user_permission :
      ℕ → Text → UserPermission → Option ResourceAccess → Exec W (Unit {0})
  set_user_permission project_id user_id user_perm resource_access = do
    raw ← lift (c.marshal_permission (user_perm, resource_access))
    r.set (permission_key project_id user_id) raw (pos (10 * second))

  unfoldable pub delete_user_permission : ℕ → Text → Exec W (Unit {0})
  delete_user_permission project_id user_id = r.del (permission_key project_id user_id) >> pure tt

  abbrev pub redis_quota_cache : QuotaCache W
  redis_quota_cache = record {
    get_project_quota = λ project_id. get_quota (get_project_key project_id);
    set_project_quota =
        λ quota. (do k ← key_of quota; set_quota (get_project_key k.project_id) quota);
    delete_project_quota = λ project_id. delete_quota (get_project_key project_id);
    get_access_quota = get_quota;
    set_access_quota = λ quota. (do k ← key_of quota; set_quota k.access_key quota);
    delete_access_quota = delete_quota;
  }

  abbrev pub redis_usage_cache : UsageCache W
  redis_usage_cache = record {
    set_usage = set_usage;
    clear_usage = clear_usage;
    peek_usage = peek_usage;
    spend_usage = spend_usage;
  }

  abbrev pub redis_permission_cache : PermissionCache W
  redis_permission_cache = record {
    get_user_permission = get_user_permission;
    set_user_permission = set_user_permission;
    delete_user_permission = delete_user_permission;
  }
