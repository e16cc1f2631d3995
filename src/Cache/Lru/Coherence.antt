-- ===== src/Cache/Lru/Coherence.antt =====
-- What the layer in memory replies after a write or a delete, and what reaches the cache behind it.
use quotacontrol.Prelude.{◌≡◌, ◌≢◌, Option, none, some, arith}
use quotacontrol.Prelude.Int.{ℤ}
use quotacontrol.Prelude.Text.{Text, text_eq, text_beq_iff}
use quotacontrol.Prelude.Assoc.{beq_self}
use quotacontrol.Proto.Errors.{Result, wrapped, ok, err}
use quotacontrol.Proto.Types.{AccessQuota, AccessKey}
use quotacontrol.Cache.{QuotaCache}
use quotacontrol.Cache.Keys.{quota_key, get_project_key}
use quotacontrol.Cache.Redis.{Redis, Codec, CodecLaws, RedisLaws}
use quotacontrol.Cache.RedisCache.{redis_quota_cache, key_of}
use quotacontrol.Cache.RedisCache.Quotas.{content-set_quota, quota_key_ne}
use quotacontrol.Cache.Lru.{Memory, MemoryLaws, lru_quota_cache, get_quota, set_quota, delete_quota}

-- The reply of the backend, as the layer passes it on.
abbrev pub passed_on : Result AccessQuota → Result AccessQuota
passed_on (err e) = err (wrapped "get quota" e)
passed_on r = r

module _ {M W : Type 0} (m : Memory M) (backend : QuotaCache W)
    (held : M → Text → Option AccessQuota) (laws : MemoryLaws m held) where
  open laws use {lookup_reply, add_self, remove_self}

  -- A quota that was set through the layer in memory is read back, whatever the cache behind
  -- replied.
  pub get_quota-set_quota_self :
      (key : Text) (quota : AccessQuota) (s : M × W)
      → (get_quota m backend key (set_quota m backend key quota s).1).0 ≡ ok quota
  unfolding get_quota set_quota
  get_quota-set_quota_self key quota (s, w) =
      ground (arith, add_self key quota s, lookup_reply key (m.add key quota s))

  -- A read of a key that is not in memory replies as the cache behind does, with its error wrapped,
  -- and a quota that it replies with is in memory afterwards.
  pub get_quota_miss :
      (key : Text) (s : M) (w : W)
      → held s key ≡ none
      → ((get_quota m backend key (s, w)).0 ≡ passed_on (backend.get_access_quota key w).0)
        × ((q : AccessQuota)
            → (backend.get_access_quota key w).0 ≡ ok q
            → held (get_quota m backend key (s, w)).1.0 key ≡ some q)
  unfolding get_quota
  get_quota_miss key s w h = (
    ground (arith, lookup_reply key s),
    λ q e. ground (arith, lookup_reply key s, add_self key q (m.lookup key s).1),
  )

  -- After a quota is deleted through the layer in memory, a read of its key replies as the cache
  -- behind does then, with its error wrapped.
  pub get_quota-delete_quota_self :
      (key : Text) (s : M) (w : W)
      → let s' = (delete_quota m backend key (s, w)).1 in
        (get_quota m backend key s').0 ≡ passed_on (backend.get_access_quota key s'.1).0
  unfolding delete_quota
  get_quota-delete_quota_self key s w =
      (get_quota_miss key (m.remove key s) (backend.delete_access_quota key w).1
        (remove_self key s)).0

module _ {M W B : Type 0} (m : Memory M) (r : Redis W B) (c : Codec B) (ttl : ℤ)
    (content : W → Text → Option B) (codec : CodecLaws c) (laws : RedisLaws r c content) where
  -- Over Redis, for a quota that can be encoded and whose access key is not the project's own cache
  -- key: a project's quota that is set through the layer in memory goes to the key of its access
  -- key, and what Redis has under the project's key stays.
  pub set_project_quota_misses :
      (quota : AccessQuota) (k : AccessKey) (raw : B) (s : M) (w : W)
      → quota.access_key ≡ some k
      → c.marshal_quota quota ≡ ok raw
      → k.access_key ≢ get_project_key k.project_id
      → let w' =
          ((lru_quota_cache m (redis_quota_cache r c ttl)).set_project_quota quota (s, w)).1.1 in
        (content w' (quota_key (get_project_key k.project_id))
          ≡ content w (quota_key (get_project_key k.project_id)))
        × (content w' (quota_key k.access_key) ≡ some raw)
  unfolding set_quota key_of
  set_project_quota_misses quota k raw s w e f ne =
      let p = quota_key (get_project_key k.project_id) in
      let a = quota_key k.access_key in
      let from = content-set_quota r c ttl content codec laws k.access_key in
      (
        ground (
          arith,
          from p w quota raw f,
          text_beq_iff a p,
          quota_key_ne k.access_key (get_project_key k.project_id) ne,
        ),
        ground (arith, from a w quota raw f, beq_self a),
      )
