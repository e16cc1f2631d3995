-- ===== src/Cache/Lru.antt =====
-- `LRU` of cache.go: a layer in memory in front of another quota cache. The expirable LRU map of
-- golang-lru is not part of the program; its operations and what they promise are parameters.
pub mod Coherence
use quotacontrol.Prelude.{◌*◌, Option, none, some, ◌≡◌, ◌⊎◌, ◌≢◌, if◌then◌else◌}
use quotacontrol.Prelude.Int.{ℤ, pos, leb_ℤ}
use quotacontrol.Prelude.Text.{Text}
use quotacontrol.Exec.{Exec, ◌>>=◌, ◌>>◌, pure, wrap}
use quotacontrol.Proto.Types.{AccessQuota}
use quotacontrol.Cache.{QuotaCache}
use quotacontrol.Cache.Keys.{get_project_key}
use quotacontrol.Cache.RedisCache.{second, key_of}

-- `expirable.LRU[string, *proto.AccessQuota]`, with `M` for its state.
pub record Memory (M : Type 0) : Type 0 where
  pub lookup : Text → M → Option AccessQuota × M
  pub add : Text → AccessQuota → M → M
  pub remove : Text → M → M

-- What it promises while nothing expires: a key that was added is there, one that was removed is
-- gone, and another key is as it was or was evicted.
pub record MemoryLaws {M : Type 0} (m : Memory M) (held : M → Text → Option AccessQuota)
    : Type 0 where
  pub lookup_reply : (k : Text) (s : M) → (m.lookup k s).0 ≡ held s k
  pub lookup_keeps : (k : Text) (s : M) (j : Text) → held (m.lookup k s).1 j ≡ held s j
  pub add_self : (k : Text) (q : AccessQuota) (s : M) → held (m.add k q s) k ≡ some q
  pub add_other :
      (k : Text) (q : AccessQuota) (s : M) (j : Text)
      → k ≢ j
      → (held (m.add k q s) j ≡ held s j) ⊎ (held (m.add k q s) j ≡ none)
  pub remove_self : (k : Text) (s : M) → held (m.remove k s) k ≡ none
  pub remove_other : (k : Text) (s : M) (j : Text) → k ≢ j → held (m.remove k s) j ≡ held s j

-- `NewLRU`: the time to live, a minute where none is configured.
unfoldable pub lru_ttl : ℤ → ℤ
lru_ttl ttl = if leb_ℤ ttl (pos 0) then pos (60 * second) else ttl

-- A call of the backend, beside the state in memory.
abbrev pub behind : {M W A : Type 0} → Exec W A → Exec (M × W) A
behind call (s, w) = let (reply, w') = call w in (reply, (s, w'))

module _ {M W : Type 0} (m : Memory M) (backend : QuotaCache W) where
  unfoldable pub cache_add : Text → AccessQuota → Exec (M × W) (Unit {0})
  cache_add key quota (s, w) = pure tt (m.add key quota s, w)

  unfoldable pub cache_remove : Text → Exec (M × W) (Unit {0})
  cache_remove key (s, w) = pure tt (m.remove key s, w)

  unfoldable pub cache_lookup : Text → Exec (M × W) (Option AccessQuota)
  cache_lookup key (s, w) = let (hit, s') = m.lookup key s in pure hit (s', w)

  unfoldable pub get_quota : Text → Exec (M × W) AccessQuota
  unfolding cache_lookup cache_add
  get_quota key = cache_lookup key >>= elim [
    | some quota ↦ pure quota
    | none ↦ (do
      quota ← wrap "get quota" (behind (backend.get_access_quota key))
      cache_add key quota
      pure quota)
  ]

  unfoldable pub set_quota : Text → AccessQuota → Exec (M × W) (Unit {0})
  unfolding cache_add
  set_quota key quota = do cache_add key quota; behind (backend.set_access_quota quota)

  unfoldable pub delete_quota : Text → Exec (M × W) (Unit {0})
  unfolding cache_remove
  delete_quota key = do cache_remove key; behind (backend.delete_access_quota key)

  abbrev pub lru_quota_cache : QuotaCache (M × W)
  lru_quota_cache = record {
    get_project_quota = λ project_id. get_quota (get_project_key project_id);
    set_project_quota =
        λ quota. (do k ← key_of quota; set_quota (get_project_key k.project_id) quota);
    delete_project_quota = λ project_id. delete_quota (get_project_key project_id);
    get_access_quota = get_quota;
    set_access_quota = λ quota. (do k ← key_of quota; set_quota k.access_key quota);
    delete_access_quota = delete_quota;
  }
