-- ===== src/Mock/Wiring.antt =====
-- How mock/server.go puts the server together: the store in memory beside a cache.
use quotacontrol.Exec.{on_first, on_second}
use quotacontrol.Cache.{Cache}
use quotacontrol.Store.{Store}
use quotacontrol.Mock.Memory.{MemoryStore, memory_store}

module _ {C : Type 0} where
  abbrev pub beside : Cache C → Cache (MemoryStore × C)
  beside c = record {
    quota = record {
      get_project_quota = λ p. on_second (c.quota.get_project_quota p);
      set_project_quota = λ q. on_second (c.quota.set_project_quota q);
      delete_project_quota = λ p. on_second (c.quota.delete_project_quota p);
      get_access_quota = λ k. on_second (c.quota.get_access_quota k);
      set_access_quota = λ q. on_second (c.quota.set_access_quota q);
      delete_access_quota = λ k. on_second (c.quota.delete_access_quota k);
    };
    usage = record {
      set_usage = λ k n. on_second (c.usage.set_usage k n);
      clear_usage = λ k. on_second (c.usage.clear_usage k);
      peek_usage = λ k. on_second (c.usage.peek_usage k);
      spend_usage = λ k n l. on_second (c.usage.spend_usage k n l);
    };
    permission = record {
      get_user_permission = λ p u. on_second (c.permission.get_user_permission p u);
      set_user_permission = λ p u r a. on_second (c.permission.set_user_permission p u r a);
      delete_user_permission = λ p u. on_second (c.permission.delete_user_permission p u);
    };
  }

  abbrev pub in_memory : Store (MemoryStore × C)
  in_memory = record {
    infos = record {
      get_project_info = λ p now. on_first (memory_store.infos.get_project_info p now);
    };
    limits = record {
      get_access_limit = λ p c. on_first (memory_store.limits.get_access_limit p c);
    };
    keys = record {
      list_access_keys = λ p a s. on_first (memory_store.keys.list_access_keys p a s);
      find_access_key = λ k. on_first (memory_store.keys.find_access_key k);
      insert_access_key = λ k. on_first (memory_store.keys.insert_access_key k);
      update_access_key = λ k. on_first (memory_store.keys.update_access_key k);
    };
    usage = record {
      get_access_key_usage =
          λ p k s a b. on_first (memory_store.usage.get_access_key_usage p k s a b);
      get_account_usage = λ p s a b. on_first (memory_store.usage.get_account_usage p s a b);
      insert_access_usage =
          λ p k s t n. on_first (memory_store.usage.insert_access_usage p k s t n);
    };
    permissions = record {
      get_user_permission = λ p u. on_first (memory_store.permissions.get_user_permission p u);
    };
  }
