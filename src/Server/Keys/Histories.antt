-- ===== src/Server/Keys/Histories.antt =====
-- Sequences of the operations of server.go on access keys, on the store in memory.
use quotacontrol.Prelude.{ℕ, ◌≡◌, ◌≢◌, Bool, true, Option, some, List}
use quotacontrol.Prelude.Text.{Text, text_eq}
use quotacontrol.Prelude.Assoc.{lookup}
use quotacontrol.Proto.Errors.{panic}
use quotacontrol.Proto.Types.{Service, AccessKey}
use quotacontrol.Cache.{Cache}
use quotacontrol.Mock.Memory.{MemoryStore}
use quotacontrol.Mock.Wiring.{beside, in_memory}
use quotacontrol.Server.{External}
use quotacontrol.Server.Keys.{
  create_access_key, rotate_access_key, update_access_key, set_default_access_key,
  disable_access_key,
}
use quotacontrol.Server.Keys.Defaults.{IsSound}
use quotacontrol.Server.Keys.Invariant.{set_default-IsSound, disable-IsSound}
use quotacontrol.Server.Keys.Updating.{update-IsSound}
use quotacontrol.Server.Keys.Making.{create-IsSound_always, rotate-IsSound_always}

module _ {C : Type 0} (ext : External (MemoryStore × C)) (cache : Cache C) (key_version : ℕ)
    (no_panic : (k : Text) (c : C) → (cache.quota.delete_access_quota k c).0 ≢ panic)
    (store_kept : (v p : ℕ) (m : MemoryStore) (c : C)
      → (ext.generate_access_key v p (m, c)).1.0 ≡ m) where
  -- The states that the operations lead to from a state; a default key is set to an active one.
  pub data History (start : MemoryStore × C) : MemoryStore × C → Type 0 where
    begun : History start start
    created :
        {s : MemoryStore × C} (version : Option ℕ) (p : ℕ) (name : Text) (require_origin : Bool)
        (given : List Text) (services : List Service)
        → History start s
        → History start
            (create_access_key ext
              (beside cache)
              in_memory
              key_version
              version
              p
              name
              require_origin
              given
              services
              s).1
    rotated :
        {s : MemoryStore × C} (version : Option ℕ) (key : Text)
        → History start s
        → History start (rotate_access_key ext (beside cache) in_memory key_version version key s).1
    updated :
        {s : MemoryStore × C} (key : Text) (name : Option Text) (require_origin : Option Bool)
        (given : Option (List Text)) (services : Option (List Service))
        → History start s
        → History start
            (update_access_key ext
              (beside cache)
              in_memory
              key_version
              key
              name
              require_origin
              given
              services
              s).1
    set_default :
        {s : MemoryStore × C} (p : ℕ) (key : Text)
        → History start s
        → ((k : AccessKey) → lookup key s.0.access_keys ≡ some k → k.active ≡ true)
        → History start (set_default_access_key ext (beside cache) in_memory key_version p key s).1
    disabled :
        {s : MemoryStore × C} (key : Text)
        → History start s
        → History start (disable_access_key ext (beside cache) in_memory key_version key s).1

  -- On the store in memory, with a cache that does not panic and keys that are generated without
  -- change to the store: if every default key is active and no project has two, the same holds
  -- after any sequence of CreateAccessKey, RotateAccessKey, UpdateAccessKey, DisableAccessKey, and
  -- SetDefaultAccessKey of keys that are active or missing, whatever their arguments and results.
  pub History-IsSound :
      (start s : MemoryStore × C)
      → IsSound start.0.access_keys
      → History start s
      → IsSound s.0.access_keys
  History-IsSound start s sound begun = sound
  History-IsSound start s sound
        (created {s = t} version p name require_origin given services before) =
      create-IsSound_always ext cache key_version no_panic store_kept version p name require_origin
        given services t.0 t.1 (History-IsSound start t sound before)
  History-IsSound start s sound (rotated {s = t} version key before) =
      rotate-IsSound_always ext cache key_version no_panic store_kept version key t.0 t.1
        (History-IsSound start t sound before)
  History-IsSound start s sound (updated {s = t} key name require_origin given services before) =
      update-IsSound ext cache key_version no_panic key name require_origin given services t.0 t.1
        (History-IsSound start t sound before)
  History-IsSound start s sound (set_default {s = t} p key before act) =
      set_default-IsSound ext cache key_version no_panic p key t.0 t.1
        (History-IsSound start t sound before) act
  History-IsSound start s sound (disabled {s = t} key before) =
      disable-IsSound ext cache key_version no_panic key t.0 t.1
        (History-IsSound start t sound before)
