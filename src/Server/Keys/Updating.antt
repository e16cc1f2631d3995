-- ===== src/Server/Keys/Updating.antt =====
-- `UpdateAccessKey` of server.go, on the store in memory.
use quotacontrol.Prelude.{
  ℕ, ◌≡◌, ◌≢◌, ◌⊎◌, sym, subst, Bool, true, Option, none, some, List, arith, Option-cases,
  Bool-cases, inl, inr,
}
use quotacontrol.Prelude.Text.{Text, text_eq}
use quotacontrol.Prelude.Assoc.{Assoc, lookup}
use quotacontrol.Proto.Errors.{panic}
use quotacontrol.Proto.Types.{Service, AccessKey}
use quotacontrol.Cache.{Cache}
use quotacontrol.Mock.Memory.{MemoryStore, find_access_key}
use quotacontrol.Mock.Memory.Keyed.{key-lookup}
use quotacontrol.Mock.Wiring.{beside, in_memory}
use quotacontrol.Server.{External}
use quotacontrol.Server.Keys.{or_old, update_access_key}
use quotacontrol.Server.Keys.Effects.{put, update_key_run}
use quotacontrol.Server.Keys.Defaults.{IsSound, NoOther, put-IsSound}
use quotacontrol.Server.Keys.Invariant.{keys_after}
use quotacontrol.Exec.{Result-cases}

module _ {C : Type 0} (ext : External (MemoryStore × C)) (cache : Cache C) (key_version : ℕ)
    (no_panic : (k : Text) (c : C) → (cache.quota.delete_access_quota k c).0 ≢ panic) where
  NoOther-default :
      (k : AccessKey) (m : Assoc Text AccessKey)
      → IsSound m
      → lookup k.access_key m ≡ some k
      → k.is_default ≡ true
      → NoOther k.project_id k.access_key m
  NoOther-default k m s found default = record {
    at = λ a j e own ne. elim (Bool-cases j.is_default) [
      | inl t ↦ absurd (ne (s.single a k.access_key j k e found t default own))
      | inr f ↦ f
    ];
  }

  updated-IsSound :
      (k : AccessKey) (name : Text) (require_origin : Bool) (origins : List Text)
      (services : List Service) (m : Assoc Text AccessKey)
      → IsSound m
      → lookup k.access_key m ≡ some k
      → IsSound (
          put
            (record k {
              display_name = name;
              require_origin = require_origin;
              allowed_origins = origins;
              allowed_services = services;
            })
            m)
  updated-IsSound k name require_origin origins services m s found =
      put-IsSound _ m s (λ d. s.active k.access_key k found d) (λ d. NoOther-default k m s found d)

  -- The keys after an update: those before it, or with the one key changed.
  update_keys :
      (key : Text) (name : Option Text) (require_origin : Option Bool) (given : Option (List Text))
      (services : Option (List Service)) (k : AccessKey) (m : MemoryStore) (c : C)
      → lookup key m.access_keys ≡ some k
      → let after = keys_after ext cache key_version no_panic (
          update_access_key ext
            (beside cache)
            in_memory
            key_version
            key
            name
            require_origin
            given
            services
            (m, c)) in
        (after ≡ m.access_keys)
        ⊎ ((origins : List Text) × (after
              ≡ put
                  (record k {
                    display_name = or_old name k.display_name;
                    require_origin = or_old require_origin k.require_origin;
                    allowed_origins = origins;
                    allowed_services = or_old services k.allowed_services;
                  })
                  m.access_keys))
  unfolding update_access_key find_access_key
  update_keys key name require_origin none services k m c found = inr (
    k.allowed_origins,
    ground (
      arith,
      found,
      update_key_run ext cache key_version no_panic
          (record k {
            display_name = or_old name k.display_name;
            require_origin = or_old require_origin k.require_origin;
            allowed_services = or_old services k.allowed_services;
          })
          m c,
    ),
  )
  update_keys key name require_origin (some given) services k m c found =
      elim (Result-cases (ext.new_origins given)) [
        | inl (origins, valid) ↦ inr (
          origins,
          ground (
            arith,
            found,
            valid,
            update_key_run ext cache key_version no_panic
                (record k {
                  display_name = or_old name k.display_name;
                  require_origin = or_old require_origin k.require_origin;
                  allowed_origins = origins;
                  allowed_services = or_old services k.allowed_services;
                })
                m c,
          ),
        )
        | inr (inl (e, bad)) ↦ inl (ground (arith, found, bad))
        | inr (inr bad) ↦ inl (ground (arith, found, bad))
      ]

  update_missing :
      (key : Text) (name : Option Text) (require_origin : Option Bool) (given : Option (List Text))
      (services : Option (List Service)) (m : MemoryStore) (c : C)
      → lookup key m.access_keys ≡ none
      → keys_after ext cache key_version no_panic (
          update_access_key ext
            (beside cache)
            in_memory
            key_version
            key
            name
            require_origin
            given
            services
            (m, c))
        ≡ m.access_keys
  unfolding update_access_key find_access_key
  update_missing key name require_origin given services m c absent = ground (arith, absent)

  pub update-IsSound :
      (key : Text) (name : Option Text) (require_origin : Option Bool) (given : Option (List Text))
      (services : Option (List Service)) (m : MemoryStore) (c : C)
      → IsSound m.access_keys
      → IsSound (
          keys_after ext cache key_version no_panic (
            update_access_key ext
              (beside cache)
              in_memory
              key_version
              key
              name
              require_origin
              given
              services
              (m, c)))
  update-IsSound key name require_origin given services m c s =
      elim (Option-cases (lookup key m.access_keys)) [
        | inl absent ↦ rw (update_missing key name require_origin given services m c absent) s
        | inr (k, found) ↦
            let own = key-lookup key k m.access_keys s.keyed found in
            elim (update_keys key name require_origin given services k m c found) [
              | inl same ↦ rw same s
              | inr (origins, changed) ↦ rw changed (
                  updated-IsSound k _ _ origins _ m.access_keys s
                    (subst (λ a. lookup a m.access_keys ≡ some k) (sym own) found))
            ]
      ]
