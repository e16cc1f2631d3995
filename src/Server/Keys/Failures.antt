-- ===== src/Server/Keys/Failures.antt =====
-- `DisableAccessKey` and `SetDefaultAccessKey` of server.go where a project lacks active keys, or
-- the key is not active.
use quotacontrol.Prelude.{
  ℕ, ◌≡◌, ◌≢◌, refl, true, false, none, some, [], ◌∷◌, ◌==◌, nat_eq, arith, Option-cases, inl, inr,
}
use quotacontrol.Prelude.Text.{Text, text_eq, text_beq_iff}
use quotacontrol.Prelude.Assoc.{Assoc, lookup, insert, lookup-insert}
use quotacontrol.Proto.Errors.{ok, err, panic, rpc, no_default_key}
use quotacontrol.Proto.Types.{AccessKey}
use quotacontrol.Cache.{Cache}
use quotacontrol.Mock.Memory.{MemoryStore, listed}
use quotacontrol.Mock.Memory.Keyed.{
  active_keys, Keyed-insert, Stands, active_keys-Stands, key-lookup,
}
use quotacontrol.Mock.Wiring.{beside, in_memory}
use quotacontrol.Server.{External}
use quotacontrol.Server.Keys.{
  first_default, disable_access_key, set_default_access_key, get_default_access_key,
}
use quotacontrol.Server.Keys.Effects.{
  put, retired, without_key, with_keys, set_default_run, get_default_run,
}
use quotacontrol.Server.Keys.Disabling.{disable_run, restore_run}
use quotacontrol.Server.Keys.Defaults.{IsSound, NoOther-cleared, default-Stands, first_default-some}

-- A key that is not active does not add to the active ones.
active_keys-inactive :
    (p : ℕ) (k : AccessKey) (m : Assoc Text AccessKey)
    → k.active ≡ false
    → active_keys p m ≡ []
    → active_keys p (put k m) ≡ []
unfolding listed insert
active_keys-inactive p k [] f e = ground arith
active_keys-inactive p k ((a, j) ∷ m) f e = ground (arith, active_keys-inactive p k m f)

module _ {C : Type 0} (ext : External (MemoryStore × C)) (cache : Cache C) (key_version : ℕ)
    (no_panic : (k : Text) (c : C) → (cache.quota.delete_access_quota k c).0 ≢ panic) where
  -- On the store in memory, with a cache that does not panic: DisableAccessKey of a key that is
  -- there panics where its project has no active key.
  pub disable_panics :
      (key : Text) (k : AccessKey) (m : MemoryStore) (c : C)
      → lookup key m.access_keys ≡ some k
      → active_keys k.project_id m.access_keys ≡ []
      → (disable_access_key ext (beside cache) in_memory key_version key (m, c)).0 ≡ panic
  unfolding first_default
  disable_panics key k m c found none_active = ground (
    arith,
    disable_run ext cache key_version no_panic key k m c found (ground arith),
    restore_run ext cache key_version no_panic k.project_id
        (with_keys m (without_key k m.access_keys))
        (cache.quota.delete_access_quota k.access_key c).1,
    active_keys-inactive k.project_id (retired k) m.access_keys refl none_active,
  )

-- With the mark moved to a key that is not active, no active key of the project has it.
moved_away :
    (p : ℕ) (k d : AccessKey) (m : Assoc Text AccessKey)
    → IsSound m
    → k.active ≡ false
    → first_default (active_keys p m) ≡ some d
    → first_default (
        active_keys p
          (put (record k { is_default = true }) (put (record d { is_default = false }) m)))
      ≡ none
moved_away p k d m s inactive e =
    let (stands, default) = default-Stands p m d s e in
    let d' : AccessKey = record d { is_default = false } in
    let k' : AccessKey = record k { is_default = true } in
    let m' = put k' (put d' m) in
    let alone = NoOther-cleared d' k.access_key m d s stands.0 default refl refl in
    let keyed = Keyed-insert k' (put d' m) (Keyed-insert d' m s.keyed) in
    elim (Option-cases (first_default (active_keys p m'))) [
      | inl f ↦ f
      | inr (j, f) ↦
          let (there, marked) =
            first_default-some (Stands p m') (active_keys p m') j f
              (active_keys-Stands p m' keyed) in
          ground (
            arith,
            there,
            marked,
            stands,
            lookup-insert k.access_key j.access_key k' (put d' m),
            text_beq_iff k.access_key j.access_key,
            alone.at j.access_key j,
          )
    ]

module _ {C : Type 0} (ext : External (MemoryStore × C)) (cache : Cache C) (key_version : ℕ)
    (no_panic : (k : Text) (c : C) → (cache.quota.delete_access_quota k c).0 ≢ panic) where
  -- On a sound store in memory, with a cache that does not panic, where the project has a default
  -- key: SetDefaultAccessKey of a key of the project that is not active succeeds, and
  -- GetDefaultAccessKey of the project fails with the error of a missing default key after it.
  pub set_default_inactive :
      (p : ℕ) (key : Text) (k d : AccessKey) (m : MemoryStore) (c : C)
      → IsSound m.access_keys
      → lookup key m.access_keys ≡ some k
      → k.project_id ≡ p
      → k.active ≡ false
      → first_default (active_keys p m.access_keys) ≡ some d
      → let after = set_default_access_key ext (beside cache) in_memory key_version p key (m, c) in
        (after.0 ≡ ok true)
        × ((get_default_access_key ext (beside cache) in_memory key_version p after.1).0
            ≡ err (rpc no_default_key))
  set_default_inactive p key k d m c s found own inactive e =
      let m' = with_keys m (
        put (record k { is_default = true })
          (put (record d { is_default = false }) m.access_keys)) in
      let c' =
        (cache.quota.delete_access_quota k.access_key
          (cache.quota.delete_access_quota d.access_key c).1).1 in
      let (stands, default) = default-Stands p m.access_keys d s e in
      let keys_differ : (d.access_key == k.access_key) ≡ false = ground (
        arith,
        stands,
        inactive,
        text_beq_iff d.access_key k.access_key,
        key-lookup key k m.access_keys s.keyed found,
      ) in
      let run = set_default_run ext cache key_version no_panic p key k d m c found own e in
      rw (run, keys_differ)
        (
          refl,
          rw
              (
                get_default_run ext cache key_version no_panic p m' c',
                moved_away p k d m.access_keys s inactive e,
              )
              refl,
        )
