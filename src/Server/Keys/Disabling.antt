-- ===== src/Server/Keys/Disabling.antt =====
-- `DisableAccessKey` of server.go on the store in memory, as equations.
use quotacontrol.Prelude.{ℕ, ◌≡◌, ◌≢◌, true, none, some, List, [], ◌∷◌, nat_eq, arith, length}
use quotacontrol.Prelude.Text.{Text, text_eq}
use quotacontrol.Prelude.Assoc.{lookup}
use quotacontrol.Proto.Errors.{
  Result, ok, err, panic, rpc, wrapped, at_least_one_key, access_key_not_found, is_exactly,
}
use quotacontrol.Proto.Types.{AccessKey}
use quotacontrol.Cache.{Cache}
use quotacontrol.Mock.Memory.{MemoryStore, list_access_keys, find_access_key}
use quotacontrol.Mock.Memory.Keyed.{active_keys}
use quotacontrol.Mock.Wiring.{beside, in_memory}
use quotacontrol.Server.{External}
use quotacontrol.Server.Keys.{first_default, restore_default, disable_access_key}
use quotacontrol.Server.Keys.Effects.{
  with_keys, put, retired, without_key, dropped, update_key_run, get_default_run,
}

module _ {C : Type 0} (ext : External (MemoryStore × C)) (cache : Cache C) (key_version : ℕ)
    (no_panic : (k : Text) (c : C) → (cache.quota.delete_access_quota k c).0 ≢ panic) where
  pub disable_missing :
      (key : Text) (m : MemoryStore) (c : C)
      → lookup key m.access_keys ≡ none
      → disable_access_key ext (beside cache) in_memory key_version key (m, c)
        ≡ (err (wrapped "find access key" (rpc access_key_not_found)), (m, c))
  unfolding disable_access_key find_access_key
  disable_missing key m c e = ground arith

  pub disable_last :
      (key : Text) (k : AccessKey) (m : MemoryStore) (c : C)
      → lookup key m.access_keys ≡ some k
      → length (active_keys k.project_id m.access_keys) ≡ 1
      → disable_access_key ext (beside cache) in_memory key_version key (m, c)
        ≡ (err (rpc at_least_one_key), (m, c))
  unfolding disable_access_key find_access_key list_access_keys
  disable_last key k m c found only = ground arith

  -- The first of the active keys becomes the default one.
  abbrev pub promoted : List AccessKey → MemoryStore → C → Result (Unit {0}) × (MemoryStore × C)
  promoted [] m c = (panic, (m, c))
  promoted (j ∷ rest) m c = (
    ok tt,
    (
      with_keys m (put (record j { is_default = true }) m.access_keys),
      dropped ext cache key_version no_panic j.access_key c,
    ),
  )

  restore_by :
      (p : ℕ) (m : MemoryStore) (c : C) (l : List AccessKey)
      → active_keys p m.access_keys ≡ l
      → first_default l ≡ none
      → restore_default ext (beside cache) in_memory key_version p (m, c) ≡ promoted l m c
  unfolding restore_default list_access_keys is_exactly
  restore_by p m c [] e f = ground (arith, get_default_run ext cache key_version no_panic p m c)
  restore_by p m c (j ∷ rest) e f = ground (
    arith,
    get_default_run ext cache key_version no_panic p m c,
    update_key_run ext cache key_version no_panic (record j { is_default = true }) m c,
  )

  pub restore_run :
      (p : ℕ) (m : MemoryStore) (c : C)
      → restore_default ext (beside cache) in_memory key_version p (m, c)
        ≡ (elim (first_default (active_keys p m.access_keys)) [
          | some d ↦ (ok tt, (m, c))
          | none ↦ promoted (active_keys p m.access_keys) m c
        ])
  unfolding restore_default
  restore_run p m c = ground (
    arith,
    get_default_run ext cache key_version no_panic p m c,
    restore_by p m c (active_keys p m.access_keys),
  )

  pub disable_run :
      (key : Text) (k : AccessKey) (m : MemoryStore) (c : C)
      → lookup key m.access_keys ≡ some k
      → length (active_keys k.project_id m.access_keys) ≢ 1
      → let restored = restore_default ext (beside cache) in_memory key_version k.project_id (
        with_keys m (without_key k m.access_keys),
        dropped ext cache key_version no_panic k.access_key c,
      ) in
        disable_access_key ext (beside cache) in_memory key_version key (m, c)
        ≡ (elim restored.0 [ ok _ ↦ ok true | err e ↦ err e | panic ↦ panic ], restored.1)
  unfolding disable_access_key find_access_key list_access_keys
  disable_run key k m c found more =
      ground (arith, update_key_run ext cache key_version no_panic (retired k) m c)
