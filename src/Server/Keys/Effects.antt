-- ===== src/Server/Keys/Effects.antt =====
-- The other operations of server.go on access keys on the store in memory, as equations.
use quotacontrol.Prelude.{
  ℕ, ◌≡◌, ◌≢◌, refl, Bool, true, false, Option, none, some, List, [], ◌∷◌, ◌==◌, nat_eq, arith,
  length, is_empty, nat_beq_iff, nat_beq, if◌then◌else◌,
}
use quotacontrol.Prelude.Text.{Text, text_eq}
use quotacontrol.Prelude.Assoc.{Assoc, lookup, insert}
use quotacontrol.Proto.Errors.{
  ok, err, panic, rpc, wrapped, with_cause, plain, permission_denied, access_key_not_found,
  no_default_key,
}
use quotacontrol.Proto.Types.{Service, AccessKey}
use quotacontrol.Cache.{Cache}
use quotacontrol.Mock.Memory.{
  MemoryStore, list_access_keys, find_access_key, insert_access_key, update_access_key as store_key,
}
use quotacontrol.Mock.Memory.Keyed.{active_keys}
use quotacontrol.Mock.Wiring.{beside, in_memory}
use quotacontrol.Server.{External}
use quotacontrol.Server.Keys.{
  first_default, or_old, update_key, get_default_access_key, create_access_key, rotate_access_key,
  set_default_access_key,
}

-- The store with other access keys.
abbrev pub with_keys : MemoryStore → Assoc Text AccessKey → MemoryStore
with_keys m keys = record m { access_keys = keys }

-- The map with one key put under its own name.
abbrev pub put : AccessKey → Assoc Text AccessKey → Assoc Text AccessKey
put k m = insert k.access_key k m

-- The key that `CreateAccessKey` makes.
abbrev pub made : ℕ → Text → Text → Bool → List Text → List Service → Bool → AccessKey
made p name key require_origin origins services is_default = record {
  project_id = p;
  display_name = name;
  access_key = key;
  active = true;
  is_default = is_default;
  require_origin = require_origin;
  allowed_origins = origins;
  allowed_services = services;
  created_at = none;
}

abbrev pub retired : AccessKey → AccessKey
retired k = record k { active = false; is_default = false }

-- The keys after the first step of a rotation, and of a disabling.
abbrev pub without_key : AccessKey → Assoc Text AccessKey → Assoc Text AccessKey
without_key k keys = put (retired k) keys

is_empty-length {ℓ} : {A : Type ℓ} (l : List A) → nat_beq (length l) 0 ≡ is_empty l
is_empty-length [] = refl
is_empty-length (x ∷ l) = ground arith

module _ {C : Type 0} (ext : External (MemoryStore × C)) (cache : Cache C) (key_version : ℕ)
    (no_panic : (k : Text) (c : C) → (cache.quota.delete_access_quota k c).0 ≢ panic) where
  -- The cache after the quota of a key was dropped.
  abbrev pub dropped : Text → C → C
  dropped k c = (cache.quota.delete_access_quota k c).1

  pub update_key_run :
      (k : AccessKey) (m : MemoryStore) (c : C)
      → update_key ext (beside cache) in_memory key_version k (m, c)
        ≡ (ok k, (with_keys m (put k m.access_keys), dropped k.access_key c))
  unfolding update_key store_key
  update_key_run k m c = ground (arith, no_panic k.access_key c)

  pub get_default_run :
      (p : ℕ) (m : MemoryStore) (c : C)
      → get_default_access_key ext (beside cache) in_memory key_version p (m, c) ≡ (
        (elim (first_default (active_keys p m.access_keys)) [
          | none ↦ err (rpc no_default_key)
          | some k ↦ ok k
        ]),
        (m, c),
      )
  unfolding get_default_access_key list_access_keys
  get_default_run p m c = ground arith

  -- A key that is not there, or is another project's, is refused, and nothing changes.
  pub set_default_refused :
      (p : ℕ) (key : Text) (k : AccessKey) (m : MemoryStore) (c : C)
      → lookup key m.access_keys ≡ some k
      → k.project_id ≢ p
      → set_default_access_key ext (beside cache) in_memory key_version p key (m, c) ≡ (
        err (with_cause permission_denied (plain "project doesn't own the given access key")),
        (m, c),
      )
  unfolding set_default_access_key find_access_key
  set_default_refused p key k m c found other = ground (arith, nat_beq_iff k.project_id p)

  pub set_default_missing :
      (p : ℕ) (key : Text) (m : MemoryStore) (c : C)
      → lookup key m.access_keys ≡ none
      → set_default_access_key ext (beside cache) in_memory key_version p key (m, c)
        ≡ (err (wrapped "find access key" (rpc access_key_not_found)), (m, c))
  unfolding set_default_access_key find_access_key
  set_default_missing p key m c e = ground arith

  pub set_default_none :
      (p : ℕ) (key : Text) (k : AccessKey) (m : MemoryStore) (c : C)
      → lookup key m.access_keys ≡ some k
      → k.project_id ≡ p
      → first_default (active_keys p m.access_keys) ≡ none
      → set_default_access_key ext (beside cache) in_memory key_version p key (m, c)
        ≡ (err (wrapped "get default access key" (rpc no_default_key)), (m, c))
  unfolding set_default_access_key find_access_key
  set_default_none p key k m c found own e =
      ground (arith, nat_beq_iff k.project_id p, get_default_run p m c)

  pub set_default_run :
      (p : ℕ) (key : Text) (k d : AccessKey) (m : MemoryStore) (c : C)
      → lookup key m.access_keys ≡ some k
      → k.project_id ≡ p
      → first_default (active_keys p m.access_keys) ≡ some d
      → set_default_access_key ext (beside cache) in_memory key_version p key (m, c) ≡ (
          if d.access_key == k.access_key then (ok true, (m, c)) else (
            ok true,
            (
              with_keys m (
                  put
                    (record k { is_default = true })
                    (put (record d { is_default = false }) m.access_keys)),
              dropped k.access_key (dropped d.access_key c),
            ),
          ))
  unfolding set_default_access_key find_access_key
  set_default_run p key k d m c found own default =
      let d' : AccessKey = record d { is_default = false } in
      let m' = with_keys m (put d' m.access_keys) in
      ground (
        arith,
        nat_beq_iff k.project_id p,
        get_default_run p m c,
        update_key_run d' m c,
        update_key_run (record k { is_default = true }) m' (dropped d.access_key c),
      )

  pub create_run :
      (version : Option ℕ) (p : ℕ) (name : Text) (require_origin : Bool) (given origins : List Text)
      (services : List Service) (key : Text) (m : MemoryStore) (c c' : C)
      → ext.new_origins given ≡ ok origins
      → ext.generate_access_key (or_old version key_version) p (m, c) ≡ (ok key, (m, c'))
      → let k =
          made p name key require_origin origins services
            (is_empty (active_keys p m.access_keys)) in
        create_access_key ext
          (beside cache)
          in_memory
          key_version
          version
          p
          name
          require_origin
          given
          services
          (m, c)
        ≡ (ok k, (with_keys m (put k m.access_keys), c'))
  unfolding create_access_key list_access_keys insert_access_key
  create_run version p name require_origin given origins services key m c c' valid fresh =
      ground (arith, is_empty-length (active_keys p m.access_keys))

  pub rotate_run :
      (version : Option ℕ) (key fresh : Text) (k : AccessKey) (origins : List Text)
      (m : MemoryStore) (c c' : C)
      → lookup key m.access_keys ≡ some k
      → ext.new_origins (ext.to_strings k.allowed_origins) ≡ ok origins
      → let m' = with_keys m (without_key k m.access_keys) in
        let new =
          made k.project_id k.display_name fresh k.require_origin origins k.allowed_services in
        let first = is_empty (active_keys k.project_id m'.access_keys) in
        ext.generate_access_key
            (or_old version key_version)
            k.project_id
            (m', dropped k.access_key c)
          ≡ (ok fresh, (m', c'))
        → rotate_access_key ext (beside cache) in_memory key_version version key (m, c) ≡ (
            if k.is_default
            then (
              ok (new true),
              (with_keys m (put (new true) (put (new first) m'.access_keys)), dropped fresh c'),
            )
            else (ok (new first), (with_keys m (put (new first) m'.access_keys), c')))
  unfolding rotate_access_key find_access_key
  rotate_run version key fresh k origins m c c' found valid generated =
      let m' = with_keys m (without_key k m.access_keys) in
      let new =
        made k.project_id k.display_name fresh k.require_origin origins k.allowed_services in
      let first = is_empty (active_keys k.project_id m'.access_keys) in
      ground (
        arith,
        update_key_run (retired k) m c,
        create_run version k.project_id k.display_name k.require_origin
            (ext.to_strings k.allowed_origins) origins k.allowed_services fresh m'
            (dropped k.access_key c) c' valid generated,
        update_key_run (new true) (with_keys m (put (new first) m'.access_keys)) c',
      )
