-- ===== src/Server/Keys.antt =====
-- The operations of server.go on access keys.
pub mod Effects
pub mod Disabling
pub mod Defaults
pub mod Invariant
pub mod Failures
pub mod Making
pub mod Updating
pub mod Histories
use quotacontrol.Prelude.{
  ℕ, Bool, true, false, not, Option, none, some, List, [], ◌∷◌, ◌==◌, nat_eq, nat_beq, length,
  is_empty, if◌then◌else◌,
}
use quotacontrol.Prelude.Text.{Text, text_eq}
use quotacontrol.Exec.{Exec, ◌>>=◌, ◌>>◌, pure, raise, attempt, got, failed, wrap, ignore, lift}
use quotacontrol.Proto.Errors.{
  Error, code, rpc, with_cause, plain, permission_denied, no_default_key, at_least_one_key,
  is_exactly, panic,
}
use quotacontrol.Proto.Types.{Service, AccessKey}
use quotacontrol.Cache.{Cache}
use quotacontrol.Store.{Store}
use quotacontrol.Server.{External}

-- The loop of `GetDefaultAccessKey`.
unfoldable pub first_default : List AccessKey → Option AccessKey
first_default [] = none
first_default (k ∷ rest) = if k.is_default then some k else first_default rest

-- An optional new value: nil keeps the old one.
abbrev pub or_old {ℓ} : {A : Type ℓ} → Option A → A → A
or_old none old = old
or_old (some new) old = new

module _ {W : Type 0} (ext : External W) (cache : Cache W) (store : Store W) (key_version : ℕ) where
  open store.keys use {
    list_access_keys, find_access_key, insert_access_key, update_access_key as store_key,
  }

  -- `updateAccessKey`
  unfoldable pub update_key : AccessKey → Exec W AccessKey
  update_key k = do k ← store_key k; ignore (cache.quota.delete_access_quota k.access_key); pure k

  unfoldable pub get_access_key : Text → Exec W AccessKey
  get_access_key access_key = find_access_key access_key

  unfoldable pub list_keys : ℕ → Option Bool → Option Service → Exec W (List AccessKey)
  list_keys project_id active service = list_access_keys project_id active service

  unfoldable pub get_default_access_key : ℕ → Exec W AccessKey
  get_default_access_key project_id = do
    list ← wrap "list access keys" (list_access_keys project_id (some true) none)
    elim (first_default list) [ some k ↦ pure k | none ↦ raise (rpc no_default_key) ]

  -- `version` is what the context holds, if anything.
  unfoldable pub create_access_key :
      Option ℕ → ℕ → Text → Bool → List Text → List Service → Exec W AccessKey
  create_access_key version project_id display_name require_origin allowed_origins
        allowed_services =
      do
        list ← wrap "list access keys" (list_access_keys project_id (some true) none)
        origins ← wrap "validate allowed origins" (lift (ext.new_origins allowed_origins))
        key ← ext.generate_access_key (or_old version key_version) project_id
        let k : AccessKey = record {
          project_id = project_id;
          display_name = display_name;
          access_key = key;
          active = true;
          is_default = nat_beq (length list) 0;
          require_origin = require_origin;
          allowed_origins = origins;
          allowed_services = allowed_services;
          created_at = none;
        }
        wrap "insert access key" (insert_access_key k)
        pure k

  unfoldable pub rotate_access_key : Option ℕ → Text → Exec W AccessKey
  rotate_access_key version access_key = do
    existing ← wrap "find access key" (find_access_key access_key)
    wrap "update access key" (update_key (record existing { active = false; is_default = false }))
    new_key ← wrap "create access key" (
        create_access_key version existing.project_id existing.display_name existing.require_origin
          (ext.to_strings existing.allowed_origins) existing.allowed_services)
    if existing.is_default
        then wrap "update access key" (update_key (record new_key { is_default = true }))
        else pure new_key

  -- `allowedOrigins` and `allowedServices` are nil where they are absent.
  unfoldable pub update_access_key :
      Text
      → Option Text
      → Option Bool
      → Option (List Text)
      → Option (List Service)
      → Exec W AccessKey
  update_access_key access_key display_name require_origin allowed_origins allowed_services = do
    k ← wrap "find access key" (find_access_key access_key)
    origins ← elim allowed_origins [
      | none ↦ pure k.allowed_origins
      | some given ↦ wrap "validate allowed origins" (lift (ext.new_origins given))
    ]
    wrap "update access key" (
        update_key (record k {
          display_name = or_old display_name k.display_name;
          require_origin = or_old require_origin k.require_origin;
          allowed_origins = origins;
          allowed_services = or_old allowed_services k.allowed_services;
        }))

  unfoldable pub set_default_access_key : ℕ → Text → Exec W Bool
  set_default_access_key project_id access_key = do
    k ← wrap "find access key" (find_access_key access_key)
    if not (k.project_id == project_id)
        then raise (with_cause permission_denied (plain "project doesn't own the given access key"))
        else (do
          default_key ← wrap "get default access key" (get_default_access_key project_id)
          if default_key.access_key == k.access_key then pure true else (do
            wrap "update old default access key"
                (update_key (record default_key { is_default = false }))
            wrap "update new default access key" (update_key (record k { is_default = true }))
            pure true))

  -- The first of the keys that are left becomes the default; there may be none, which panics.
  unfoldable pub promote_first : List AccessKey → Exec W (Unit {0})
  promote_first [] = lift panic
  promote_first (k ∷ rest) =
      wrap "update new default access key" (update_key (record k { is_default = true })) >> pure tt

  -- What `DisableAccessKey` does where the project is left without a default key.
  unfoldable pub restore_default : ℕ → Exec W (Unit {0})
  unfolding promote_first
  restore_default project_id = attempt (get_default_access_key project_id) >>= elim [
    | got k ↦ pure tt
    | failed e ↦
        if is_exactly e (code no_default_key)
        then (do
          updated ← wrap "list access keys" (list_access_keys project_id (some true) none)
          promote_first updated)
        else pure tt
  ]

  unfoldable pub disable_access_key : Text → Exec W Bool
  disable_access_key access_key = do
    k ← wrap "find access key" (find_access_key access_key)
    list ← wrap "list access keys" (list_access_keys k.project_id (some true) none)
    if nat_beq (length list) 1 then raise (rpc at_least_one_key) else (do
      wrap "update access key" (update_key (record k { active = false; is_default = false }))
      restore_default k.project_id
      pure true)
