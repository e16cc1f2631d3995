-- ===== src/Mock/Memory.antt =====
-- `MemoryStore` of mock/mem.go. Each method holds the store's lock throughout, so it is one step.
pub mod Accounting
pub mod Keyed
use quotacontrol.Prelude.{
  ℕ, Bool, true, false, not, ◌&&◌, ◌||◌, Option, none, some, List, [], ◌∷◌, ◌==◌, nat_eq,
  if◌then◌else◌,
}
use quotacontrol.Prelude.Int.{ℤ, pos, add64}
use quotacontrol.Prelude.Text.{Text, text_eq}
use quotacontrol.Prelude.Assoc.{Assoc, lookup, insert, remove}
use quotacontrol.Time.{Time}
use quotacontrol.Exec.{Exec, pure, raise}
use quotacontrol.Proto.Errors.{rpc, access_key_not_found, panic}
use quotacontrol.Proto.Types.{
  Service, Cycle, Limit, ProjectInfo, zero_info, AccessKey, UserPermission, unauthorized,
  ResourceAccess,
}
use quotacontrol.Proto.Service.{all_services}
use quotacontrol.Proto.Access.{validate_service}
use quotacontrol.Usage.{Record, new_record, or_zero, or_new, add_to}
use quotacontrol.Store.{
  ProjectInfoStore, LimitStore, AccessKeyStore, UsageStore, PermissionStore, Store,
}

pub record StoredPermission : Type 0 where
  pub permission : UserPermission
  pub access : ResourceAccess

-- The value of a project is a pointer, which the store only keeps; `none` is nil.
pub record MemoryStore : Type 0 where
  pub limits : Assoc ℕ Limit
  pub infos : Assoc ℕ ProjectInfo
  pub access_keys : Assoc Text AccessKey
  pub usage : Assoc Service Record
  pub users : Assoc Text Bool
  pub projects : Assoc ℕ (Option ℕ)
  pub permissions : Assoc ℕ (Assoc Text StoredPermission)

abbrev fresh_usage : List Service → Assoc Service Record
fresh_usage [] = []
fresh_usage (s ∷ rest) = (s, new_record) ∷ fresh_usage rest

unfoldable pub new_memory_store : MemoryStore
new_memory_store = record {
  limits = [];
  infos = [];
  access_keys = [];
  usage = fresh_usage all_services;
  users = [];
  projects = [];
  permissions = [];
}

unfoldable pub set_project_info : ℕ → Option ProjectInfo → Exec MemoryStore (Unit {0})
set_project_info project_id (some info) m =
    pure tt (record m { infos = insert project_id info m.infos })
set_project_info project_id none m = pure tt (record m { infos = remove project_id m.infos })

abbrev with_info : ℕ → Option ProjectInfo → Assoc ℕ ProjectInfo → Assoc ℕ ProjectInfo
with_info project_id (some i) infos = infos
with_info project_id none infos = insert project_id (record zero_info { id = project_id }) infos

unfoldable pub set_access_limit : ℕ → Limit → Exec MemoryStore (Unit {0})
set_access_limit project_id config m = pure tt (record m {
  infos = with_info project_id (lookup project_id m.infos) m.infos;
  limits = insert project_id config m.limits;
})

unfoldable pub get_access_limit : ℕ → Option Cycle → Exec MemoryStore Limit
get_access_limit project_id cycle m = elim (lookup project_id m.limits) [
  | none ↦ raise (rpc access_key_not_found) m
  | some limit ↦ pure limit m
]

unfoldable pub get_project_info : ℕ → Time → Exec MemoryStore ProjectInfo
get_project_info project_id now m = elim (lookup project_id m.infos) [
  | none ↦ pure zero_info m
  | some info ↦ pure info m
]

unfoldable pub insert_access_key : AccessKey → Exec MemoryStore (Unit {0})
insert_access_key access m =
    pure tt (record m { access_keys = insert access.access_key access m.access_keys })

unfoldable pub update_access_key : AccessKey → Exec MemoryStore AccessKey
update_access_key access m =
    pure access (record m { access_keys = insert access.access_key access m.access_keys })

unfoldable pub find_access_key : Text → Exec MemoryStore AccessKey
find_access_key access_key m = elim (lookup access_key m.access_keys) [
  | none ↦ raise (rpc access_key_not_found) m
  | some access ↦ pure access m
]

abbrev bool_beq : Bool → Bool → Bool
bool_beq true b = b
bool_beq false b = not b

-- The three tests of the loop of `ListAccessKeys`, with an absent one passed.
abbrev pub is_listed : ℕ → Option Bool → Option Service → AccessKey → Bool
is_listed project_id active service v =
    v.project_id == project_id
    && (elim active [ none ↦ true | some a ↦ bool_beq a v.active ]
        && elim service [ none ↦ true | some s ↦ validate_service v s ])

unfoldable pub listed : ℕ → Option Bool → Option Service → Assoc Text AccessKey → List AccessKey
listed project_id active service [] = []
listed project_id active service ((i, v) ∷ rest) =
    let more = listed project_id active service rest in
    if is_listed project_id active service v then v ∷ more else more

-- Go iterates over the map in any order.
unfoldable pub list_access_keys :
    ℕ → Option Bool → Option Service → Exec MemoryStore (List AccessKey)
unfolding listed
list_access_keys project_id active service m =
    pure (listed project_id active service m.access_keys) m

-- The usage under a project's access keys.
unfoldable pub sum_project_keys : ℕ → Assoc Text ℤ → Assoc Text AccessKey → ℤ → ℤ
sum_project_keys project_id usage [] acc = acc
sum_project_keys project_id usage ((i, v) ∷ rest) acc =
    sum_project_keys project_id usage rest
      (if v.project_id == project_id then add64 acc (or_zero (lookup v.access_key usage)) else acc)

unfoldable pub sum_all : Assoc Text ℤ → ℤ → ℤ
sum_all [] acc = acc
sum_all ((k, u) ∷ rest) acc = sum_all rest (add64 acc u)

unfoldable pub sum_records : ℕ → Assoc Service Record → ℤ → ℤ
unfolding sum_all
sum_records project_id [] acc = acc
sum_records project_id ((s, v) ∷ rest) acc =
    sum_records project_id rest
      (sum_all v.by_access_key (add64 acc (or_zero (lookup project_id v.by_project_id))))

unfoldable pub get_account_usage : ℕ → Option Service → Time → Time → Exec MemoryStore ℤ
unfolding sum_project_keys sum_records
get_account_usage project_id (some service) from to m =
    let r = or_new (lookup service m.usage) in
    pure
      (sum_project_keys project_id r.by_access_key m.access_keys
        (add64 (pos 0) (or_zero (lookup project_id r.by_project_id))))
      m
get_account_usage project_id none from to m = pure (sum_records project_id m.usage (pos 0)) m

unfoldable pub sum_key : Text → Assoc Service Record → ℤ → ℤ
sum_key access_key [] acc = acc
sum_key access_key ((s, v) ∷ rest) acc =
    sum_key access_key rest
      (elim (lookup access_key v.by_access_key) [ none ↦ acc | some u ↦ add64 acc u ])

unfoldable pub get_access_key_usage : ℕ → Text → Option Service → Time → Time → Exec MemoryStore ℤ
unfolding sum_key
get_access_key_usage project_id access_key service from to m =
    elim (lookup access_key m.access_keys) [
      | none ↦ raise (rpc access_key_not_found) m
      | some k ↦ elim service [
        | some s ↦ pure (or_zero (lookup access_key (or_new (lookup s m.usage)).by_access_key)) m
        | none ↦ pure (sum_key access_key m.usage (pos 0)) m
      ]
    ]

-- A write to the map of a service that the store does not have panics: that map is nil.
unfoldable pub insert_access_usage : ℕ → Text → Service → Time → ℤ → Exec MemoryStore (Unit {0})
insert_access_usage project_id access_key service time usage m = elim (lookup service m.usage) [
  | none ↦ (panic, m)
  | some r ↦
      let counted : Assoc Text ℤ = (elim (lookup access_key r.by_access_key) [
        | none ↦ insert access_key usage r.by_access_key
        | some old ↦ add_to access_key usage r.by_access_key
      ]) in
      pure tt (record m { usage = insert service (record r { by_access_key = counted }) m.usage })
]

unfoldable pub reset_usage : Text → Option Service → Exec MemoryStore (Unit {0})
reset_usage access_key none m = (panic, m)
reset_usage access_key (some service) m = elim (lookup service m.usage) [
  | none ↦ (panic, m)
  | some r ↦ pure tt (record m {
    usage =
        insert service (record r { by_access_key = insert access_key (pos 0) r.by_access_key })
          m.usage;
  })
]

unfoldable pub add_user : Text → Bool → Exec MemoryStore (Unit {0})
add_user user_id admin m = pure tt (record m { users = insert user_id admin m.users })

-- Whether the user is there, and is an administrator.
unfoldable pub get_user : Text → Exec MemoryStore (Bool × Bool)
get_user user_id m = elim (lookup user_id m.users) [
  | none ↦ pure (false, false) m
  | some v ↦ pure (true, v) m
]

unfoldable pub add_project : ℕ → Option ℕ → Exec MemoryStore (Unit {0})
add_project project_id auth m = pure tt (record m { projects = insert project_id auth m.projects })

unfoldable pub get_project : ℕ → Exec MemoryStore (Bool × Option ℕ)
get_project project_id m = elim (lookup project_id m.projects) [
  | none ↦ pure (false, none) m
  | some auth ↦ pure (true, auth) m
]

unfoldable pub get_user_permission :
    ℕ → Text → Exec MemoryStore (UserPermission × Option ResourceAccess)
get_user_permission project_id user_id m = elim (lookup project_id m.permissions) [
  | none ↦ pure (unauthorized, none) m
  | some users ↦ elim (lookup user_id users) [
    | none ↦ pure (unauthorized, none) m
    | some p ↦ pure (p.permission, some p.access) m
  ]
]

abbrev or_no_users : Option (Assoc Text StoredPermission) → Assoc Text StoredPermission
or_no_users none = []
or_no_users (some users) = users

unfoldable pub set_user_permission :
    ℕ → Text → UserPermission → ResourceAccess → Exec MemoryStore (Unit {0})
set_user_permission project_id user_id permission access m = pure tt (record m {
  permissions =
      insert project_id
        (insert user_id (record { permission = permission; access = access })
          (or_no_users (lookup project_id m.permissions)))
        m.permissions;
})

-- The store as mock/server.go hands it to the server.
abbrev pub memory_store : Store MemoryStore
memory_store = record {
  infos = record { get_project_info = get_project_info };
  limits = record { get_access_limit = get_access_limit };
  keys = record {
    list_access_keys = list_access_keys;
    find_access_key = find_access_key;
    insert_access_key = insert_access_key;
    update_access_key = update_access_key;
  };
  usage = record {
    get_access_key_usage = get_access_key_usage;
    get_account_usage = get_account_usage;
    insert_access_usage = insert_access_usage;
  };
  permissions = record { get_user_permission = get_user_permission };
}
