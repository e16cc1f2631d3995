-- ===== src/Proto/Enums.antt =====
-- The three enums of proto/quotacontrol.gen.go as texts: their tables, `String`, `MarshalText` and
-- `UnmarshalText`. A name that a table has not is read as its zero value, as a read of a Go map is.
pub mod Texts
use quotacontrol.Prelude.{Option, none, some, ◌∷◌, [], nat_eq}
use quotacontrol.Prelude.Text.{Text, text_eq, codes}
use quotacontrol.Prelude.Assoc.{Assoc, lookup}
use quotacontrol.Proto.Types.{
  Service, EventType, free_warn, free_max, over_warn, over_max, UserPermission, unauthorized, read,
  read_write, admin,
}
use quotacontrol.Proto.Service.{service_name, service_value, or_empty}

abbrev pub or_else {ℓ} : {A : Type ℓ} → A → Option A → A
or_else default none = default
or_else default (some a) = a

unfoldable pub service_marshal_text : Service → Text
service_marshal_text x = or_empty (lookup x service_name)

unfoldable pub service_unmarshal_text : Text → Service
service_unmarshal_text b = or_else 0 (lookup b service_value)

-- `EventType_name`; an `EventType` is one of its four numbers.
unfoldable pub event_string : EventType → Text
event_string free_warn = codes "FreeWarn"
event_string free_max = codes "FreeMax"
event_string over_warn = codes "OverWarn"
event_string over_max = codes "OverMax"

abbrev pub event_value : Assoc Text EventType
event_value =
    (codes "FreeWarn", free_warn)
    ∷ (codes "FreeMax", free_max)
    ∷ (codes "OverWarn", over_warn)
    ∷ (codes "OverMax", over_max)
    ∷ []

unfoldable pub event_marshal_text : EventType → Text
unfolding event_string
event_marshal_text x = event_string x

unfoldable pub event_unmarshal_text : Text → EventType
event_unmarshal_text b = or_else free_warn (lookup b event_value)

-- `UserPermission_name`
unfoldable pub permission_string : UserPermission → Text
permission_string unauthorized = codes "UNAUTHORIZED"
permission_string read = codes "READ"
permission_string read_write = codes "READ_WRITE"
permission_string admin = codes "ADMIN"

abbrev pub permission_value : Assoc Text UserPermission
permission_value =
    (codes "UNAUTHORIZED", unauthorized)
    ∷ (codes "READ", read)
    ∷ (codes "READ_WRITE", read_write)
    ∷ (codes "ADMIN", admin)
    ∷ []

unfoldable pub permission_marshal_text : UserPermission → Text
unfolding permission_string
permission_marshal_text x = permission_string x

unfoldable pub permission_unmarshal_text : Text → UserPermission
permission_unmarshal_text b = or_else unauthorized (lookup b permission_value)
