-- ===== src/Proto/Enums/Texts.antt =====
-- The enums through their texts.
use quotacontrol.Prelude.{ℕ, ◌+◌, ap, zero, suc, ◌≡◌, refl, ltb, arith, nat_eq, if◌then◌else◌, []}
use quotacontrol.Prelude.Text.{text_eq, text_beq}
use quotacontrol.Prelude.Assoc.{lookup}
use quotacontrol.Proto.Types.{
  Service, EventType, free_warn, free_max, over_warn, over_max, UserPermission, unauthorized, read,
  read_write, admin,
}
use quotacontrol.Proto.Enums.{
  service_marshal_text, service_unmarshal_text, event_marshal_text, event_unmarshal_text,
  permission_marshal_text, permission_unmarshal_text,
}

unknown_service : (x : ℕ) → service_marshal_text (9 + x) ≡ []
unfolding service_marshal_text lookup
unknown_service x = ground arith

unnamed_service : service_unmarshal_text [] ≡ 0
unfolding service_unmarshal_text lookup text_beq
unnamed_service = refl

pub service_unmarshal_text-service_marshal_text :
    (x : Service) → service_unmarshal_text (service_marshal_text x) ≡ (if ltb x 9 then x else 0)
unfolding service_marshal_text service_unmarshal_text lookup text_beq
service_unmarshal_text-service_marshal_text zero = refl
service_unmarshal_text-service_marshal_text (suc zero) = refl
service_unmarshal_text-service_marshal_text (suc (suc zero)) = refl
service_unmarshal_text-service_marshal_text (suc (suc (suc zero))) = refl
service_unmarshal_text-service_marshal_text (suc (suc (suc (suc zero)))) = refl
service_unmarshal_text-service_marshal_text (suc (suc (suc (suc (suc zero))))) = refl
service_unmarshal_text-service_marshal_text (suc (suc (suc (suc (suc (suc zero)))))) = refl
service_unmarshal_text-service_marshal_text (suc (suc (suc (suc (suc (suc (suc zero))))))) = refl
service_unmarshal_text-service_marshal_text (suc (suc (suc (suc (suc (suc (suc (suc zero)))))))) =
    refl
service_unmarshal_text-service_marshal_text
      (suc (suc (suc (suc (suc (suc (suc (suc (suc x))))))))) =
    ground (arith, ap service_unmarshal_text (unknown_service x), unnamed_service)

pub event_unmarshal_text-event_marshal_text :
    (x : EventType) → event_unmarshal_text (event_marshal_text x) ≡ x
unfolding event_marshal_text event_unmarshal_text lookup text_beq
event_unmarshal_text-event_marshal_text free_warn = refl
event_unmarshal_text-event_marshal_text free_max = refl
event_unmarshal_text-event_marshal_text over_warn = refl
event_unmarshal_text-event_marshal_text over_max = refl

pub permission_unmarshal_text-permission_marshal_text :
    (x : UserPermission) → permission_unmarshal_text (permission_marshal_text x) ≡ x
unfolding permission_marshal_text permission_unmarshal_text lookup text_beq
permission_unmarshal_text-permission_marshal_text unauthorized = refl
permission_unmarshal_text-permission_marshal_text read = refl
permission_unmarshal_text-permission_marshal_text read_write = refl
permission_unmarshal_text-permission_marshal_text admin = refl
