-- ===== src/Proto/Service/Names.antt =====
-- The names of the services.
use quotacontrol.Prelude.{zero, suc, ◌≡◌, ◌↔◌, refl, ap, ◌<◌, Option, some, [], ◌∷◌, arith, nat_eq}
use quotacontrol.Prelude.Text.{Text, codes, text_eq, text_beq}
use quotacontrol.Prelude.Assoc.{lookup}
use quotacontrol.Proto.Types.{Service}
use quotacontrol.Proto.Service.{service_string, parse_service, get_name}

-- Each of the nine services is parsed back from its string.
pub parse_service-service_string : (x : Service) → x < 9 → parse_service (service_string x) ≡ some x
unfolding parse_service service_string
parse_service-service_string zero h = refl
parse_service-service_string (suc zero) h = refl
parse_service-service_string (suc (suc zero)) h = refl
parse_service-service_string (suc (suc (suc zero))) h = refl
parse_service-service_string (suc (suc (suc (suc zero)))) h = refl
parse_service-service_string (suc (suc (suc (suc (suc zero))))) h = refl
parse_service-service_string (suc (suc (suc (suc (suc (suc zero)))))) h = refl
parse_service-service_string (suc (suc (suc (suc (suc (suc (suc zero))))))) h = refl
parse_service-service_string (suc (suc (suc (suc (suc (suc (suc (suc zero)))))))) h = refl
parse_service-service_string (suc (suc (suc (suc (suc (suc (suc (suc (suc x))))))))) h =
    absurd (omega arith)

named : Text → Option Service
unfolding lookup text_beq
named t = lookup t (
    (codes "node-gateway", 0)
    ∷ (codes "api", 1)
    ∷ (codes "indexer", 2)
    ∷ (codes "relayer", 3)
    ∷ (codes "metadata", 4)
    ∷ (codes "marketplace", 5)
    ∷ (codes "builder", 6)
    ∷ (codes "waas", 7)
    ∷ (codes "trails", 8)
    ∷ [])

named-get_name : (x : Service) → x < 9 → named (get_name x) ≡ some x
unfolding named get_name
named-get_name zero h = refl
named-get_name (suc zero) h = refl
named-get_name (suc (suc zero)) h = refl
named-get_name (suc (suc (suc zero))) h = refl
named-get_name (suc (suc (suc (suc zero)))) h = refl
named-get_name (suc (suc (suc (suc (suc zero))))) h = refl
named-get_name (suc (suc (suc (suc (suc (suc zero)))))) h = refl
named-get_name (suc (suc (suc (suc (suc (suc (suc zero))))))) h = refl
named-get_name (suc (suc (suc (suc (suc (suc (suc (suc zero)))))))) h = refl
named-get_name (suc (suc (suc (suc (suc (suc (suc (suc (suc x))))))))) h = absurd (omega arith)

-- Two of the nine services have the same name in their cache keys exactly if they are the same
-- service.
pub get_name_iff : (x y : Service) → x < 9 → y < 9 → (get_name x ≡ get_name y) ↔ (x ≡ y)
get_name_iff x y hx hy =
    (λ e. ground (arith, named-get_name x hx, named-get_name y hy, ap named e), λ e. ap get_name e)
