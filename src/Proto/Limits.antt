-- ===== src/Proto/Limits.antt =====
-- The limits of a project in proto/proto.go, and what a spend counts for.
pub mod Charge
use quotacontrol.Prelude.{
  Bool, true, false, not, ◌&&◌, Option, none, some, [], ◌∷◌, if◌then◌else◌, ◌==◌,
}
use quotacontrol.Prelude.Int.{ℤ, pos, int_eq, ltb_ℤ, leb_ℤ, max_ℤ, sub64}
use quotacontrol.Prelude.Text.{Text, text_eq}
use quotacontrol.Prelude.Assoc.{Assoc, lookup, insert}
use quotacontrol.Proto.Errors.{Error, plain, wrapped}
use quotacontrol.Proto.Types.{
  Service, Limit, ServiceLimit, EventType, free_warn, free_max, over_warn, over_max,
}
use quotacontrol.Proto.Service.{service_string, parse_service}

-- `ServiceLimit.Validate`; `none` is the nil error.
unfoldable pub validate_service_limit : ServiceLimit → Option Error
validate_service_limit l =
    if ltb_ℤ l.rate_limit (pos 1)
    then some (plain "rateLimit must be > 0")
    else if leb_ℤ l.free_max (pos 0)
    then some (plain "freeMax must be > 0")
    else if not (l.free_warn == pos 0) && ltb_ℤ l.free_max l.free_warn
    then some (plain "freeWarn must be >= 0 and <= freeMax")
    else if ltb_ℤ l.over_max l.free_max
    then some (plain "overMax must be >= freeMax")
    else if not (l.over_warn == pos 0) && ltb_ℤ l.over_max l.over_warn
    then some (plain "overWarn must be >= 0 and <= overMax")
    else none

-- The loop of `Limit.Validate`.
unfoldable pub validate_limits : Assoc Text ServiceLimit → Option Error
validate_limits [] = none
validate_limits ((name, cfg) ∷ rest) =
    let later = validate_limits rest in
    elim (parse_service name) [
      | none ↦ some (plain "unknown service")
      | some svc ↦ elim (validate_service_limit cfg) [
        | some e ↦ some (wrapped "service" e)
        | none ↦ later
      ]
    ]

unfoldable pub validate_limit : Limit → Option Error
unfolding validate_limits
validate_limit l = validate_limits l.service_limit

unfoldable pub get_settings : Limit → Service → Option ServiceLimit
get_settings l svc = lookup (service_string svc) l.service_limit

unfoldable pub set_setting : Limit → Service → ServiceLimit → Limit
set_setting l svc limits = record l {
  service_limit = insert (service_string svc) limits l.service_limit;
}

unfoldable pub get_over_threshold : ℤ → ℤ → ℤ → ℤ × Bool
get_over_threshold v total threshold =
    if ltb_ℤ total threshold
    then (pos 0, false)
    else if leb_ℤ threshold (sub64 total v)
    then (pos 0, false)
    else (max_ℤ (pos 0) (sub64 total threshold), true)

-- The usage that a spend of `v` counts for, once it brought the counter to `total`, and its event.
unfoldable pub get_spend_result : ServiceLimit → ℤ → ℤ → ℤ × Option EventType
get_spend_result l v total =
    if ltb_ℤ total l.free_max
    then (if (get_over_threshold v total l.free_warn).1 then (v, some free_warn) else (v, none))
    else if ltb_ℤ total l.over_max
    then (if (get_over_threshold v total l.free_max).1
        then (v, some free_max)
        else if (get_over_threshold v total l.over_warn).1
        then (v, some over_warn)
        else (v, none))
    else (let (over, crossed) = get_over_threshold v total l.over_max in
        if crossed then (sub64 v over, some over_max) else (pos 0, none))
