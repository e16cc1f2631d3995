-- ===== src/Middleware.antt =====
-- middleware/: what the HTTP middlewares read from a request's context, what they put into it, and
-- how they end. A middleware either hands a context to the next handler or calls the error handler,
-- and it may have set response headers.
pub mod Verify
pub mod Usage
pub mod Rate
pub mod Gates
pub mod Chains
use quotacontrol.Prelude.{
  ℕ, Bool, true, false, Option, none, some, List, [], ◌∷◌, ◌++◌, is_empty, if◌then◌else◌, suc, ltb,
}
use quotacontrol.Prelude.Int.{ℤ, pos, negsuc, pos_part, ltb_ℤ, ◌-ℤ◌, add64}
use quotacontrol.Prelude.Text.{Text, codes, decimal}
use quotacontrol.Time.{Time, floor_mod, day_ns}
use quotacontrol.Exec.{Exec, ◌>>=◌, pure, lift}
use quotacontrol.Proto.Errors.{Error, with_cause, invalid_chain, panic}
use quotacontrol.Proto.Types.{Service, AccessQuota, UserPermission}
use quotacontrol.Proto.Access.{get_project_id, is_active, validate_chains}
use quotacontrol.Client.{RequestContext}

-- The values of context.go, beside those of authcontrol and of httprate.
pub record Context : Type 0 where
  pub auth : RequestContext
  pub quota : Option AccessQuota
  pub cost : Option ℤ
  pub time : Option Time
  pub spending : Bool
  pub increment : Option ℤ
  pub request_limit : Option ℤ

abbrev pub Headers : Type 0
Headers = List (Text × Text)

pub data Outcome : Type 0 where
  next : Context → Outcome
  refused : Error → Outcome

-- The headers that were set, in order, and the end.
abbrev pub Response : Type 0
Response = Headers × Outcome

-- The interface `Client` of common.go.
pub record Client (W : Type 0) : Type 0 where
  pub is_enabled : Bool
  pub default_usage : ℤ
  pub service : Service
  pub fetch_project_quota : ℕ → List ℕ → Time → Exec W (Option AccessQuota × Option Error)
  pub fetch_key_quota : Text → Text → List ℕ → Time → Exec W (Option AccessQuota × Option Error)
  pub fetch_usage : AccessQuota → Time → Exec W ℤ
  pub check_permission : RequestContext → ℕ → UserPermission → Exec W Bool
  pub spend_quota : Option AccessQuota → ℤ → Time → Exec W (Bool × ℤ × Option Error)

-- `strconv.FormatInt(n, 10)`
unfoldable pub format_int : ℤ → Text
format_int (pos n) = decimal n
format_int (negsuc n) = codes "-" ++ decimal (suc n)

-- `GetProjectID` of context.go: the project, and whether it is active.
unfoldable pub context_project : Context → ℕ × Bool
context_project ctx = elim ctx.auth.project_id [
  | some v ↦ (v, true)
  | none ↦ elim ctx.quota [ some q ↦ (get_project_id q, is_active q) | none ↦ (0, false) ]
]

unfoldable pub with_cost : ℤ → Context → Context
with_cost cu ctx = record ctx { increment = some cu; cost = some cu }

abbrev pub or_zero : Option ℤ → ℤ
or_zero none = pos 0
or_zero (some n) = n

unfoldable pub add_cost : ℤ → Context → Context
unfolding with_cost
add_cost cu ctx = with_cost (add64 (or_zero ctx.cost) cu) ctx

-- `GetTime`; `clock` is `time.Now()`, which is cut to the day.
unfoldable pub get_time : Time → Context → Time
get_time clock ctx = elim ctx.time [ some t ↦ t | none ↦ clock -ℤ pos (floor_mod clock day_ns) ]

-- `ApplyDefaults`, of the cost of a request.
unfoldable pub base_cost : ℤ → ℕ
base_cost n = if ltb_ℤ n (pos 1) then 1 else pos_part n

-- `VerifyChains` of common.go; `none` is the nil error.
unfoldable pub verify_chains : {W : Type 0} → Context → List ℕ → Exec W (Option Error)
verify_chains ctx chain_ids = if is_empty chain_ids then pure none else (elim ctx.quota [
  | none ↦ pure none
  | some quota ↦ elim quota.info [
    | none ↦ lift panic
    | some info ↦ elim (validate_chains info chain_ids) [
      | none ↦ pure none
      | some e ↦ pure (some (with_cause invalid_chain e))
    ]
  ]
])
