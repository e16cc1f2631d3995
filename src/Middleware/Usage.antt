-- ===== src/Middleware/Usage.antt =====
-- middleware/middleware_usage.go.
pub mod Bound
use quotacontrol.Prelude.{
  ℕ, Bool, true, false, not, Option, none, some, List, [], ◌∷◌, ◌++◌, ◌==◌, if◌then◌else◌,
}
use quotacontrol.Prelude.Int.{ℤ, pos, int_eq, ltb_ℤ, max_ℤ, add64, sub64}
use quotacontrol.Prelude.Text.{Text, codes}
use quotacontrol.Time.{Time}
use quotacontrol.Exec.{Exec, ◌>>=◌, pure, attempt, got, failed, lift}
use quotacontrol.Proto.Errors.{
  Error, code, rpc, plain, with_cause, errors_is, aborted, quota_exceeded, panic,
}
use quotacontrol.Proto.Types.{AccessQuota, ServiceLimit}
use quotacontrol.Proto.Limits.{get_settings}
use quotacontrol.Middleware.{
  Context, Headers, Outcome, next, refused, Response, Client, format_int, get_time,
}

abbrev pub header_remaining : Text
header_remaining = codes "Quota-Remaining"

abbrev pub header_overage : Text
header_overage = codes "Quota-Overage"

abbrev pub header_cost : Text
header_cost = codes "Quota-Cost"

abbrev pub header_increment : Text
header_increment = codes "X-RateLimit-Increment"

-- The header of an overage, where there is one.
unfoldable pub overage_header : ℤ → Headers
overage_header overage =
    if ltb_ℤ (pos 0) overage then (header_overage, format_int overage) ∷ [] else []

abbrev pub remaining_header : ServiceLimit → ℤ → Text × Text
remaining_header limit total =
    (header_remaining, format_int (max_ℤ (sub64 limit.free_max total) (pos 0)))

abbrev pub no_limit : Error
no_limit = with_cause aborted (plain "verify quota: service limit not found")

-- `getCost`, or else the client's default.
abbrev pub cost_of : ℤ → Context → ℤ
cost_of default_usage ctx = elim ctx.cost [ some cu ↦ cu | none ↦ default_usage ]

module _ {W : Type 0} (client : Client W) (clock : Time) where
  -- `quota.Limit.GetSettings(client.GetService())`, which panics where there is no limit.
  unfoldable pub settings_of : AccessQuota → Exec W (Option ServiceLimit)
  settings_of quota = elim quota.limit [
    | none ↦ lift panic
    | some limit ↦ pure (get_settings limit client.service)
  ]

  unfoldable pub check_usage : Context → ℤ → ℤ → ServiceLimit → Response
  unfolding overage_header
  check_usage ctx cu usage limit = (
    (header_increment, format_int cu)
        ∷ remaining_header limit usage
        ∷ overage_header (max_ℤ (sub64 usage limit.free_max) (pos 0)),
    if ltb_ℤ limit.over_max (add64 usage cu) then refused (rpc quota_exceeded) else next ctx,
  )

  unfoldable pub ensure_usage : Context → Exec W Response
  ensure_usage ctx = if not client.is_enabled then pure ([], next ctx) else (elim ctx.quota [
    | none ↦ pure ([], next ctx)
    | some quota ↦
        let cu = cost_of client.default_usage ctx in
        if cu == pos 0
        then pure ([], next ctx)
        else (attempt (client.fetch_usage quota (get_time clock ctx)) >>= elim [
          | failed e ↦ pure ((header_increment, format_int cu) ∷ [], refused e)
          | got usage ↦ settings_of quota >>= elim [
            | none ↦ pure ((header_increment, format_int cu) ∷ [], refused no_limit)
            | some limit ↦ pure (check_usage ctx cu usage limit)
          ]
        ])
  ])

  -- What follows the spend.
  unfoldable pub report_spend : Context → ℤ → ServiceLimit → Bool × ℤ × Option Error → Response
  unfolding overage_header
  report_spend ctx cu limit (ok, total, some e) =
      if errors_is e (code quota_exceeded)
      then (
        (header_cost, format_int cu)
            ∷ remaining_header limit total
            ∷ overage_header (sub64 total limit.free_max),
        refused e,
      )
      else ((header_cost, format_int cu) ∷ [], refused e)
  report_spend ctx cu limit (ok, total, none) = (
    (header_cost, format_int cu)
        ∷ remaining_header limit total
        ∷ overage_header (sub64 total limit.free_max),
    next (if ok then record ctx { spending = true } else ctx),
  )

  unfoldable pub spend_usage : Context → Exec W Response
  spend_usage ctx = if not client.is_enabled then pure ([], next ctx) else (elim ctx.quota [
    | none ↦ pure ([], next ctx)
    | some quota ↦
        let cu = cost_of client.default_usage ctx in
        if cu == pos 0
        then pure ([], next ctx)
        else (settings_of quota >>= elim [
          | none ↦ pure ((header_cost, format_int cu) ∷ [], refused no_limit)
          | some limit ↦ client.spend_quota (some quota) cu (get_time clock ctx) >>= λ spent.
              pure (report_spend ctx cu limit spent)
        ])
  ])
