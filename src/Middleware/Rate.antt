-- ===== src/Middleware/Rate.antt =====
-- middleware/middleware_ratelimit.go: which limit and which key a request is held to. The limiter
-- itself is httprate's; a request that passes through it is `limited`.
use quotacontrol.Prelude.{
  nat_eq, ℕ, Bool, false, not, Option, none, some, [], ◌++◌, ◌==◌, if◌then◌else◌,
}
use quotacontrol.Prelude.Int.{ℤ, pos, int_eq, leb_ℤ, wrap64}
use quotacontrol.Prelude.Text.{Text, codes, decimal}
use quotacontrol.Time.{scale}
use quotacontrol.Exec.{Exec, ◌>>=◌, pure, lift}
use quotacontrol.Proto.Errors.{
  Error, rpc, plain, with_cause, aborted, rate_limited, quota_rate_limit, panic,
}
use quotacontrol.Proto.Types.{Service}
use quotacontrol.Proto.Access.{get_project_id}
use quotacontrol.Proto.Limits.{get_settings}
use quotacontrol.Middleware.{Context, context_project, base_cost}

pub record RateLimitConfig : Type 0 where
  pub enabled : Bool
  pub public_rpm : ℤ
  pub account_rpm : ℤ
  pub service_rpm : ℤ

-- `cmp.Or(n, default)`
abbrev pub or_default : ℤ → ℤ → ℤ
or_default n default = if n == pos 0 then default else n

unfoldable pub with_defaults : RateLimitConfig → RateLimitConfig
with_defaults cfg = record cfg {
  public_rpm = or_default cfg.public_rpm (pos 3000);
  account_rpm = or_default cfg.account_rpm (pos 6000);
  service_rpm = or_default cfg.service_rpm (pos 0);
}

unfoldable pub project_rate_key : ℕ → Text
project_rate_key project_id = codes "rl:project:" ++ decimal project_id

unfoldable pub account_rate_key : Text → Text
account_rate_key account = codes "rl:account:" ++ account

-- The key function; `public_key` is `httprate.KeyByRealIP`.
unfoldable pub rate_key : Text → Context → Text
rate_key public_key ctx = elim ctx.auth.service [
  | some s ↦ []
  | none ↦
      let (project, active) = context_project ctx in
      if active then project_rate_key project else (elim ctx.quota [
        | some q ↦ project_rate_key (get_project_id q)
        | none ↦ elim ctx.auth.account [
          | some account ↦ account_rate_key account
          | none ↦ public_key
        ]
      ])
]

-- The limit handler's error.
unfoldable pub limit_error : Context → Error
limit_error ctx = elim ctx.quota [ none ↦ rpc rate_limited | some q ↦ rpc quota_rate_limit ]

-- A product of two `int`s, the second of them positive.
unfoldable pub times : ℤ → ℕ → ℤ
unfolding scale
times n base = wrap64 (scale base n)

-- `getRateLimit`: `none` stands for a service that the quota has no limit for.
unfoldable pub get_rate_limit :
    {W : Type 0} → Context → RateLimitConfig → Service → ℕ → Exec W (Option ℤ)
unfolding times
get_rate_limit ctx r svc base = elim ctx.auth.service [
  | some s ↦ pure (some (times r.service_rpm base))
  | none ↦ elim ctx.quota [
    | some q ↦ elim q.limit [
      | none ↦ lift panic
      | some limit ↦ elim (get_settings limit svc) [
        | none ↦ pure none
        | some cfg ↦ pure (some (times cfg.rate_limit base))
      ]
    ]
    | none ↦ elim ctx.auth.account [
      | some a ↦ pure (some (times r.account_rpm base))
      | none ↦ pure (some (times r.public_rpm base))
    ]
  ]
]

-- Where a request goes: past the limiter, through it under a limit and a key, or to an error.
pub data Route : Type 0 where
  past : Context → Route
  limited : Context → ℤ → Text → Route
  denied : Error → Route

abbrev pub is_free : Option ℤ → Bool
is_free none = false
is_free (some cost) = cost == pos 0

unfoldable pub rate_limit :
    {W : Type 0} → RateLimitConfig → Service → ℤ → Text → Context → Exec W Route
unfolding get_rate_limit with_defaults rate_key base_cost
rate_limit cfg svc base public_key ctx =
    if not cfg.enabled
    then pure (past ctx)
    else (get_rate_limit ctx (with_defaults cfg) svc (base_cost base) >>= elim [
      | none ↦ pure (denied (with_cause aborted (plain "rate limit not found")))
      | some limit ↦
          if leb_ℤ limit (pos 0)
          then pure (past ctx)
          else if is_free ctx.cost
          then pure (past ctx)
          else pure
              (limited (record ctx { request_limit = some limit }) limit (rate_key public_key ctx))
    ])
