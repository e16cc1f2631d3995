-- ===== src/Client/Fetch/Waiting.antt =====
-- How long `EnsureUsage` of client.go sleeps. The first half of the state is a clock.
use quotacontrol.Prelude.{
  String, refl, ℕ, zero, suc, ◌+◌, ◌*◌, ◌≡◌, ◌≤◌, arith, Bool-cases, inl, inr, Option, some, none,
}
use quotacontrol.Prelude.Int.{ℤ}
use quotacontrol.Prelude.Text.{Text}
use quotacontrol.Time.{Time}
use quotacontrol.Exec.{Exec, run_next, ◌>>=◌, attempted, attempt, got, failed, wrap, pure}
use quotacontrol.Proto.Errors.{Result, ok, err, panic, errors_is, cache_wait}
use quotacontrol.Proto.Types.{Service, Cycle}
use quotacontrol.Proto.Cycles.{get_start, get_end}
use quotacontrol.Cache.{Cache}
use quotacontrol.Cache.Keys.{cache_key_quota}
use quotacontrol.Client.{QuotaClient}
use quotacontrol.Client.Fetch.{fill_usage, ensure_rounds, ensure_usage}

-- A call that moves the clock by at most `d`.
abbrev Within : {W A : Type 0} → ℕ → Exec (ℕ × W) A → Type 0
Within {W = W} d m = (s : ℕ × W) → (m s).1.0 ≤ s.0 + d

run_next-Within :
    {W A B : Type 0} (f : A → Exec (ℕ × W) B) (t b : ℕ) (r : Result A × (ℕ × W))
    → r.1.0 ≤ t
    → ((x : A) → Within b (f x))
    → (run_next f r).1.0 ≤ t + b
run_next-Within f t b (ok x, s) before after = omega (arith, after x s, before)
run_next-Within f t b (err e, s) before after = omega (arith, before)
run_next-Within f t b (panic, s) before after = omega (arith, before)

bind-Within :
    {W A B : Type 0} (m : Exec (ℕ × W) A) (f : A → Exec (ℕ × W) B) (a b : ℕ)
    → Within a m
    → ((x : A) → Within b (f x))
    → Within (a + b) (m >>= f)
bind-Within m f a b before after s =
    omega (arith, run_next-Within f (s.0 + a) b (m s) (before s) after)

-- A call that leaves the clock alone, before another.
still-Within :
    {W A B : Type 0} (m : Exec (ℕ × W) A) (f : A → Exec (ℕ × W) B) (b : ℕ)
    → Within 0 m
    → ((x : A) → Within b (f x))
    → Within b (m >>= f)
still-Within m f b before after s = omega (arith, bind-Within m f 0 b before after s)

attempted_clock : {W A : Type 0} (r : Result A × (ℕ × W)) → (attempted r).1.0 ≡ r.1.0
attempted_clock (ok x, s) = refl
attempted_clock (err e, s) = refl
attempted_clock (panic, s) = refl

attempt-Within : {W A : Type 0} (m : Exec (ℕ × W) A) (d : ℕ) → Within d m → Within d (attempt m)
attempt-Within m d h s = omega (arith, h s, attempted_clock (m s))

wrap-Within :
    {W A : Type 0} (msg : String) (m : Exec (ℕ × W) A) (d : ℕ) → Within d m → Within d (wrap msg m)
wrap-Within msg m d h s = ground (arith, h s)

module _ {W : Type 0} (cache : Cache (ℕ × W)) (quota_client : QuotaClient (ℕ × W))
    (service : Service) (sleep : ℕ → Exec (ℕ × W) (Unit {0}))
    (peeks : (k : Text) (s : ℕ × W) → (cache.usage.peek_usage k s).1.0 ≡ s.0)
    (sets : (k : Text) (n : ℤ) (s : ℕ × W) → (cache.usage.set_usage k n s).1.0 ≡ s.0)
    (asks : (p : ℕ) (k : Option Text) (v : Option Service) (a b : Option Time) (s : ℕ × W)
      → (quota_client.get_usage p k v a b s).1.0 ≡ s.0)
    (sleeps : (ns : ℕ) (s : ℕ × W) → (sleep ns s).1.0 ≡ s.0 + ns) where
  filled :
      (p : ℕ) (c : Option Cycle) (now : Time)
      → Within 0 (fill_usage cache quota_client service p c now)
  unfolding fill_usage
  filled p c now =
      let ask =
        quota_client.get_usage p none (some service) (some (get_start c now))
          (some (get_end c now)) in
      let key = cache_key_quota p c (some service) now in
      bind-Within (wrap "get account usage" ask)
        (λ usage. wrap "set usage cache" (cache.usage.set_usage key usage) >>= λ done. pure usage) 0
        0
        (wrap-Within "get account usage" ask 0 λ s.
          omega
            (arith, asks p none (some service) (some (get_start c now)) (some (get_end c now)) s))
        λ usage.
          bind-Within (wrap "set usage cache" (cache.usage.set_usage key usage))
            (λ done. pure usage) 0 0
            (wrap-Within "set usage cache" (cache.usage.set_usage key usage) 0
              λ s. omega (arith, sets key usage s))
            λ done s. omega arith

  -- The sleeps of the rounds that are left.
  abbrev slept : ℕ → ℕ → ℕ
  slept zero i = 0
  slept (suc left) i = 100000000 * (i + 1) + slept left (i + 1)

  rounds-Within :
      (left i p : ℕ) (c : Option Cycle) (now : Time)
      → Within (slept left i) (ensure_rounds cache quota_client service sleep left i p c now)
  unfolding ensure_rounds
  rounds-Within zero i p c now = λ s. omega arith
  rounds-Within (suc left) i p c now =
      still-Within (attempt (cache.usage.peek_usage (cache_key_quota p c (some service) now))) _
        (slept (suc left) i)
        (attempt-Within (cache.usage.peek_usage (cache_key_quota p c (some service) now)) 0
          λ s. omega (arith, peeks (cache_key_quota p c (some service) now) s))
        (elim [
          | got usage ↦ λ s. omega arith
          | failed e ↦ λ s. elim (Bool-cases (errors_is e cache_wait)) [
            | inl t ↦ ground (
              arith,
              t,
              bind-Within (sleep (100000000 * (i + 1)))
                  (λ x. ensure_rounds cache quota_client service sleep left (i + 1) p c now)
                  (100000000 * (i + 1)) (slept left (i + 1))
                  (λ s. omega (arith, sleeps (100000000 * (i + 1)) s))
                  (λ x. rounds-Within left (i + 1) p c now) s,
            )
            | inr f ↦ ground (arith, f, filled p c now s)
          ]
        ])

  -- For a cache and a server that leave the clock alone, and a sleep that moves it by what it is
  -- asked for: EnsureUsage ends with the clock at most 600 ms later.
  pub ensure_usage_sleep :
      (p : ℕ) (c : Option Cycle) (now : Time) (s : ℕ × W)
      → (ensure_usage cache quota_client service sleep p c now s).1.0 ≤ s.0 + 600000000
  unfolding ensure_usage
  ensure_usage_sleep p c now s = rounds-Within 3 0 p c now s
