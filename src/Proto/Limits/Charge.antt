-- ===== src/Proto/Limits/Charge.antt =====
-- What a spend counts for, and which event it raises, in terms of the counter before and after it.
use quotacontrol.Prelude.{ℕ, ◌-◌, ◌≤◌, ◌<◌, ◌≡◌, ◌↔◌, none, some, true, arith}
use quotacontrol.Prelude.Int.{
  ℤ, pos, pos_part, ◌-ℤ◌, ◌≤ℤ◌, ◌<ℤ◌, min_ℤ, IsInt64, sub64_exact, sub64, sub64_pos, nonneg,
  half_word, sub_pos,
}
use quotacontrol.Proto.Types.{ServiceLimit, free_warn, free_max, over_warn, over_max}
use quotacontrol.Proto.Limits.{get_spend_result, get_over_threshold, validate_service_limit}

-- A spend of `v` that brought an `int64` counter from a number that is not negative to `total`.
pub record IsSpend (v total : ℤ) : Type 0 where
  pub spent : pos 0 ≤ℤ v
  pub started : v ≤ℤ total
  pub fits : IsInt64 total

before_exact : (v total : ℤ) → IsSpend v total → sub64 total v ≡ total -ℤ v
unfolding ◌-ℤ◌
before_exact v total s = sub64_exact total v (ground arith)

valid_order :
    (l : ServiceLimit)
    → validate_service_limit l ≡ none
    → (pos 0 <ℤ l.free_max) × (l.free_max ≤ℤ l.over_max)
unfolding validate_service_limit
valid_order l h = ground arith

crossed :
    (v total th : ℤ)
    → IsSpend v total
    → ((get_over_threshold v total th).1 ≡ true) ↔ ((total -ℤ v <ℤ th) × (th ≤ℤ total))
unfolding get_over_threshold
crossed v total th s = ground (arith, before_exact v total s)

over_part :
    (v n th : ℕ)
    → v ≤ n
    → n < half_word
    → n - v < th
    → th ≤ n
    → (get_over_threshold (pos v) (pos n) (pos th)).0 ≡ pos (n - th)
unfolding get_over_threshold
over_part v n th h k p q = ground (arith, sub64_pos n v, sub64_pos n th)

charge_nat :
    (l : ServiceLimit) (f m n t : ℕ)
    → l.free_max ≡ pos f
    → l.over_max ≡ pos m
    → f ≤ m
    → n ≤ t
    → t < half_word
    → (get_spend_result l (pos n) (pos t)).0 ≡ min_ℤ (pos t) (pos m) -ℤ min_ℤ (pos (t - n)) (pos m)
unfolding get_spend_result ◌-ℤ◌
charge_nat l f m n t ef em h k lt = ground (
  arith,
  crossed (pos n) (pos t) (pos m) (omega arith),
  over_part n t m k lt,
  sub64_pos n (t - m),
)

-- Under valid limits, for a spend that is not negative and took an int64 counter from a number that
-- is not negative to a total: what the spend counts for is the growth of the counter below the hard
-- limit.
pub charge :
    (l : ServiceLimit) (v total : ℤ)
    → validate_service_limit l ≡ none
    → IsSpend v total
    → (get_spend_result l v total).0 ≡ min_ℤ total l.over_max -ℤ min_ℤ (total -ℤ v) l.over_max
charge l v total h s =
    let (p, q) = valid_order l h in
    ground (
      arith,
      nonneg v s.spent,
      nonneg total (omega (arith, s.spent, s.started)),
      nonneg l.free_max (omega arith),
      nonneg l.over_max (omega arith),
      sub_pos (pos_part total) (pos_part v),
      charge_nat l (pos_part l.free_max) (pos_part l.over_max) (pos_part v) (pos_part total),
    )

-- Under valid limits, for a spend that is not negative and took an int64 counter from a number that
-- is not negative to a total: its event is OverMax exactly if it reached the hard limit from below,
-- FreeMax exactly if it reached the free limit from below and stayed below the hard limit, OverWarn
-- exactly if it started at or above the free limit, reached that warning from below and stayed
-- below the hard limit, and FreeWarn exactly if it reached that warning from below and stayed below
-- the free limit.
pub event :
    (l : ServiceLimit) (v total : ℤ)
    → validate_service_limit l ≡ none
    → IsSpend v total
    → let before = total -ℤ v in
      let e = (get_spend_result l v total).1 in
      ((e ≡ some over_max) ↔ ((before <ℤ l.over_max) × (l.over_max ≤ℤ total)))
      × ((e ≡ some free_max)
          ↔ ((before <ℤ l.free_max) × (l.free_max ≤ℤ total) × (total <ℤ l.over_max)))
      × ((e ≡ some over_warn) ↔ (
          (l.free_max ≤ℤ before)
          × (before <ℤ l.over_warn)
          × (l.over_warn ≤ℤ total)
          × (total <ℤ l.over_max)))
      × ((e ≡ some free_warn)
          ↔ ((before <ℤ l.free_warn) × (l.free_warn ≤ℤ total) × (total <ℤ l.free_max)))
unfolding get_spend_result
event l v total h s = ground (
  arith,
  valid_order l h,
  crossed v total l.over_max s,
  crossed v total l.free_max s,
  crossed v total l.over_warn s,
  crossed v total l.free_warn s,
)
