-- ===== src/Tests/Proto.antt =====
-- Limits, access keys, cycles and services.
use quotacontrol.Prelude.{◌≡◌, ◌↔◌, refl, Bool, false, Option, none, some, List, arith}
use quotacontrol.Prelude.Int.{pos, ◌+ℤ◌, ◌-ℤ◌, sub64, ◌≤ℤ◌, ◌<ℤ◌, min_ℤ}
use quotacontrol.Prelude.Text.{Text}
use quotacontrol.Time.{zero_time}
use quotacontrol.Proto.Types.{ServiceLimit, free_warn, free_max, over_warn, over_max, Cycle}
use quotacontrol.Proto.Limits.{get_spend_result, validate_service_limit}
use quotacontrol.Proto.Limits.Charge.{IsSpend, charge, event}
use quotacontrol.Proto.Cycles.{set_interval}
use quotacontrol.Proto.Cycles.Interval.{length_of, set_interval_given}

abbrev pub ten_to_twenty : ServiceLimit
ten_to_twenty = record {
  rate_limit = pos 100;
  free_warn = pos 5;
  free_max = pos 10;
  over_warn = pos 15;
  over_max = pos 20;
}

pub ten_to_twenty_valid : validate_service_limit ten_to_twenty ≡ none
unfolding validate_service_limit
ten_to_twenty_valid = refl

four_to_22 : IsSpend (pos 4) (pos 22)
four_to_22 = record {
  spent = omega arith;
  started = omega arith;
  fits = (omega arith, omega arith);
}

charge_example :
    (get_spend_result ten_to_twenty (pos 4) (pos 22)).0
    ≡ min_ℤ (pos 22) (pos 20) -ℤ min_ℤ (pos 22 -ℤ pos 4) (pos 20)
charge_example = charge ten_to_twenty (pos 4) (pos 22) ten_to_twenty_valid four_to_22

event_example :
    let before = pos 22 -ℤ pos 4 in
    let e = (get_spend_result ten_to_twenty (pos 4) (pos 22)).1 in
    ((e ≡ some over_max) ↔ ((before <ℤ pos 20) × (pos 20 ≤ℤ pos 22)))
    × ((e ≡ some free_max) ↔ ((before <ℤ pos 10) × (pos 10 ≤ℤ pos 22) × (pos 22 <ℤ pos 20)))
    × ((e ≡ some over_warn)
        ↔ ((pos 10 ≤ℤ before) × (before <ℤ pos 15) × (pos 15 ≤ℤ pos 22) × (pos 22 <ℤ pos 20)))
    × ((e ≡ some free_warn) ↔ ((before <ℤ pos 5) × (pos 5 ≤ℤ pos 22) × (pos 22 <ℤ pos 10)))
event_example = event ten_to_twenty (pos 4) (pos 22) ten_to_twenty_valid four_to_22

abbrev never : List Text → Text → Bool
never patterns origin = false

abbrev week : Option Cycle
week = some (record { start = pos 86400000000000; end = pos 691200000000000 })

set_interval_given_example :
    (set_interval week (some (pos 1000)) (some (pos 2000)) (pos 0)
      ≡ some (some (pos 1000), some (pos 2000)))
    × (set_interval week (some (pos 1000)) (some zero_time) (pos 0)
        ≡ some (some (pos 1000), some (pos 1000 +ℤ length_of week (pos 0))))
    × (set_interval week (some zero_time) (some (pos 2000)) (pos 0)
        ≡ some (some (pos 2000 +ℤ sub64 (pos 0) (length_of week (pos 0))), some (pos 2000)))
set_interval_given_example =
    set_interval_given week (pos 1000) (pos 2000) (pos 0) (λ e. ground arith) (λ e. ground arith)
