-- ===== src/Proto/Cycles/Interval.antt =====
-- What `SetInterval` makes of the two ends of an interval.
use quotacontrol.Prelude.{◌≡◌, ◌≢◌, Option, none, some, arith}
use quotacontrol.Prelude.Int.{ℤ, pos, ◌+ℤ◌, sub64, int_beq_iff}
use quotacontrol.Time.{Time, zero_time, sub_time, add_time}
use quotacontrol.Proto.Types.{Cycle}
use quotacontrol.Proto.Cycles.{get_start, get_end, set_interval}

abbrev pub length_of : Option Cycle → Time → ℤ
length_of c now = sub_time (get_end c now) (get_start c now)

-- For two times that are not zero: SetInterval leaves an interval with both ends as it is, sets a
-- missing end a cycle's length after the start, and sets a missing start to the end plus the
-- cycle's length negated as an int64.
pub set_interval_given :
    (c : Option Cycle) (from to now : Time)
    → from ≢ zero_time
    → to ≢ zero_time
    → (set_interval c (some from) (some to) now ≡ some (some from, some to))
      × (set_interval c (some from) (some zero_time) now
          ≡ some (some from, some (from +ℤ length_of c now)))
      × (set_interval c (some zero_time) (some to) now
          ≡ some (some (to +ℤ sub64 (pos 0) (length_of c now)), some to))
unfolding set_interval add_time
set_interval_given c from to now f t = (
  ground (arith, int_beq_iff from zero_time, int_beq_iff to zero_time),
  ground (arith, int_beq_iff from zero_time),
  ground (arith, int_beq_iff to zero_time),
)

-- Where neither is given the ends of the cycle are taken as they stand, also where they are zero,
-- and without a cycle the code dereferences nil.
pub set_interval_absent :
    (c : Cycle) (now : Time)
    → (set_interval (some c) (some zero_time) (some zero_time) now
        ≡ some (some c.start, some c.end))
      × (set_interval none (some zero_time) (some zero_time) now ≡ none)
unfolding set_interval
set_interval_absent c now = (ground arith, ground arith)
