-- ===== src/Proto/Cycles.antt =====
-- `Cycle` in proto/proto.go, and internal/store/store.go.
pub mod Interval
use quotacontrol.Prelude.{not, ◌&&◌, Option, none, some, if◌then◌else◌}
use quotacontrol.Prelude.Int.{pos, ◌-ℤ◌, sub64}
use quotacontrol.Time.{
  Time, zero_time, is_zero, month_start, add_date, sub_time, add_time, day_of_month,
}
use quotacontrol.Proto.Types.{Cycle}

unfoldable pub get_start : Option Cycle → Time → Time
get_start none now = month_start now
get_start (some c) now = if not (is_zero c.start) then c.start else month_start now

unfoldable pub get_end : Option Cycle → Time → Time
unfolding get_start
get_end none now = add_date (get_start none now) 1 (pos 0 -ℤ pos 1)
get_end (some c) now =
    if not (is_zero c.end) then c.end else add_date (get_start (some c) now) 1 (pos 0 -ℤ pos 1)

-- `cmp.Or(p, &time.Time{})`, read through the pointer.
unfoldable pub or_zero : Option Time → Time
or_zero none = zero_time
or_zero (some t) = t

-- A write through a pointer; through the local one it does not reach the caller.
unfoldable pub assign : Option Time → Time → Option Time
assign none t = none
assign (some old) t = some t

-- What the two pointers hold after `SetInterval`: a nil pointer is replaced by a local one, so that
-- the caller's pointer stays nil. The result is `none` where the code dereferences a nil cycle.
unfoldable pub set_interval :
    Option Cycle → Option Time → Option Time → Time → Option (Option Time × Option Time)
unfolding get_end or_zero assign
set_interval c from to now =
    let f = or_zero from in
    let t = or_zero to in
    let duration = sub_time (get_end c now) (get_start c now) in
    if not (is_zero f) && not (is_zero t)
    then some (from, to)
    else if not (is_zero t)
    then some (assign from (add_time t (sub64 (pos 0) duration)), to)
    else if not (is_zero f)
    then some (from, assign to (add_time f duration))
    else elim c [ none ↦ none | some c ↦ some (assign from c.start, assign to c.end) ]

-- `Cycle.GetAccessCycle` of internal/store.
unfoldable pub get_access_cycle : Time → Cycle
get_access_cycle now = record {
  start = add_date now 0 (pos 1 -ℤ pos (day_of_month now));
  end = add_date now 1 (pos 1 -ℤ pos (day_of_month now));
}
