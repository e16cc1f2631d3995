-- ===== src/Time/Calendar.antt =====
-- The calendar of the model of Go's package time.
use quotacontrol.Prelude.{
  ℕ, suc, ◌+◌, ◌-◌, ◌*◌, ◌/◌, ◌%◌, ◌≤◌, ◌<◌, ◌≡◌, refl, subst, ◌∙◌, sym, ap, Bool, List, [], ◌∷◌,
  arith, ltb, Bool-cases, inl, inr,
}
use quotacontrol.Prelude.Int.{ℤ, pos, negsuc, ◌+ℤ◌, ◌-ℤ◌, int_laws}
use quotacontrol.Time.{
  Time, Civil, day_ns, era_days, civil, date, scale, floor_div, floor_mod, year_of, year_start,
  find_month, days_before, month_lengths, is_leap, month_start, day_of, clock_of,
}

floor_parts : (a : ℤ) (k : ℕ) → 0 < k → a ≡ scale k (floor_div a k) +ℤ pos (floor_mod a k)
unfolding scale floor_div floor_mod ◌+ℤ◌
floor_parts (pos n) k h = ground arith
floor_parts (negsuc n) k h = ground arith

year_bounds : (n : ℕ) → n < 146097 → (year_start (year_of n) ≤ n) × (year_of n < 400)
unfolding year_of year_start
year_bounds n h = ground arith

-- The days before a month and the day in it make up the day of the year.
month_parts : (l : List ℕ) (n : ℕ) → days_before l (find_month l n).0 + (find_month l n).1 ≡ n
unfolding find_month days_before
month_parts [] n = omega arith
month_parts (d ∷ l) n = ground (arith, month_parts l (n - d))

abbrev total_days : List ℕ → ℕ
total_days [] = 0
total_days (d ∷ l) = d + total_days l

abbrev months : List ℕ → ℕ
months [] = 0
months (d ∷ l) = suc (months l)

month_bound : (l : List ℕ) (n : ℕ) → n < total_days l → (find_month l n).0 < months l
unfolding find_month
month_bound [] n h = absurd (omega arith)
month_bound (d ∷ l) n h = elim (Bool-cases (ltb n d)) [
  | inl t ↦ ground arith
  | inr f ↦ ground (arith, month_bound l (n - d))
]

year_days :
    (n : ℕ)
    → n < 146097
    → n - year_start (year_of n) < total_days (month_lengths (is_leap (year_of n)))
unfolding year_of year_start is_leap month_lengths
year_days n h = ground arith

months_are_twelve : (leap : Bool) → months (month_lengths leap) ≡ 12
unfolding month_lengths
months_are_twelve leap = refl

add_nothing : (a : ℤ) → a +ℤ pos 0 ≡ a
unfolding ◌+ℤ◌
add_nothing a = ground arith

-- The day of a date, where the month and the year of the era are in range.
date_in_range :
    (era : ℤ) (y m : ℕ) (day : ℤ)
    → y < 400
    → m < 12
    → date era y m day
      ≡ scale era_days era
        +ℤ pos (year_start y + days_before (month_lengths (is_leap y)) m)
        +ℤ (day -ℤ pos 1)
unfolding date
date_in_range era y m day h k =
    let e1 : y + m / 12 ≡ y = omega arith in
    let e2 : m % 12 ≡ m = omega arith in
    let e3 : y / 400 ≡ 0 = omega arith in
    let e4 : y % 400 ≡ y = omega arith in rw (e1, e2, e3, e4, add_nothing) refl

-- Each day has the date that `civil` gives it.
record Dated (n : ℤ) (c : Civil) : Type 0 where
  same_era : c.era ≡ floor_div n era_days
  year : c.year_of_era < 400
  month : c.month < 12
  first : 0 < c.day
  within :
      year_start c.year_of_era
        + days_before (month_lengths (is_leap c.year_of_era)) c.month
        + (c.day - 1)
      ≡ floor_mod n era_days

floor_mod_bound : (n : ℤ) (k : ℕ) → 0 < k → floor_mod n k < k
unfolding floor_mod
floor_mod_bound (pos n) k h = omega arith
floor_mod_bound (negsuc n) k h = omega arith

civil-Dated : (n : ℤ) → Dated n (civil n)
unfolding civil
civil-Dated n =
    let r = floor_mod n era_days in
    let y = year_of r in
    let l = month_lengths (is_leap y) in
    let h = floor_mod_bound n era_days (omega arith) in
    record {
      same_era = refl;
      year = (year_bounds r h).1;
      month =
          subst (λ k. (find_month l (r - year_start y)).0 < k) (months_are_twelve (is_leap y))
            (month_bound l (r - year_start y) (year_days r h));
      first = omega arith;
      within = omega (arith, year_bounds r h, month_parts l (r - year_start y));
    }

assemble :
    (e : ℤ) (a d r : ℕ) → 0 < d → a + (d - 1) ≡ r → e +ℤ pos a +ℤ (pos d -ℤ pos 1) ≡ e +ℤ pos r
assemble e a d r h k = omega int_laws

-- `time.Date` of the date of a day is that day.
pub date-civil : (n : ℤ) → let c = civil n in date c.era c.year_of_era c.month (pos c.day) ≡ n
date-civil n =
    let c = civil n in
    let d = civil-Dated n in
    date_in_range c.era c.year_of_era c.month (pos c.day) d.year d.month
    ∙ assemble (scale era_days c.era) _ c.day (floor_mod n era_days) d.first d.within
    ∙ ap (λ (e : ℤ). scale era_days e +ℤ pos (floor_mod n era_days)) d.same_era
    ∙ sym (floor_parts n era_days (omega arith))

first_of_month :
    (e : ℤ) (a d : ℕ)
    → 0 < d
    → e +ℤ pos a +ℤ (pos 1 -ℤ pos 1) ≡ e +ℤ pos a +ℤ (pos d -ℤ pos 1) -ℤ pos (d - 1)
first_of_month e a d h = omega int_laws

-- The start of a month is the midnight of its first day.
month_start_day :
    (t : Time) → month_start t ≡ scale day_ns (day_of t -ℤ pos ((civil (day_of t)).day - 1))
unfolding month_start
month_start_day t =
    let n = day_of t in
    let c = civil n in
    let d = civil-Dated n in
    ap (scale day_ns) (
      date_in_range c.era c.year_of_era c.month (pos 1) d.year d.month
      ∙ first_of_month (scale era_days c.era) _ c.day d.first
      ∙ ap (λ (x : ℤ). x -ℤ pos (c.day - 1))
          (sym (date_in_range c.era c.year_of_era c.month (pos c.day) d.year d.month)
            ∙ date-civil n))

scale_day : (a : ℤ) (d : ℕ) → scale day_ns (a -ℤ pos d) ≡ scale day_ns a -ℤ pos (86400000000000 * d)
unfolding scale ◌-ℤ◌
scale_day (pos n) d = ground arith
scale_day (negsuc n) d = ground arith

back_to_start : (a s : ℤ) (c r : ℕ) → s ≡ a -ℤ pos c → s +ℤ pos (r + c) ≡ a +ℤ pos r
back_to_start a s c r e = rw e (omega int_laws)

-- A time is as long after the start of its month as its day of the month and its clock say.
pub month_start_offset :
    (t : Time) → t ≡ month_start t +ℤ pos (clock_of t + day_ns * ((civil (day_of t)).day - 1))
unfolding day_of clock_of
month_start_offset t =
    let d = (civil (day_of t)).day - 1 in
    floor_parts t day_ns (omega arith)
    ∙ sym (
        back_to_start (scale day_ns (day_of t)) (month_start t) (day_ns * d) (clock_of t)
          (month_start_day t ∙ scale_day (day_of t) d))
