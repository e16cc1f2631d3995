-- ===== src/Time.antt =====
-- What the program uses of Go's package time. A `time.Time` is the number of nanoseconds since
-- January 1 of year 1, 00:00 UTC, which is Go's zero time; its location is UTC throughout. The
-- calendar is the proleptic Gregorian one, in eras of 400 years.
pub mod Calendar
use quotacontrol.Prelude.{
  ℕ, zero, suc, ◌+◌, ◌-◌, ◌*◌, ◌/◌, ◌%◌, Bool, ◌&&◌, ◌||◌, not, if◌then◌else◌, ltb, nat_beq, List,
  [], ◌∷◌, ◌++◌,
}
use quotacontrol.Prelude.Int.{ℤ, pos, negsuc, ◌+ℤ◌, ◌-ℤ◌, ltb_ℤ, int_beq, half_word}
use quotacontrol.Prelude.Text.{Text, codes, decimal}

abbrev pub Time : Type 0
Time = ℤ

abbrev pub zero_time : Time
zero_time = pos 0

-- `t.IsZero()`
abbrev pub is_zero : Time → Bool
is_zero t = int_beq t zero_time

-- Multiplication, division and remainder by a positive number, towards minus infinity.
unfoldable pub scale : ℕ → ℤ → ℤ
scale k (pos n) = pos (k * n)
scale k (negsuc n) = negsuc (k * n + (k - 1))

unfoldable pub floor_div : ℤ → ℕ → ℤ
floor_div (pos n) k = pos (n / k)
floor_div (negsuc n) k = negsuc (n / k)

unfoldable pub floor_mod : ℤ → ℕ → ℕ
floor_mod (pos n) k = n % k
floor_mod (negsuc n) k = k - 1 - n % k

abbrev pub day_ns : ℕ
day_ns = 86400000000000

abbrev pub era_days : ℕ
era_days = 146097

-- A date: year `400 * era + year_of_era + 1`, the month from 0, the day of the month from 1.
pub record Civil : Type 0 where
  pub era : ℤ
  pub year_of_era : ℕ
  pub month : ℕ
  pub day : ℕ

unfoldable pub is_leap : ℕ → Bool
is_leap y = nat_beq (y % 4) 3 && (not (nat_beq (y % 100) 99) || nat_beq y 399)

unfoldable pub month_lengths : Bool → List ℕ
month_lengths leap =
    31 ∷ (if leap then 29 else 28) ∷ 31 ∷ 30 ∷ 31 ∷ 30 ∷ 31 ∷ 31 ∷ 30 ∷ 31 ∷ 30 ∷ 31 ∷ []

-- The days of the months before the given one.
unfoldable pub days_before : List ℕ → ℕ → ℕ
days_before [] m = 0
days_before (d ∷ ds) zero = 0
days_before (d ∷ ds) (suc m) = d + days_before ds m

-- The month of a day of the year, and the day in it, both from 0.
unfoldable pub find_month : List ℕ → ℕ → ℕ × ℕ
find_month [] n = (0, n)
find_month (d ∷ ds) n = let (m, r) = find_month ds (n - d) in if ltb n d then (0, n) else (suc m, r)

-- The year of a day of the era.
unfoldable pub year_of : ℕ → ℕ
year_of n =
    let c : ℕ = (if ltb (n / 36524) 3 then n / 36524 else 3) in
    let r : ℕ = n - c * 36524 in
    let q : ℕ = r / 1461 in
    let s : ℕ = r - q * 1461 in
    let y : ℕ = (if ltb (s / 365) 3 then s / 365 else 3) in c * 100 + q * 4 + y

-- The first day of a year of the era.
unfoldable pub year_start : ℕ → ℕ
year_start y = 365 * y + y / 4 - y / 100 + y / 400

-- `t.Date()`, from the day that t lies in
unfoldable pub civil : ℤ → Civil
civil days =
    let n : ℕ = floor_mod days era_days in
    let y : ℕ = year_of n in
    let (m, d) = find_month (month_lengths (is_leap y)) (n - year_start y) in
    record { era = floor_div days era_days; year_of_era = y; month = m; day = d + 1 }

-- The day that `time.Date` counts from a year, a month from 0 and a day, which may be out of range.
unfoldable pub date : ℤ → ℕ → ℕ → ℤ → ℤ
date era year_of_era month day =
    let y : ℕ = year_of_era + month / 12 in
    let m : ℕ = month % 12 in
    scale era_days (era +ℤ pos (y / 400))
    +ℤ pos (year_start (y % 400) + days_before (month_lengths (is_leap (y % 400))) m)
    +ℤ (day -ℤ pos 1)

unfoldable pub day_of : Time → ℤ
day_of t = floor_div t day_ns

unfoldable pub clock_of : Time → ℕ
clock_of t = floor_mod t day_ns

-- `time.Date(now.Year(), now.Month(), 1, 0, 0, 0, 0, now.Location())`
unfoldable pub month_start : Time → Time
month_start t = let c = civil (day_of t) in scale day_ns (date c.era c.year_of_era c.month (pos 1))

-- `t.AddDate(0, months, days)`
unfoldable pub add_date : Time → ℕ → ℤ → Time
add_date t months days =
    let c = civil (day_of t) in
    scale day_ns (date c.era c.year_of_era (c.month + months) (pos c.day +ℤ days))
    +ℤ pos (clock_of t)

-- `t.Day()`
unfoldable pub day_of_month : Time → ℕ
day_of_month t = (civil (day_of t)).day

-- `t.Sub(u)`, which saturates at the ends of `int64`
unfoldable pub sub_time : Time → Time → ℤ
unfolding ◌-ℤ◌
sub_time t u =
    let d = t -ℤ u in
    if ltb_ℤ (pos (half_word - 1)) d
    then pos (half_word - 1)
    else if ltb_ℤ d (negsuc (half_word - 1))
    then negsuc (half_word - 1)
    else d

-- `t.Add(d)`
unfoldable pub add_time : Time → ℤ → Time
unfolding ◌+ℤ◌
add_time t d = t +ℤ d

-- A number with at least the given digits.
unfoldable pub zeros : ℕ → Text
zeros zero = []
zeros (suc k) = 48 ∷ zeros k

unfoldable pub padded : ℕ → ℕ → Text
unfolding decimal zeros
padded zero n = decimal n
padded (suc w) n =
    if ltb n 10 then zeros w ++ (48 + n) ∷ [] else padded w (n / 10) ++ (48 + n % 10) ∷ []

-- The year as Go prints it, with a sign before year 0.
unfoldable pub year_text : ℤ → Text
unfolding padded
year_text (pos n) = padded 4 n
year_text (negsuc n) = codes "-" ++ padded 4 (suc n)

-- `t.Format("2006-01-02")`
unfoldable pub format_date : Time → Text
format_date t =
    let c = civil (day_of t) in
    year_text (scale 400 c.era +ℤ pos (c.year_of_era + 1))
    ++ codes "-"
    ++ padded 2 (c.month + 1)
    ++ codes "-"
    ++ padded 2 c.day
