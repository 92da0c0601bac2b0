-- ===== src/Time/Calendar.antt =====
-- What utils/time.ts uses of JavaScript's `Date`, as ECMAScript defines it: days and time of day, the
-- calendar, the local time of a time zone, and the limits of a date.
use Prim.Native.Nat.{◌/◌, ◌%◌, ◌-◌}
use bubblog_ai.Prelude.Text.{Text, codes}
use bubblog_ai.Prelude.{
  ℕ, zero, suc, ◌+◌, ◌*◌, Bool, not, ◌&&◌, ◌||◌, Option, none, some, [], ◌∷◌, ◌++◌, ltb, leb, ◌==◌,
  if◌then◌else◌,
}

-- A date is the number of milliseconds since the year -400000, which is before every date; a year is
-- counted from there, too.
abbrev pub year_zero : ℕ
year_zero = 400000

abbrev pub day_ms : ℕ
day_ms = 86400000

-- The days before a year, and whether it is a leap year.
unfoldable pub days_before : ℕ → ℕ
days_before y = 365 * y + (y + 3) / 4 + (y + 399) / 400 - (y + 99) / 100

unfoldable pub leap_day : ℕ → ℕ
leap_day y = if ((y % 4 == 0) && not (y % 100 == 0)) || (y % 400 == 0) then 1 else 0

-- The days of a year before its month, from 0, and the month of such a day.
unfoldable pub month_start : ℕ → ℕ → ℕ
month_start leap m =
    if m == 0
    then 0
    else if m == 1
    then 31
    else if m == 2
    then 59 + leap
    else if m == 3
    then 90 + leap
    else if m == 4
    then 120 + leap
    else if m == 5
    then 151 + leap
    else if m == 6
    then 181 + leap
    else if m == 7
    then 212 + leap
    else if m == 8
    then 243 + leap
    else if m == 9
    then 273 + leap
    else if m == 10
    then 304 + leap
    else 334 + leap

unfoldable pub month_of_day : ℕ → ℕ → ℕ
month_of_day leap d =
    if ltb d 31
    then 0
    else if ltb d (59 + leap)
    then 1
    else if ltb d (90 + leap)
    then 2
    else if ltb d (120 + leap)
    then 3
    else if ltb d (151 + leap)
    then 4
    else if ltb d (181 + leap)
    then 5
    else if ltb d (212 + leap)
    then 6
    else if ltb d (243 + leap)
    then 7
    else if ltb d (273 + leap)
    then 8
    else if ltb d (304 + leap)
    then 9
    else if ltb d (334 + leap)
    then 10
    else 11

-- The year of a day: within 400 years, the days over 365 are the year or the one behind it.
unfoldable pub year_of_day : ℕ → ℕ
unfolding days_before
year_of_day n =
    let r = n % 146097 in
    let guess = r / 365 in
    400 * (n / 146097) + (if ltb r (days_before guess) then guess - 1 else guess)

unfoldable pub month_of : ℕ → ℕ
unfolding year_of_day month_of_day leap_day days_before
month_of n = let y = year_of_day n in month_of_day (leap_day y) (n - days_before y)

-- `MakeDay` for the date 1: the months from 12 on are those of later years.
unfoldable pub first_day : ℕ → ℕ → ℕ
unfolding days_before month_start leap_day
first_day y m = let y1 = y + m / 12 in days_before y1 + month_start (leap_day y1) (m % 12)

unfoldable pub date_of : ℕ → ℕ
unfolding year_of_day month_of first_day
date_of n = n + 1 - first_day (year_of_day n) (month_of n)

-- The limits: 100,000,000 days on both sides of the year 1970.
abbrev pub epoch : ℕ
epoch = 12684948019200000

abbrev pub is_date : ℕ → Bool
is_date t = leb (epoch - 8640000000000000) t && leb t (epoch + 8640000000000000)

abbrev pub time_clip : ℕ → Option ℕ
time_clip t = if is_date t then some t else none

-- A number with as many digits as asked for.
abbrev pad : ℕ → ℕ → Text
pad zero n = []
pad (suc width) n = pad width (n / 10) ++ (48 + n % 10) ∷ []

abbrev year_text : ℕ → Text
year_text y =
    if ltb y year_zero
    then codes "-" ++ pad 6 (year_zero - y)
    else if leb y (year_zero + 9999)
    then pad 4 (y - year_zero)
    else codes "+" ++ pad 6 (y - year_zero)

abbrev clock_text : ℕ → Text
clock_text ms =
    pad 2 (ms / 3600000)
    ++ codes ":"
    ++ pad 2 (ms / 60000 % 60)
    ++ codes ":"
    ++ pad 2 (ms / 1000 % 60)
    ++ codes "."
    ++ pad 3 (ms % 1000)

-- `toISOString`, of a date that is not invalid
unfoldable pub to_iso_string : ℕ → Text
unfolding year_of_day month_of date_of
to_iso_string t =
    let n = t / day_ms in
    year_text (year_of_day n)
    ++ codes "-"
    ++ pad 2 (month_of n + 1)
    ++ codes "-"
    ++ pad 2 (date_of n)
    ++ codes "T"
    ++ clock_text (t % day_ms)
    ++ codes "Z"

-- `new Date(y, ...)` takes the years 0 to 99 for those of the twentieth century.
abbrev pub full_year : ℕ → ℕ
full_year y = if leb year_zero y && leb y (year_zero + 99) then y + 1900 else y

-- The local time of a date, and the date of a local time, in the time zone of the process.
pub record Zone : Type 0 where
  pub local : ℕ → ℕ
  pub utc : ℕ → ℕ

abbrev pub utc_zone : Zone
utc_zone = record { local = λ t. t; utc = λ t. t }

module _ (z : Zone) where
  abbrev local_day : ℕ → ℕ
  local_day t = z.local t / day_ms

  -- `new Date(y, m, d, ...)` at the time of day `ms`; the date 0 is that before the first.
  unfoldable pub new_date : ℕ → ℕ → ℕ → ℕ → Option ℕ
  unfolding first_day
  new_date y m d ms = time_clip (z.utc ((first_day (full_year y) m + d - 1) * day_ms + ms))

  unfoldable pub get_full_year : ℕ → ℕ
  unfolding year_of_day
  get_full_year t = year_of_day (local_day t)

  unfoldable pub get_month : ℕ → ℕ
  unfolding month_of
  get_month t = month_of (local_day t)

  unfoldable pub get_date : ℕ → ℕ
  unfolding date_of
  get_date t = date_of (local_day t)

  -- The date at the time of day of `t` on a day of the calendar, `back` days earlier.
  abbrev moved : ℕ → ℕ → ℕ → ℕ → ℕ → Option ℕ
  unfolding first_day
  moved t y m d back =
      time_clip (z.utc ((first_day y m + d - 1 - back) * day_ms + z.local t % day_ms))

  -- `t.setDate(t.getDate() - n)`, `t.setMonth(t.getMonth() - n)`, `t.setFullYear(t.getFullYear() - n)`
  unfoldable pub set_date_back : ℕ → ℕ → Option ℕ
  unfolding first_day get_full_year get_month get_date
  set_date_back t n = moved t (get_full_year t) (get_month t) (get_date t) n

  unfoldable pub set_month_back : ℕ → ℕ → Option ℕ
  unfolding first_day get_full_year get_month get_date
  set_month_back t n =
      let months = get_full_year t * 12 + get_month t - n in
      moved t (months / 12) (months % 12) (get_date t) 0

  unfoldable pub set_full_year_back : ℕ → ℕ → Option ℕ
  unfolding first_day get_full_year get_month get_date
  set_full_year_back t n = moved t (get_full_year t - n) (get_month t) (get_date t) 0
