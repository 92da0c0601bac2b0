-- ===== src/Time/Days.antt =====
-- utils/time.ts: the days that a range of dates has, in a process whose time zone is UTC.
use Prim.Native.Nat.{◌/◌, ◌%◌, ◌-◌}
use bubblog_ai.Prelude.{
  ℕ, ◌+◌, ◌*◌, ◌≤◌, ◌<◌, ◌≡◌, refl, ap, arith, Bool, true, false, Option, some,
}
use bubblog_ai.Prelude.Text.{Text}
use bubblog_ai.Search.{
  TimePreset, all_time, all, today, yesterday, last_7_days, last_14_days, last_30_days, this_month,
  last_month, named,
}
use bubblog_ai.Time.{
  AbsoluteRange, kst_offset, last_ms, range_of, start_of_day, end_of_day, days_back, day_before,
  preset_range, named_range, to_absolute_range_kst,
}
use bubblog_ai.Time.Calendar.{
  new_date, set_date_back, utc_zone, days_before, leap_day, month_start, month_of_day, year_of_day,
  month_of, first_day, date_of, get_full_year, get_month, get_date, day_ms, year_zero, epoch,
  full_year, time_clip,
}

year_of_day-bounds :
    (n : ℕ) → (days_before (year_of_day n) ≤ n) × (n < days_before (year_of_day n + 1))
unfolding year_of_day days_before
year_of_day-bounds n = ground arith

month_of_day-bounds :
    (leap d : ℕ) → (month_of_day leap d < 12) × (month_start leap (month_of_day leap d) ≤ d)
unfolding month_of_day month_start
month_of_day-bounds leap d = ground arith

first_day-eq : (y m : ℕ) → m < 12 → first_day y m ≡ days_before y + month_start (leap_day y) m
unfolding first_day
first_day-eq y m h =
    let years : y + m / 12 ≡ y = omega arith in
    let months : m % 12 ≡ m = omega arith in rw (years, months) refl

month_of-bound : (n : ℕ) → month_of n < 12
unfolding month_of
month_of-bound n =
    (month_of_day-bounds (leap_day (year_of_day n)) (n - days_before (year_of_day n))).0

month_of-start :
    (n : ℕ) → month_start (leap_day (year_of_day n)) (month_of n) ≤ n - days_before (year_of_day n)
unfolding month_of
month_of-start n =
    (month_of_day-bounds (leap_day (year_of_day n)) (n - days_before (year_of_day n))).1

first_day-le : (n : ℕ) → first_day (year_of_day n) (month_of n) ≤ n
first_day-le n =
    rw (first_day-eq (year_of_day n) (month_of n) (month_of-bound n))
      (omega (arith, month_of-start n, (year_of_day-bounds n).0))

-- The calendar finds a day again.
pub first_day-date_of : (n : ℕ) → first_day (year_of_day n) (month_of n) + date_of n ≡ n + 1
unfolding date_of
first_day-date_of n = omega (arith, first_day-le n)

-- The dates of the years 1970 to 9999 and a little more.
abbrev pub IsCurrent : ℕ → Type 0
IsCurrent t = (epoch ≤ t) × (t ≤ epoch + 253402300799999)

year_of_day-current : (n : ℕ) → 146816528 ≤ n → year_zero + 100 ≤ year_of_day n
unfolding days_before
year_of_day-current n h = omega (arith, year_of_day-bounds n)

full_year-current : (y : ℕ) → year_zero + 100 ≤ y → full_year y ≡ y
full_year-current y h = ground arith

time_clip-current : (t : ℕ) → IsCurrent t → time_clip t ≡ some t
time_clip-current t h = ground arith

new_date-day :
    (n ms : ℕ)
    → 146816528 ≤ n
    → new_date utc_zone (year_of_day n) (month_of n) (date_of n) ms ≡ time_clip (n * day_ms + ms)
unfolding new_date
new_date-day n ms h =
    rw (full_year-current (year_of_day n) (year_of_day-current n h), first_day-date_of n)
      (ap (λ d. time_clip (d * day_ms + ms)) (omega arith))

start_of_day-current : (t : ℕ) → IsCurrent t → start_of_day utc_zone t ≡ some (t / day_ms * day_ms)
unfolding start_of_day get_full_year get_month get_date
start_of_day-current t h =
    rw
      (
        new_date-day (t / day_ms) 0 (omega arith),
        time_clip-current (t / day_ms * day_ms + 0) (omega arith),
      )
      (ap some (omega arith))

end_of_day-current :
    (t : ℕ) → IsCurrent t → end_of_day utc_zone t ≡ some (t / day_ms * day_ms + last_ms)
unfolding end_of_day get_full_year get_month get_date
end_of_day-current t h =
    rw (new_date-day (t / day_ms) last_ms (omega arith)) (time_clip-current _ (omega arith))

set_date_back-current :
    (t n : ℕ)
    → IsCurrent t
    → set_date_back utc_zone t n ≡ time_clip ((t / day_ms - n) * day_ms + t % day_ms)
unfolding set_date_back get_full_year get_month get_date
set_date_back-current t n h =
    rw (first_day-date_of (t / day_ms))
      (ap (λ d. time_clip ((d - n) * day_ms + t % day_ms)) (omega arith))

-- The same at the time `ms` of the day `d`.
start_of_day-day :
    (d ms : ℕ)
    → ms < day_ms
    → IsCurrent (d * day_ms + ms)
    → start_of_day utc_zone (d * day_ms + ms) ≡ some (d * day_ms)
start_of_day-day d ms hm h =
    rw (start_of_day-current (d * day_ms + ms) h) (ap (λ n. some (n * day_ms)) (omega arith))

end_of_day-day :
    (d ms : ℕ)
    → ms < day_ms
    → IsCurrent (d * day_ms + ms)
    → end_of_day utc_zone (d * day_ms + ms) ≡ some (d * day_ms + last_ms)
end_of_day-day d ms hm h =
    rw (end_of_day-current (d * day_ms + ms) h)
      (ap (λ n. some (n * day_ms + last_ms)) (omega arith))

set_date_back-day :
    (t d ms n : ℕ)
    → t ≡ d * day_ms + ms
    → ms < day_ms
    → IsCurrent t
    → IsCurrent ((d - n) * day_ms + ms)
    → set_date_back utc_zone t n ≡ some ((d - n) * day_ms + ms)
set_date_back-day t d ms n e hm h hn =
    let days : t / day_ms ≡ d = omega arith in
    let rest : t % day_ms ≡ ms = omega arith in
    rw (set_date_back-current t n h, days, rest) (time_clip-current ((d - n) * day_ms + ms) hn)

-- The days from `first` to `last` days before the day of `k`, a Korean date, from start to end.
abbrev pub day_range : ℕ → ℕ → ℕ → AbsoluteRange
day_range k first last = record {
  from = (k / day_ms - first) * day_ms - kst_offset;
  to = (k / day_ms - last) * day_ms + last_ms - kst_offset;
}

-- Between January 31, 1970 and the year 9999.
abbrev pub IsRecent : ℕ → Type 0
IsRecent k = (epoch + 30 * day_ms ≤ k) × (k ≤ epoch + 253402300799999)

range_of-days :
    (k first last f t : ℕ)
    → IsRecent k
    → (first ≤ 29) × (last ≤ 29)
    → f ≡ (k / day_ms - first) * day_ms
    → t ≡ (k / day_ms - last) * day_ms + last_ms
    → range_of (some f) (some t) ≡ some (day_range k first last)
unfolding range_of
range_of-days k first last f t h hd ef et =
    rw
      (
        ef,
        et,
        time_clip-current ((k / day_ms - first) * day_ms - kst_offset) (omega arith),
        time_clip-current ((k / day_ms - last) * day_ms + last_ms - kst_offset) (omega arith),
      )
      refl

days_back-current :
    (k n : ℕ)
    → IsRecent k
    → n - 1 ≤ 29
    → days_back utc_zone (k / day_ms * day_ms + last_ms) n ≡ some (day_range k (n - 1) 0)
unfolding days_back
days_back-current k n h hn =
    rw
      (
        set_date_back-day (k / day_ms * day_ms + last_ms) (k / day_ms) last_ms (n - 1) (omega arith)
            (omega arith) (omega arith) (omega arith),
        start_of_day-day (k / day_ms - (n - 1)) last_ms (omega arith) (omega arith),
      )
      (range_of-days k (n - 1) 0 ((k / day_ms - (n - 1)) * day_ms) (k / day_ms * day_ms + last_ms) h
        (omega arith) (omega arith) (omega arith))

day_before-current :
    (k : ℕ) → IsRecent k → day_before utc_zone (k / day_ms * day_ms) ≡ some (day_range k 1 1)
unfolding day_before
day_before-current k h =
    rw
      (
        set_date_back-day (k / day_ms * day_ms) (k / day_ms) 0 1 (omega arith) (omega arith)
            (omega arith) (omega arith),
        start_of_day-day (k / day_ms - 1) 0 (omega arith) (omega arith),
        end_of_day-day (k / day_ms - 1) 0 (omega arith) (omega arith),
      )
      (range_of-days k 1 1 ((k / day_ms - 1) * day_ms) ((k / day_ms - 1) * day_ms + last_ms) h
        (omega arith) (omega arith) (omega arith))

-- The presets of days, and how many days before a date they start and end.
abbrev pub is_days : TimePreset → Bool
is_days all_time = false
is_days all = false
is_days this_month = false
is_days last_month = false
is_days _ = true

abbrev pub first_of : TimePreset → ℕ
first_of yesterday = 1
first_of last_7_days = 6
first_of last_14_days = 13
first_of last_30_days = 29
first_of _ = 0

abbrev pub last_of : TimePreset → ℕ
last_of yesterday = 1
last_of _ = 0

preset_range-days :
    (k : ℕ) (p : TimePreset)
    → IsRecent k
    → is_days p ≡ true
    → preset_range utc_zone k (k / day_ms * day_ms) (k / day_ms * day_ms + last_ms) p
      ≡ some (day_range k (first_of p) (last_of p))
unfolding preset_range
preset_range-days k today h hp =
    range_of-days k 0 0 (k / day_ms * day_ms) (k / day_ms * day_ms + last_ms) h (omega arith)
      (omega arith) (omega arith)
preset_range-days k yesterday h hp = day_before-current k h
preset_range-days k last_7_days h hp = days_back-current k 7 h (omega arith)
preset_range-days k last_14_days h hp = days_back-current k 14 h (omega arith)
preset_range-days k last_30_days h hp = days_back-current k 30 h (omega arith)
preset_range-days k _ h hp = absurd (ground (arith, hp))

-- In a process whose time zone is UTC, at a time between February 1970 and the year 9999, the presets of
-- today, yesterday and the last 7, 14 and 30 days give the range from the start of the first of these days in
-- Korea to the last millisecond of the last one.
pub to_absolute_range_kst-days :
    (parse : Text → Option ℕ) (to_lower_case : Text → Text) (base : ℕ) (p : TimePreset)
    → IsRecent (base + kst_offset)
    → is_days p ≡ true
    → to_absolute_range_kst utc_zone parse to_lower_case base (named p)
      ≡ some (day_range (base + kst_offset) (first_of p) (last_of p))
unfolding to_absolute_range_kst named_range
to_absolute_range_kst-days parse to_lower_case base p h hp =
    rw
      (
        time_clip-current (base + kst_offset) (omega arith),
        end_of_day-current (base + kst_offset) (omega arith),
        start_of_day-current (base + kst_offset) (omega arith),
        time_clip-current ((base + kst_offset) / day_ms * day_ms + last_ms - kst_offset)
            (omega arith),
        time_clip-current ((base + kst_offset) / day_ms * day_ms - kst_offset) (omega arith),
      )
      (preset_range-days (base + kst_offset) p h hp)
