-- ===== src/Time.antt =====
-- utils/time.ts: the range of dates of a time filter, in days of Korea (KST, UTC+9).
pub mod Calendar
pub mod Labels
pub mod Days
pub mod Whole
pub mod Patterns
use Prim.Native.Nat.{◌/◌, ◌%◌, ◌-◌}
use bubblog_ai.Prelude.Options.{◌>>=◌}
use bubblog_ai.Prelude.{
  ℕ, zero, ◌+◌, ◌*◌, Bool, true, false, not, Option, none, some, List, [], ◌∷◌, ◌++◌, min, max, leb,
  ◌==◌, if◌then◌else◌,
}
use bubblog_ai.Prelude.Filter.{filter}
use bubblog_ai.Prelude.Text.{Text, codes, text_eq, trim, is_empty, is_space, number_text}
use bubblog_ai.Prelude.Int.{ℤ, pos, negsuc}
use bubblog_ai.Search.{
  TimeUnit, day, week, month, year, TimePreset, all_time, all, today, yesterday, last_7_days,
  last_14_days, last_30_days, this_month, last_month, TimeFilter, absolute, relative, month_of,
  quarter_of, year_of, named, label,
}
use bubblog_ai.Time.Calendar.{
  year_zero, to_iso_string, Zone, time_clip, new_date, get_full_year, get_month, get_date,
  set_date_back, set_month_back, set_full_year_back,
}
use bubblog_ai.Time.Labels.{Label, to_now, from_to, in_quarter, in_month, in_year, parse_label}

-- `KST_OFFSET_MINUTES`, in milliseconds, and the last millisecond of a day.
abbrev pub kst_offset : ℕ
kst_offset = 9 * 60 * 60 * 1000

abbrev pub last_ms : ℕ
last_ms = 86399999

-- The dates whose texts are `from` and `to`.
pub record AbsoluteRange : Type 0 where
  pub from : ℕ
  pub to : ℕ

abbrev pub to_kst : ℕ → Option ℕ
to_kst t = time_clip (t + kst_offset)

abbrev pub from_kst_to_utc : ℕ → Option ℕ
from_kst_to_utc t = time_clip (t - kst_offset)

unfoldable pub range_of : Option ℕ → Option ℕ → Option AbsoluteRange
range_of from_k to_k = do
  f ← from_k
  t ← to_k
  from ← from_kst_to_utc f
  to ← from_kst_to_utc t
  some (record { from = from; to = to })

-- A year of the source as a year of the calendar.
abbrev pub year_index : ℤ → ℕ
year_index (pos n) = year_zero + n
year_index (negsuc n) = year_zero - (n + 1)

-- `input.year ? ... : year`
abbrev pub year_or : Option ℤ → Option ℕ → Option ℕ
year_or none this_year = this_year
year_or (some (pos zero)) this_year = this_year
year_or (some y) this_year = some (year_index y)

-- The labels that are those of the presets.
abbrev pub preset_of : Text → Option TimePreset
preset_of s =
    if text_eq s (codes "all")
    then some all
    else if text_eq s (codes "all_time")
    then some all_time
    else if text_eq s (codes "today")
    then some today
    else if text_eq s (codes "yesterday")
    then some yesterday
    else if text_eq s (codes "last_7_days")
    then some last_7_days
    else if text_eq s (codes "last_14_days")
    then some last_14_days
    else if text_eq s (codes "last_30_days")
    then some last_30_days
    else if text_eq s (codes "this_month")
    then some this_month
    else if text_eq s (codes "last_month")
    then some last_month
    else none

module _ (z : Zone) where
  unfoldable pub start_of_day : ℕ → Option ℕ
  unfolding new_date get_full_year get_month get_date
  start_of_day d = new_date z (get_full_year z d) (get_month z d) (get_date z d) 0

  unfoldable pub end_of_day : ℕ → Option ℕ
  unfolding new_date get_full_year get_month get_date
  end_of_day d = new_date z (get_full_year z d) (get_month z d) (get_date z d) last_ms

  unfoldable pub start_of_month : ℕ → ℕ → Option ℕ
  unfolding new_date
  start_of_month y m = new_date z y m 1 0

  unfoldable pub end_of_month : ℕ → ℕ → Option ℕ
  unfolding new_date
  end_of_month y m = new_date z y (m + 1) 0 last_ms

  unfoldable pub start_of_quarter : ℕ → ℕ → Option ℕ
  unfolding new_date
  start_of_quarter y quarter = new_date z y ((quarter - 1) * 3) 1 0

  unfoldable pub end_of_quarter : ℕ → ℕ → Option ℕ
  unfolding new_date
  end_of_quarter y quarter = new_date z y (quarter * 3 - 1 + 1) 0 last_ms

  -- `daysBack(n)`, to the end of the day
  unfoldable pub days_back : ℕ → ℕ → Option AbsoluteRange
  unfolding range_of start_of_day set_date_back
  days_back end_k n = range_of (set_date_back z end_k (n - 1) >>= start_of_day) (some end_k)

  unfoldable pub day_before : ℕ → Option AbsoluteRange
  unfolding range_of start_of_day end_of_day set_date_back
  day_before today_k = do
    y_k ← set_date_back z today_k 1
    range_of (start_of_day y_k) (end_of_day y_k)

  unfoldable pub month_before : ℕ → Option AbsoluteRange
  unfolding range_of start_of_month end_of_month get_full_year get_month
  month_before base_k =
      let y = get_full_year z base_k in
      let m = get_month z base_k in
      let y_adj = if m == 0 then y - 1 else y in
      let m_adj = if m == 0 then 11 else m - 1 in
      range_of (start_of_month y_adj m_adj) (end_of_month y_adj m_adj)

  -- The presets, for the local date, the start of its day and its end.
  unfoldable pub preset_range : ℕ → ℕ → ℕ → TimePreset → Option AbsoluteRange
  unfolding range_of days_back day_before month_before start_of_month end_of_month get_full_year
      get_month
  preset_range base_k today_k end_k all_time = none
  preset_range base_k today_k end_k all = none
  preset_range base_k today_k end_k today = range_of (some today_k) (some end_k)
  preset_range base_k today_k end_k yesterday = day_before today_k
  preset_range base_k today_k end_k last_7_days = days_back end_k 7
  preset_range base_k today_k end_k last_14_days = days_back end_k 14
  preset_range base_k today_k end_k last_30_days = days_back end_k 30
  preset_range base_k today_k end_k this_month =
      let y = get_full_year z base_k in
      let m = get_month z base_k in range_of (start_of_month y m) (end_of_month y m)
  preset_range base_k today_k end_k last_month = month_before base_k

  unfoldable pub named_range : Option ℕ → TimePreset → Option AbsoluteRange
  unfolding range_of preset_range start_of_day end_of_day
  named_range base_kst p = do
    base_k ← base_kst
    end_k ← end_of_day base_k
    today_k ← start_of_day base_k
    end_utc ← from_kst_to_utc end_k
    today_utc ← from_kst_to_utc today_k
    preset_range base_k today_k end_k p

  abbrev pub back_by : TimeUnit → ℕ → ℕ → Option ℕ
  unfolding set_date_back set_month_back set_full_year_back
  back_by day value t = set_date_back z t (value - 1)
  back_by week value t = set_date_back z t (value * 7 - 1)
  back_by month value t = set_month_back z t value
  back_by year value t = set_full_year_back z t value

  unfoldable pub relative_range : Option ℕ → TimeUnit → ℕ → Option AbsoluteRange
  unfolding range_of start_of_day end_of_day set_date_back set_month_back set_full_year_back
  relative_range base_kst u value = do
    base_k ← base_kst
    to_k ← end_of_day base_k
    range_of (back_by u (max 1 value) to_k >>= start_of_day) (some to_k)

  unfoldable pub month_range : ℕ → ℕ → Option AbsoluteRange
  unfolding range_of start_of_month end_of_month
  month_range y m = range_of (start_of_month y (m - 1)) (end_of_month y (m - 1))

  unfoldable pub years_range : ℕ → ℕ → Option AbsoluteRange
  unfolding range_of start_of_month end_of_month
  years_range a b = range_of (start_of_month a 0) (end_of_month b 11)

  unfoldable pub quarter_range : ℕ → ℕ → Option AbsoluteRange
  unfolding range_of start_of_quarter end_of_quarter
  quarter_range y q = range_of (start_of_quarter y q) (end_of_quarter y q)

  unfoldable pub pattern_range : ℕ → Option Label → Option AbsoluteRange
  unfolding range_of start_of_month month_range years_range quarter_range
  pattern_range end_k none = none
  pattern_range end_k (some (to_now y)) = range_of (start_of_month (year_zero + y) 0) (some end_k)
  pattern_range end_k (some (from_to a b)) = years_range (year_zero + a) (year_zero + b)
  pattern_range end_k (some (in_quarter y q)) = quarter_range (year_zero + y) q
  pattern_range end_k (some (in_month y m)) = month_range (year_zero + y) m
  pattern_range end_k (some (in_year y)) = years_range (year_zero + y) (year_zero + y)

  unfoldable pub labelled_range : ℕ → ℕ → ℕ → Text → Option TimePreset → Option AbsoluteRange
  unfolding parse_label range_of preset_range pattern_range
  labelled_range base_k today_k end_k s (some p) = preset_range base_k today_k end_k p
  labelled_range base_k today_k end_k s none = pattern_range end_k (parse_label s)

  unfoldable pub label_range : (Text → Text) → Option ℕ → Text → Option AbsoluteRange
  unfolding filter trim parse_label range_of preset_range pattern_range labelled_range start_of_day
      end_of_day
  label_range to_lower_case base_kst t =
      let s = to_lower_case (filter (λ c. not (is_space c)) (trim t)) in
      if is_empty (trim t) then none else do
        base_k ← base_kst
        end_k ← end_of_day base_k
        today_k ← start_of_day base_k
        end_utc ← from_kst_to_utc end_k
        today_utc ← from_kst_to_utc today_k
        labelled_range base_k today_k end_k s (preset_of s)

  -- `parse` is `new Date(t)`. What throws in the source, at a date out of the limits, gives no range. Numbers
  -- are below 10 ^ 21, so that `parseInt` reads what `String` wrote.
  unfoldable pub to_absolute_range_kst :
      (Text → Option ℕ) → (Text → Text) → ℕ → TimeFilter → Option AbsoluteRange
  unfolding named_range relative_range month_range quarter_range years_range label_range
      get_full_year
  to_absolute_range_kst parse to_lower_case base input =
      let base_kst = to_kst base in
      let this_year = base_kst >>= (λ k. some (get_full_year z k)) in
      elim input [
        | named p ↦ named_range base_kst p
        | relative u value ↦ relative_range base_kst u value
        | absolute from to ↦ do f ← parse from; t ← parse to; some (record { from = f; to = t })
        | month_of y m ↦ year_or y this_year >>= (λ y1. month_range y1 (max 1 (min 12 m)))
        | year_of y ↦ years_range (year_index y) (year_index y)
        | quarter_of y q ↦ year_or y this_year >>= (λ y1. quarter_range y1 (max 1 (min 4 q)))
        | label t ↦ label_range to_lower_case base_kst t
      ]

  -- The function as the plan of a search calls it, at the time `base`.
  unfoldable pub to_absolute_texts :
      (Text → Option ℕ) → (Text → Text) → ℕ → TimeFilter → Option (Text × Text)
  unfolding to_absolute_range_kst to_iso_string
  to_absolute_texts parse to_lower_case base input =
      to_absolute_range_kst parse to_lower_case base input
      >>= (λ r. some (to_iso_string r.from, to_iso_string r.to))
