-- ===== src/Tests/Time.antt =====
-- Tests of `Time`, at 2026-03-01T16:30:00Z, which is half past one on March 2 in Korea.
use bubblog_ai.Prelude.{arith, ℕ, ◌+◌, ◌-◌, ◌≡◌, refl, Option, none, some}
use bubblog_ai.Prelude.Text.{Text, codes, ascii_lower}
use bubblog_ai.Prelude.Int.{pos, negsuc}
use bubblog_ai.Search.{
  last_7_days, month, today, last_month, TimeFilter, relative, year_of, named, label,
}
use bubblog_ai.Time.Calendar.{epoch, Zone, utc_zone, to_iso_string}
use bubblog_ai.Time.{AbsoluteRange, kst_offset, to_absolute_range_kst, to_absolute_texts}
use bubblog_ai.Time.Labels.{parse_label, in_month}
use bubblog_ai.Time.Patterns.{label_text, parse_label-label_text}
use bubblog_ai.Time.Days.{day_range, to_absolute_range_kst-days}
use bubblog_ai.Time.Whole.{IsWhole, to_absolute_range_kst-IsWhole}

-- A process in Korea.
abbrev pub kst_zone : Zone
kst_zone = record { local = λ t. t + 32400000; utc = λ t. t - 32400000 }

abbrev pub base : ℕ
base = epoch + 1772382600000

abbrev pub parse : Text → Option ℕ
parse t = none

abbrev texts : TimeFilter → Option (Text × Text)
texts = to_absolute_texts utc_zone (parse) ascii_lower base

base_text : to_iso_string base ≡ codes "2026-03-01T16:30:00.000Z"
unfolding to_iso_string
base_text = refl

today_texts :
    texts (named today) ≡ some (codes "2026-03-01T15:00:00.000Z", codes "2026-03-02T14:59:59.999Z")
unfolding to_absolute_texts
today_texts = refl

last_month_texts :
    texts (named last_month)
    ≡ some (codes "2026-01-31T15:00:00.000Z", codes "2026-02-28T14:59:59.999Z")
unfolding to_absolute_texts
last_month_texts = refl

-- The last month has one day more than a month, from February 2 to March 2.
one_month_texts :
    texts (relative month 1)
    ≡ some (codes "2026-02-01T15:00:00.000Z", codes "2026-03-02T14:59:59.999Z")
unfolding to_absolute_texts
one_month_texts = refl

quarter_label :
    texts (label (codes "2024-Q3"))
    ≡ some (codes "2024-06-30T15:00:00.000Z", codes "2024-09-30T14:59:59.999Z")
unfolding to_absolute_texts ascii_lower
quarter_label = refl

to_now_label :
    texts (label (codes "2006_to_now"))
    ≡ some (codes "2005-12-31T15:00:00.000Z", codes "2026-03-02T14:59:59.999Z")
unfolding to_absolute_texts ascii_lower
to_now_label = refl

years_label :
    texts (label (codes "2022..2019"))
    ≡ some (codes "2018-12-31T15:00:00.000Z", codes "2022-12-31T14:59:59.999Z")
unfolding to_absolute_texts ascii_lower
years_label = refl

month_label :
    texts (label (codes "2024 09"))
    ≡ some (codes "2024-08-31T15:00:00.000Z", codes "2024-09-30T14:59:59.999Z")
unfolding to_absolute_texts ascii_lower
month_label = refl

-- The years up to 99 are those of the twentieth century.
year_50 :
    texts (year_of (pos 50))
    ≡ some (codes "1949-12-31T15:00:00.000Z", codes "1950-12-31T14:59:59.999Z")
unfolding to_absolute_texts
year_50 = refl

-- In a process whose time zone is that of Korea, the day starts at 15:00 in Korea.
today_in_korea :
    to_absolute_texts kst_zone (parse) ascii_lower base (named today)
    ≡ some (codes "2026-03-01T06:00:00.000Z", codes "2026-03-02T05:59:59.999Z")
unfolding to_absolute_texts
today_in_korea = refl

year_before_0 :
    texts (year_of (negsuc 0))
    ≡ some (codes "-000002-12-31T15:00:00.000Z", codes "-000001-12-31T14:59:59.999Z")
unfolding to_absolute_texts
year_before_0 = refl

-- A range that ends before it starts.
future_to_now :
    texts (label (codes "2099_to_now"))
    ≡ some (codes "2098-12-31T15:00:00.000Z", codes "2026-03-02T14:59:59.999Z")
unfolding to_absolute_texts ascii_lower
future_to_now = refl

to_absolute_range_kst-days_example :
    to_absolute_range_kst utc_zone parse ascii_lower base (named last_7_days)
    ≡ some (day_range (base + kst_offset) 6 0)
to_absolute_range_kst-days_example =
    to_absolute_range_kst-days parse ascii_lower base last_7_days (omega arith, omega arith) refl

abbrev quarter : AbsoluteRange
quarter = record { from = epoch + 1719759600000; to = epoch + 1727708399999 }

to_absolute_range_kst-IsWhole_example : IsWhole quarter
unfolding to_absolute_range_kst ascii_lower
to_absolute_range_kst-IsWhole_example =
    to_absolute_range_kst-IsWhole parse ascii_lower base (label (codes "2024-Q3")) quarter refl refl

parse_label-label_text_example : parse_label (label_text (in_month 2024 9)) ≡ some (in_month 2024 9)
parse_label-label_text_example =
    parse_label-label_text (in_month 2024 9) (omega arith, omega arith, omega arith)
