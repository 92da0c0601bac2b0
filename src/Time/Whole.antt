-- ===== src/Time/Whole.antt =====
-- utils/time.ts: ranges of dates are whole days in Korea.
use Prim.Native.Nat.{◌%◌, ◌-◌}
use bubblog_ai.Prelude.{
  ℕ, ◌+◌, ◌*◌, ◌≤◌, ◌≡◌, arith, if◌then◌else◌, ◌==◌, not, Bool, true, false, Option, none, some,
  min, max,
}
use bubblog_ai.Prelude.Options.{◌>>=◌, bind-some}
use bubblog_ai.Prelude.Text.{Text, trim, is_empty, is_space}
use bubblog_ai.Prelude.Filter.{filter}
use bubblog_ai.Search.{
  TimeUnit, TimePreset, today, yesterday, last_7_days, last_14_days, last_30_days, this_month,
  last_month, TimeFilter, absolute, relative, month_of, quarter_of, year_of, named, label,
}
use bubblog_ai.Time.Calendar.{
  year_zero, utc_zone, day_ms, time_clip, new_date, set_date_back, get_full_year, get_month,
  get_date, first_day, full_year,
}
use bubblog_ai.Time.Labels.{Label, parse_label, to_now, from_to, in_quarter, in_month, in_year}
use bubblog_ai.Time.{
  to_kst, year_or, year_index, from_kst_to_utc, back_by, relative_range, month_range, years_range,
  quarter_range, start_of_quarter, end_of_quarter, pattern_range, label_range, labelled_range,
  preset_of, AbsoluteRange, kst_offset, last_ms, range_of, start_of_day, end_of_day, start_of_month,
  end_of_month, days_back, month_before, day_before, preset_range, named_range,
  to_absolute_range_kst,
}

-- From the start of a day in Korea to the end of one.
abbrev pub IsWhole : AbsoluteRange → Type 0
IsWhole r = ((r.from + kst_offset) % day_ms ≡ 0) × ((r.to + 1 + kst_offset) % day_ms ≡ 0)

abbrev pub is_absolute : TimeFilter → Bool
is_absolute (absolute _ _) = true
is_absolute _ = false

-- At the time of day `ms`, if it is a date.
abbrev IsAt : ℕ → Option ℕ → Type 0
IsAt ms o = (t : ℕ) → o ≡ some t → t % day_ms ≡ ms

time_clip-some : (n t : ℕ) → time_clip n ≡ some t → (t ≡ n) × (day_ms ≤ n)
time_clip-some n t e = ground (arith, e)

new_date-IsAt : (y m d ms : ℕ) → ms ≤ last_ms → IsAt ms (new_date utc_zone y m d ms)
unfolding new_date
new_date-IsAt y m d ms h t e =
    omega (arith, (time_clip-some ((first_day (full_year y) m + d - 1) * day_ms + ms) t e).0)

shifted-IsWhole :
    (f t from to : ℕ) (r : AbsoluteRange)
    → f % day_ms ≡ 0
    → t % day_ms ≡ last_ms
    → (from ≡ f - kst_offset) × (day_ms ≤ f - kst_offset)
    → (to ≡ t - kst_offset) × (day_ms ≤ t - kst_offset)
    → some (record { from = from; to = to }) ≡ some r
    → IsWhole r
shifted-IsWhole f t from to r hf ht efrom eto e =
    let left : from ≡ r.from = ground (arith, e) in
    let right : to ≡ r.to = ground (arith, e) in (omega arith, omega arith)

range_of-IsWhole :
    (f t : Option ℕ) (r : AbsoluteRange)
    → IsAt 0 f
    → IsAt last_ms t
    → range_of f t ≡ some r
    → IsWhole r
unfolding range_of
range_of-IsWhole f t r hf ht e = bind-some (IsWhole r) f _ r e (λ f1 ef e.
    bind-some (IsWhole r) t _ r e (λ t1 et e.
      bind-some (IsWhole r) (time_clip (f1 - kst_offset)) _ r e (λ from efrom e.
        bind-some (IsWhole r) (time_clip (t1 - kst_offset)) _ r e (λ to eto e.
          shifted-IsWhole f1 t1 from to r (hf f1 ef) (ht t1 et)
            (time_clip-some (f1 - kst_offset) from efrom) (time_clip-some (t1 - kst_offset) to eto)
            e))))

start_of_day-IsAt : (t : ℕ) → IsAt 0 (start_of_day utc_zone t)
unfolding start_of_day
start_of_day-IsAt t =
    new_date-IsAt (get_full_year utc_zone t) (get_month utc_zone t) (get_date utc_zone t) 0
      (omega arith)

end_of_day-IsAt : (t : ℕ) → IsAt last_ms (end_of_day utc_zone t)
unfolding end_of_day
end_of_day-IsAt t =
    new_date-IsAt (get_full_year utc_zone t) (get_month utc_zone t) (get_date utc_zone t) last_ms
      (omega arith)

-- What is then moved to the start of its day is at a start.
bind-IsAt : (o : Option ℕ) → IsAt 0 (o >>= start_of_day utc_zone)
bind-IsAt none = λ t e. absurd (ground (arith, e))
bind-IsAt (some t) = start_of_day-IsAt t

some-IsAt : (ms t : ℕ) → t % day_ms ≡ ms → IsAt ms (some t)
some-IsAt ms t h = λ t1 e. ground (arith, h, e)

month-IsWhole :
    (y m y1 m1 : ℕ) (r : AbsoluteRange)
    → range_of (start_of_month utc_zone y m) (end_of_month utc_zone y1 m1) ≡ some r
    → IsWhole r
unfolding start_of_month end_of_month
month-IsWhole y m y1 m1 r =
    range_of-IsWhole _ _ r (new_date-IsAt y m 1 0 (omega arith))
      (new_date-IsAt y1 (m1 + 1) 0 last_ms (omega arith))

preset_range-IsWhole :
    (k today_k end_k : ℕ) (p : TimePreset) (r : AbsoluteRange)
    → today_k % day_ms ≡ 0
    → end_k % day_ms ≡ last_ms
    → preset_range utc_zone k today_k end_k p ≡ some r
    → IsWhole r
unfolding preset_range days_back day_before month_before
preset_range-IsWhole k today_k end_k today r ht he e =
    range_of-IsWhole _ _ r (some-IsAt 0 today_k ht) (some-IsAt last_ms end_k he) e
preset_range-IsWhole k today_k end_k yesterday r ht he e =
    bind-some (IsWhole r) (set_date_back utc_zone today_k 1) _ r e
      (λ y_k _ e. range_of-IsWhole _ _ r (start_of_day-IsAt y_k) (end_of_day-IsAt y_k) e)
preset_range-IsWhole k today_k end_k last_7_days r ht he e =
    range_of-IsWhole _ _ r (bind-IsAt (set_date_back utc_zone end_k 6)) (some-IsAt last_ms end_k he)
      e
preset_range-IsWhole k today_k end_k last_14_days r ht he e =
    range_of-IsWhole _ _ r (bind-IsAt (set_date_back utc_zone end_k 13))
      (some-IsAt last_ms end_k he) e
preset_range-IsWhole k today_k end_k last_30_days r ht he e =
    range_of-IsWhole _ _ r (bind-IsAt (set_date_back utc_zone end_k 29))
      (some-IsAt last_ms end_k he) e
preset_range-IsWhole k today_k end_k this_month r ht he e =
    let y = get_full_year utc_zone k in let m = get_month utc_zone k in month-IsWhole y m y m r e
preset_range-IsWhole k today_k end_k last_month r ht he e =
    let y = get_full_year utc_zone k in
    let m = get_month utc_zone k in
    let y_adj = if m == 0 then y - 1 else y in
    let m_adj = if m == 0 then 11 else m - 1 in month-IsWhole y_adj m_adj y_adj m_adj r e
preset_range-IsWhole k today_k end_k _ r ht he e = absurd (ground (arith, e))

-- The steps that presets and labels share.
module _ (P : Type 0) (base_kst : Option ℕ) (f : ℕ → ℕ → ℕ → Option AbsoluteRange)
    (r : AbsoluteRange) where
  local_steps :
      (base_kst >>= (λ base_k. end_of_day utc_zone base_k >>= (λ end_k.
          start_of_day utc_zone base_k >>= (λ today_k.
            from_kst_to_utc end_k
            >>= (λ _. from_kst_to_utc today_k >>= (λ _. f base_k today_k end_k))))))
        ≡ some r
      → ((k today_k end_k : ℕ)
          → today_k % day_ms ≡ 0
          → end_k % day_ms ≡ last_ms
          → f k today_k end_k ≡ some r
          → P)
      → P
  local_steps e then_p = bind-some P base_kst _ r e (λ k _ e.
      bind-some P (end_of_day utc_zone k) _ r e (λ end_k eend e.
        bind-some P (start_of_day utc_zone k) _ r e (λ today_k etoday e.
          bind-some P (from_kst_to_utc end_k) _ r e (λ _ _ e.
            bind-some P (from_kst_to_utc today_k) _ r e (λ _ _ e.
              then_p k today_k end_k (start_of_day-IsAt k today_k etoday)
                (end_of_day-IsAt k end_k eend) e)))))

named_range-IsWhole :
    (base_kst : Option ℕ) (p : TimePreset) (r : AbsoluteRange)
    → named_range utc_zone base_kst p ≡ some r
    → IsWhole r
unfolding named_range
named_range-IsWhole base_kst p r e =
    local_steps (IsWhole r) base_kst (λ k today_k end_k. preset_range utc_zone k today_k end_k p) r
      e (λ k today_k end_k ht he e. preset_range-IsWhole k today_k end_k p r ht he e)

relative_range-IsWhole :
    (base_kst : Option ℕ) (u : TimeUnit) (value : ℕ) (r : AbsoluteRange)
    → relative_range utc_zone base_kst u value ≡ some r
    → IsWhole r
unfolding relative_range
relative_range-IsWhole base_kst u value r e = bind-some (IsWhole r) base_kst _ r e (λ k _ e.
    bind-some (IsWhole r) (end_of_day utc_zone k) _ r e (λ to_k eto e.
      range_of-IsWhole _ _ r (bind-IsAt (back_by utc_zone u (max 1 value) to_k))
        (some-IsAt last_ms to_k (end_of_day-IsAt k to_k eto)) e))

month_range-IsWhole : (y m : ℕ) (r : AbsoluteRange) → month_range utc_zone y m ≡ some r → IsWhole r
unfolding month_range
month_range-IsWhole y m r e = month-IsWhole y (m - 1) y (m - 1) r e

years_range-IsWhole : (a b : ℕ) (r : AbsoluteRange) → years_range utc_zone a b ≡ some r → IsWhole r
unfolding years_range
years_range-IsWhole a b r e = month-IsWhole a 0 b 11 r e

quarter_range-IsWhole :
    (y q : ℕ) (r : AbsoluteRange) → quarter_range utc_zone y q ≡ some r → IsWhole r
unfolding quarter_range start_of_quarter end_of_quarter
quarter_range-IsWhole y q r e =
    range_of-IsWhole _ _ r (new_date-IsAt y ((q - 1) * 3) 1 0 (omega arith))
      (new_date-IsAt y (q * 3 - 1 + 1) 0 last_ms (omega arith)) e

pattern_range-IsWhole :
    (end_k : ℕ) (l : Option Label) (r : AbsoluteRange)
    → end_k % day_ms ≡ last_ms
    → pattern_range utc_zone end_k l ≡ some r
    → IsWhole r
unfolding pattern_range start_of_month
pattern_range-IsWhole end_k none r he e = absurd (ground (arith, e))
pattern_range-IsWhole end_k (some (to_now y)) r he e =
    range_of-IsWhole _ _ r (new_date-IsAt (year_zero + y) 0 1 0 (omega arith))
      (some-IsAt last_ms end_k he) e
pattern_range-IsWhole end_k (some (from_to a b)) r he e =
    years_range-IsWhole (year_zero + a) (year_zero + b) r e
pattern_range-IsWhole end_k (some (in_quarter y q)) r he e =
    quarter_range-IsWhole (year_zero + y) q r e
pattern_range-IsWhole end_k (some (in_month y m)) r he e = month_range-IsWhole (year_zero + y) m r e
pattern_range-IsWhole end_k (some (in_year y)) r he e =
    years_range-IsWhole (year_zero + y) (year_zero + y) r e

labelled_range-IsWhole :
    (k today_k end_k : ℕ) (s : Text) (o : Option TimePreset) (r : AbsoluteRange)
    → today_k % day_ms ≡ 0
    → end_k % day_ms ≡ last_ms
    → labelled_range utc_zone k today_k end_k s o ≡ some r
    → IsWhole r
unfolding labelled_range
labelled_range-IsWhole k today_k end_k s (some p) r ht he e =
    preset_range-IsWhole k today_k end_k p r ht he e
labelled_range-IsWhole k today_k end_k s none r ht he e =
    pattern_range-IsWhole end_k (parse_label s) r he e

if-some :
    (b : Bool) (o : Option AbsoluteRange) (r : AbsoluteRange)
    → (if b then none else o) ≡ some r
    → o ≡ some r
if-some true o r e = absurd (ground (arith, e))
if-some false o r e = e

label_range-IsWhole :
    (to_lower_case : Text → Text) (base_kst : Option ℕ) (t : Text) (r : AbsoluteRange)
    → label_range utc_zone to_lower_case base_kst t ≡ some r
    → IsWhole r
unfolding label_range
label_range-IsWhole to_lower_case base_kst t r e =
    let s = to_lower_case (filter (λ c. not (is_space c)) (trim t)) in
    local_steps (IsWhole r) base_kst
      (λ k today_k end_k. labelled_range utc_zone k today_k end_k s (preset_of s)) r
      (if-some (is_empty (trim t)) _ r e)
      (λ k today_k end_k ht he e. labelled_range-IsWhole k today_k end_k s (preset_of s) r ht he e)

pub to_absolute_range_kst-IsWhole :
    (parse : Text → Option ℕ) (to_lower_case : Text → Text) (base : ℕ) (input : TimeFilter)
    (r : AbsoluteRange)
    → is_absolute input ≡ false
    → to_absolute_range_kst utc_zone parse to_lower_case base input ≡ some r
    → IsWhole r
unfolding to_absolute_range_kst
to_absolute_range_kst-IsWhole parse to_lower_case base (absolute _ _) r h e =
    absurd (ground (arith, h))
to_absolute_range_kst-IsWhole parse to_lower_case base (named p) r h e =
    named_range-IsWhole (to_kst base) p r e
to_absolute_range_kst-IsWhole parse to_lower_case base (relative u value) r h e =
    relative_range-IsWhole (to_kst base) u value r e
to_absolute_range_kst-IsWhole parse to_lower_case base (year_of y) r h e =
    years_range-IsWhole (year_index y) (year_index y) r e
to_absolute_range_kst-IsWhole parse to_lower_case base (month_of y m) r h e =
    bind-some (IsWhole r) (year_or y _) _ r e
      (λ y1 _ e. month_range-IsWhole y1 (max 1 (min 12 m)) r e)
to_absolute_range_kst-IsWhole parse to_lower_case base (quarter_of y q) r h e =
    bind-some (IsWhole r) (year_or y _) _ r e
      (λ y1 _ e. quarter_range-IsWhole y1 (max 1 (min 4 q)) r e)
to_absolute_range_kst-IsWhole parse to_lower_case base (label t) r h e =
    label_range-IsWhole to_lower_case (to_kst base) t r e
