-- ===== src/Time/Patterns.antt =====
-- utils/time.ts: the labels that are written for years, quarters and months are read as such.
use Prim.Native.Nat.{◌/◌, ◌%◌}
use bubblog_ai.Prelude.{ℕ, ◌+◌, ◌<◌, ◌≤◌, ◌≡◌, ◌∙◌, refl, arith, some, [], ◌∷◌, ◌++◌, min, max}
use bubblog_ai.Prelude.Text.{Text, codes}
use bubblog_ai.Time.Labels.{
  Label, to_now, from_to, in_quarter, in_month, in_year, four_digits, after_year, last_year,
  parse_label,
}

-- A year in four digits, a month in two.
abbrev pub year_digits : ℕ → Text
year_digits y = (48 + y / 1000) ∷ (48 + y / 100 % 10) ∷ (48 + y / 10 % 10) ∷ (48 + y % 10) ∷ []

abbrev pub month_digits : ℕ → Text
month_digits m = (48 + m / 10) ∷ (48 + m % 10) ∷ []

abbrev pub label_text : Label → Text
label_text (to_now y) = year_digits y ++ codes "_to_now"
label_text (from_to a b) = year_digits a ++ codes ".." ++ year_digits b
label_text (in_quarter y q) = year_digits y ++ codes "-q" ++ (48 + q) ∷ []
label_text (in_month y m) = year_digits y ++ codes "-" ++ month_digits m
label_text (in_year y) = year_digits y

abbrev pub IsLabel : Label → Type 0
IsLabel (to_now y) = y < 10000
IsLabel (from_to a b) = (a ≤ b) × (b < 10000)
IsLabel (in_quarter y q) = (y < 10000) × (1 ≤ q) × (q ≤ 4)
IsLabel (in_month y m) = (y < 10000) × (1 ≤ m) × (m ≤ 12)
IsLabel (in_year y) = y < 10000

four_digits-digits : (y : ℕ) (s : Text) → y < 10000 → four_digits (year_digits y ++ s) ≡ some (y, s)
four_digits-digits y s h = ground arith

to_now_lem : (y : ℕ) → after_year y (codes "_to_now") ≡ some (to_now y)
to_now_lem y = refl

in_year_lem : (y : ℕ) → after_year y [] ≡ some (in_year y)
in_year_lem y = refl

in_quarter_lem :
    (y q : ℕ) → 1 ≤ q → q ≤ 4 → after_year y (codes "-q" ++ (48 + q) ∷ []) ≡ some (in_quarter y q)
in_quarter_lem y q l h = ground arith

in_month_lem :
    (y m : ℕ) → 1 ≤ m → m ≤ 12 → after_year y (codes "-" ++ month_digits m) ≡ some (in_month y m)
in_month_lem y m l h = ground arith

last_year-digits : (y : ℕ) → y < 10000 → last_year (year_digits y) ≡ some y
last_year-digits y h = rw (last_year, four_digits-digits y [] h) refl

from_to_lem :
    (a b : ℕ) → a ≤ b → b < 10000 → after_year a (codes ".." ++ year_digits b) ≡ some (from_to a b)
from_to_lem a b h hb =
    let least : min a b ≡ a = omega arith in
    let greatest : max a b ≡ b = omega arith in rw (last_year-digits b hb, least, greatest) refl

after_digits : (y : ℕ) (s : Text) → y < 10000 → parse_label (year_digits y ++ s) ≡ after_year y s
unfolding parse_label
after_digits y s h = rw (parse_label, four_digits-digits y s h) refl

-- The label of a year to now, of two years, of a quarter, of a month and of a year, written with years of
-- four digits and months of two, is read as these, if the first year is not after the second.
pub parse_label-label_text : (l : Label) → IsLabel l → parse_label (label_text l) ≡ some l
parse_label-label_text (to_now y) h = after_digits y (codes "_to_now") h ∙ to_now_lem y
parse_label-label_text (from_to a b) (h, hb) =
    after_digits a (codes ".." ++ year_digits b) (omega arith) ∙ from_to_lem a b h hb
parse_label-label_text (in_quarter y q) (h, l, u) =
    after_digits y (codes "-q" ++ (48 + q) ∷ []) h ∙ in_quarter_lem y q l u
parse_label-label_text (in_month y m) (h, l, u) =
    after_digits y (codes "-" ++ month_digits m) h ∙ in_month_lem y m l u
parse_label-label_text (in_year y) h = after_digits y [] h ∙ in_year_lem y
