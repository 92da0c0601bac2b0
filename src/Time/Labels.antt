-- ===== src/Time/Labels.antt =====
-- The labels of utils/time.ts: what its regular expressions match, for a text without white space.
use bubblog_ai.Prelude.{
  ℕ, ◌+◌, ◌*◌, Bool, true, false, ◌&&◌, ◌||◌, Option, none, some, [], ◌∷◌, min, max, leb, ◌==◌,
  if◌then◌else◌,
}
use bubblog_ai.Prelude.Text.{Text, codes, text_eq, is_empty}
use Prim.Native.Nat.{◌-◌}

-- The years, quarters and months are those that the label names.
pub data Label : Type 0 where
  to_now : ℕ → Label
  from_to : ℕ → ℕ → Label
  in_quarter : ℕ → ℕ → Label
  in_month : ℕ → ℕ → Label
  in_year : ℕ → Label

-- `\d`
abbrev is_digit : ℕ → Bool
is_digit c = leb 48 c && leb c 57

-- `(\d{4})`, at the start of a text
abbrev pub four_digits : Text → Option (ℕ × Text)
four_digits (a ∷ b ∷ c ∷ d ∷ s) =
    if is_digit a && is_digit b && is_digit c && is_digit d
    then some ((a - 48) * 1000 + (b - 48) * 100 + (c - 48) * 10 + (d - 48), s)
    else none
four_digits _ = none

-- `(\d{4})$`
abbrev pub last_year : Text → Option ℕ
last_year s = elim (four_digits s) [
  | none ↦ none
  | some (y, rest) ↦ if is_empty rest then some y else none
]

-- `(?:_|-|to)+now$`, behind at least one separator if `seen`. A separator that starts with `t` is two long.
abbrev seps_now : Bool → Text → Bool
seps_now seen [] = false
seps_now seen (c ∷ []) = false
seps_now seen (c ∷ d ∷ s) =
    (seen && text_eq (c ∷ d ∷ s) (codes "now"))
    || (((c == 95) || (c == 45)) && seps_now true (d ∷ s))
    || ((c == 116) && (d == 111) && seps_now true s)

-- The text behind `_`, `-`, `to` or, where `dots`, `.`.
abbrev after_sep : Text → Option Text
after_sep [] = none
after_sep (c ∷ []) = if (c == 46) || (c == 95) || (c == 45) then some [] else none
after_sep (c ∷ d ∷ s) =
    if (c == 46) || (c == 95) || (c == 45)
    then some (d ∷ s)
    else if (c == 116) && (d == 111)
    then some s
    else none

-- `(?:\.|_|-|to){1,2}(\d{4})$`
abbrev pub second_year : Text → Option ℕ
second_year s = elim (after_sep s) [
  | none ↦ none
  | some s1 ↦ elim (after_sep s1) [ none ↦ last_year s1 | some s2 ↦ last_year s2 ]
]

-- `([1-4])`
abbrev quarter_digit : ℕ → Option ℕ
quarter_digit c = if leb 49 c && leb c 52 then some (c - 48) else none

-- `(?:-|_)q([1-4])$`
abbrev pub quarter_after : Text → Option ℕ
quarter_after (s ∷ q ∷ d ∷ []) =
    if ((s == 45) || (s == 95)) && (q == 113) then quarter_digit d else none
quarter_after _ = none

-- `(?:-|_)?`
abbrev pub without_dash : Text → Text
without_dash [] = []
without_dash (c ∷ s) = if (c == 45) || (c == 95) then s else c ∷ s

-- `^q([1-4])(?:-|_)?(\d{4})$`
abbrev quarter_first : Text → Option Label
quarter_first (q ∷ d ∷ s) =
    if q == 113
    then elim (quarter_digit d) [
      | none ↦ none
      | some n ↦ elim (last_year (without_dash s)) [ none ↦ none | some y ↦ some (in_quarter y n) ]
    ]
    else none
quarter_first _ = none

-- `(\d{1,2})$`, between 1 and 12
abbrev pub month_number : Text → Option ℕ
month_number (a ∷ []) = if is_digit a then some (max 1 (min 12 (a - 48))) else none
month_number (a ∷ b ∷ []) =
    if is_digit a && is_digit b then some (max 1 (min 12 ((a - 48) * 10 + (b - 48)))) else none
month_number _ = none

-- What follows a year at the start.
abbrev pub after_year : ℕ → Text → Option Label
after_year y s = if seps_now false s then some (to_now y) else elim (second_year s) [
  | some y2 ↦ some (from_to (min y y2) (max y y2))
  | none ↦ elim (quarter_after s) [
    | some q ↦ some (in_quarter y q)
    | none ↦ elim (month_number (without_dash s)) [
      | some m ↦ some (in_month y m)
      | none ↦ if is_empty s then some (in_year y) else none
    ]
  ]
]

-- A text that starts with a digit does not start with `q`.
unfoldable pub parse_label : Text → Option Label
parse_label s = elim (four_digits s) [ none ↦ quarter_first s | some (y, rest) ↦ after_year y rest ]
