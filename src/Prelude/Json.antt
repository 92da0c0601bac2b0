-- ===== src/Prelude/Json.antt =====
-- `JSON.stringify` and `JSON.parse` on strings, over code units, as ECMA-262 defines them.
pub mod Laws
use Prim.Native.Nat.{ℕ, zero, suc, ◌+◌, ◌-◌, ◌*◌, ◌/◌, ◌%◌, ◌<◌}
use mathlib.Core.Path.{◌≡◌, refl, ap}
use mathlib.Core.Logic.{◌≢◌}
use mathlib.Core.Bool.{Bool, true, false, not, ◌&&◌, ◌||◌}
use mathlib.Core.Option.{Option, none, some}
use mathlib.Core.Option
use mathlib.Core.List.{List, [], ◌∷◌, ◌++◌, append_assoc}
use native.Mathlib.Omega.{arith}
use bubblog_ai.Prelude.Tests.{ltb, leb, ◌==◌, if◌then◌else◌}
use bubblog_ai.Prelude.Lists.{All}
use bubblog_ai.Prelude.Text.{Text, codes, is_empty}

abbrev is_lead : ℕ → Bool
is_lead c = leb 0xd800 c && leb c 0xdbff

abbrev is_trail : ℕ → Bool
is_trail c = leb 0xdc00 c && leb c 0xdfff

abbrev next_is_trail : Text → Bool
next_is_trail [] = false
next_is_trail (c ∷ _) = is_trail c

hex_digit : ℕ → ℕ
hex_digit d = if ltb d 10 then 48 + d else 87 + d

hex_escape : ℕ → Text
hex_escape c =
    92
    ∷ 117
    ∷ hex_digit (c / 4096)
    ∷ hex_digit (c / 256 % 16)
    ∷ hex_digit (c / 16 % 16)
    ∷ hex_digit (c % 16)
    ∷ []

-- The letter of a two-unit escape, such as `n` for a line feed.
escape_letter : ℕ → Option ℕ
escape_letter c =
    if c == 8
    then some 98
    else if c == 9
    then some 116
    else if c == 10
    then some 110
    else if c == 12
    then some 102
    else if c == 13
    then some 114
    else if c == 34
    then some 34
    else if c == 92
    then some 92
    else none

escape_unit : Bool → ℕ → Text
escape_unit paired c = elim (escape_letter c) [
  | some e ↦ 92 ∷ e ∷ []
  | none ↦ if ltb c 32 || not paired then hex_escape c else c ∷ []
]

-- A surrogate stays as it is only in a pair of a lead and a trail.
is_paired : Bool → ℕ → Text → Bool
is_paired after_lead c s =
    if is_lead c then next_is_trail s else if is_trail c then after_lead else true

escape_from : Bool → Text → Text
escape_from after_lead [] = []
escape_from after_lead (c ∷ s) =
    escape_unit (is_paired after_lead c s) c ++ escape_from (is_lead c) s

-- `JSON.stringify` of a string
unfoldable pub quote : Text → Text
unfolding escape_from is_paired escape_unit escape_letter hex_escape hex_digit
quote t = 34 ∷ (escape_from false t ++ 34 ∷ [])

pub data Mode : Type 0 where
  plain escape : Mode
  hex : ℕ → ℕ → Mode

pub data Step : Type 0 where
  fail close : Step
  go : Mode → Step
  emit : ℕ → Step

letter_unit : ℕ → Step
letter_unit e =
    if e == 98
    then emit 8
    else if e == 116
    then emit 9
    else if e == 110
    then emit 10
    else if e == 102
    then emit 12
    else if e == 114
    then emit 13
    else if e == 34
    then emit 34
    else if e == 92
    then emit 92
    else if e == 47
    then emit 47
    else fail

hex_value : ℕ → Option ℕ
hex_value c =
    if leb 48 c && leb c 57
    then some (c - 48)
    else if leb 97 c && leb c 102
    then some (c - 87)
    else if leb 65 c && leb c 70
    then some (c - 55)
    else none

hex_step : ℕ → ℕ → Option ℕ → Step
hex_step left acc none = fail
hex_step zero acc (some v) = emit (acc * 16 + v)
hex_step (suc left) acc (some v) = go (hex left (acc * 16 + v))

step : Mode → ℕ → Step
step plain c =
    if c == 34 then close else if c == 92 then go escape else if ltb c 32 then fail else emit c
step escape c = if c == 117 then go (hex 3 0) else letter_unit c
step (hex left acc) c = hex_step left acc (hex_value c)

push : ℕ → Option Text → Option Text
push u none = none
push u (some t) = some (u ∷ t)

scan : Mode → Text → Option Text
scan m [] = none
scan m (c ∷ s) = elim (step m c) [
  | fail ↦ none
  | close ↦ if is_empty s then some [] else none
  | go m' ↦ scan m' s
  | emit u ↦ push u (scan plain s)
]

-- The string that a text in quotes stands for; `none` where `JSON.parse` throws.
unfoldable pub parse_quoted : Text → Option Text
unfolding scan push step hex_step hex_value letter_unit
parse_quoted [] = none
parse_quoted (c ∷ s) = if c == 34 then scan plain s else none
