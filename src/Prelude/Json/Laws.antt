-- ===== src/Prelude/Json/Laws.antt =====
-- What `JSON.parse` makes of a string that `JSON.stringify` wrote, and what the quoted text holds.
use bubblog_ai.Prelude.{
  Bool-cases, ℕ, suc, ◌+◌, ◌*◌, ◌≡◌, ◌≢◌, refl, ap, Bool, false, none, some, [], ◌∷◌, ◌++◌,
  append_assoc, arith, All, All-append, Option-cases, inl, inr, ltb, not, ◌||◌, ◌∙◌, if◌then◌else◌,
}
use Prim.Native.Nat.{◌/◌, ◌%◌, ◌<◌}
use bubblog_ai.Prelude.Text.{Text, IsLine}
use bubblog_ai.Prelude.Json.{
  plain, hex, hex_digit, hex_escape, escape_letter, escape_unit, is_paired, is_lead, escape_from,
  quote, letter_unit, hex_value, hex_step, step, push, scan, parse_quoted,
}

-- Every unit of a text fits in sixteen bits.
abbrev pub IsUnits : Text → Type 0
IsUnits t = All (λ c. c < 65536) t

hex_value-hex_digit : (d : ℕ) → d < 16 → hex_value (hex_digit d) ≡ some d
unfolding hex_value hex_digit
hex_value-hex_digit d h = ground arith

step-hex_digit :
    (left acc d : ℕ) → d < 16 → step (hex left acc) (hex_digit d) ≡ hex_step left acc (some d)
unfolding step
step-hex_digit left acc d h = rw (hex_value-hex_digit d h)

scan-digit_more :
    (left acc d : ℕ) (s : Text)
    → d < 16
    → scan (hex (suc left) acc) (hex_digit d ∷ s) ≡ scan (hex left (acc * 16 + d)) s
unfolding scan hex_step
scan-digit_more left acc d s h = rw (step-hex_digit (suc left) acc d h, scan)

scan-digit_last :
    (acc d : ℕ) (s : Text)
    → d < 16
    → scan (hex 0 acc) (hex_digit d ∷ s) ≡ push (acc * 16 + d) (scan plain s)
unfolding scan hex_step
scan-digit_last acc d s h = rw (step-hex_digit 0 acc d h, scan)

hex_sum :
    (c : ℕ)
    → c < 65536
    → (((0 * 16 + c / 4096) * 16 + c / 256 % 16) * 16 + c / 16 % 16) * 16 + c % 16 ≡ c
hex_sum c h = omega arith

scan-hex_prefix : (s : Text) → scan plain (92 ∷ 117 ∷ s) ≡ scan (hex 3 0) s
unfolding scan step
scan-hex_prefix s = refl

scan-hex_escape :
    (c : ℕ) (s : Text) → c < 65536 → scan plain (hex_escape c ++ s) ≡ push c (scan plain s)
unfolding hex_escape
scan-hex_escape c s h =
    let d1 = c / 4096 in
    let d2 = c / 256 % 16 in
    let d3 = c / 16 % 16 in
    let d4 = c % 16 in
    scan-hex_prefix _
    ∙ scan-digit_more 2 0 d1 _ (omega arith)
    ∙ scan-digit_more 1 (0 * 16 + d1) d2 _ (omega arith)
    ∙ scan-digit_more 0 ((0 * 16 + d1) * 16 + d2) d3 _ (omega arith)
    ∙ scan-digit_last (((0 * 16 + d1) * 16 + d2) * 16 + d3) d4 s (omega arith)
    ∙ ap (λ u. push u (scan plain s)) (hex_sum c h)

scan-letter :
    (c e : ℕ) (s : Text)
    → escape_letter c ≡ some e
    → scan plain (92 ∷ e ∷ s) ≡ push c (scan plain s)
unfolding scan step escape_letter letter_unit
scan-letter c e s h = ground arith

scan-plain :
    (c : ℕ) (s : Text)
    → escape_letter c ≡ none
    → ltb c 32 ≡ false
    → scan plain (c ∷ s) ≡ push c (scan plain s)
unfolding scan step escape_letter
scan-plain c s h k = ground arith

scan-escape_unit :
    (paired : Bool) (c : ℕ) (s : Text)
    → c < 65536
    → scan plain (escape_unit paired c ++ s) ≡ push c (scan plain s)
unfolding escape_unit
scan-escape_unit paired c s h = elim (Option-cases (escape_letter c)) [
  | inl e ↦ rw (e, escape_unit) (scan-raw e)
  | inr (l, e) ↦ rw (e, escape_unit) (scan-letter c l s e)
]
  where
    scan-raw :
        escape_letter c ≡ none
        → scan plain ((if ltb c 32 || not paired then hex_escape c else c ∷ []) ++ s)
          ≡ push c (scan plain s)
    scan-raw e = ground (arith, scan-hex_escape c s h, scan-plain c s e)

scan-escape_from :
    (after_lead : Bool) (t : Text)
    → IsUnits t
    → scan plain (escape_from after_lead t ++ 34 ∷ []) ≡ some t
unfolding escape_from
scan-escape_from after_lead [] h = unfold scan step in refl
scan-escape_from after_lead (c ∷ t) (p, h) =
    ap (scan plain) (append_assoc (escape_unit (is_paired after_lead c t) c) _ _)
    ∙ scan-escape_unit (is_paired after_lead c t) c _ p
    ∙ rw (scan-escape_from (is_lead c) t h) (unfold push in refl)

-- `JSON.parse(JSON.stringify(t))` is `t`.
pub parse_quoted-quote : (t : Text) → IsUnits t → parse_quoted (quote t) ≡ some t
unfolding parse_quoted quote
parse_quoted-quote t h = scan-escape_from false t h

escape_unit-IsLine : (paired : Bool) (c : ℕ) → IsLine (escape_unit paired c)
unfolding escape_unit hex_escape hex_digit escape_letter
escape_unit-IsLine paired c = ground arith

escape_from-IsLine : (after_lead : Bool) (t : Text) → IsLine (escape_from after_lead t)
unfolding escape_from
escape_from-IsLine after_lead [] = tt
escape_from-IsLine after_lead (c ∷ t) =
    All-append (λ c. c ≢ 10) (escape_unit (is_paired after_lead c t) c) _ (escape_unit-IsLine _ c)
      (escape_from-IsLine (is_lead c) t)

-- What stands between the quotes.
pub inner : Text → Text
inner t = escape_from false t

pub quote-eq-inner : (t : Text) → quote t ≡ 34 ∷ (inner t ++ 34 ∷ [])
unfolding quote inner
quote-eq-inner t = refl

-- The quoted text holds no line feed: each one is escaped.
pub quote-IsLine : (t : Text) → IsLine (quote t)
unfolding quote
quote-IsLine t = (
  omega arith,
  All-append (λ c. c ≢ 10) (escape_from false t) _ (escape_from-IsLine false t) (omega arith),
)

-- A text between quotes as a reader steps through it: no quote ends it but one behind a backslash.
pub data IsInner : Text → Type 0 where
  over : IsInner []
  unit : {c : ℕ} {s : Text} → c ≢ 34 → c ≢ 92 → IsInner s → IsInner (c ∷ s)
  pair : {e : ℕ} {s : Text} → IsInner s → IsInner (92 ∷ e ∷ s)

hex_digit-differs : (d : ℕ) → (hex_digit d ≢ 34) × (hex_digit d ≢ 92)
unfolding hex_digit
hex_digit-differs d = ((λ e. ground (arith, e)), (λ e. ground (arith, e)))

hex_escape-IsInner : (c : ℕ) (s : Text) → IsInner s → IsInner (hex_escape c ++ s)
unfolding hex_escape
hex_escape-IsInner c s h =
    let (a, b) = hex_digit-differs (c / 4096) in
    let (d, e) = hex_digit-differs (c / 256 % 16) in
    let (f, g) = hex_digit-differs (c / 16 % 16) in
    let (i, j) = hex_digit-differs (c % 16) in pair (unit a b (unit d e (unit f g (unit i j h))))

escape_unit-IsInner :
    (paired : Bool) (c : ℕ) (s : Text) → IsInner s → IsInner (escape_unit paired c ++ s)
unfolding escape_unit escape_letter
escape_unit-IsInner paired c s h = elim (Option-cases (escape_letter c)) [
  | inr (e, q) ↦ rw (escape_unit, q) (pair h)
  | inl q ↦ elim (Bool-cases (ltb c 32 || not paired)) [
    | inl b ↦ rw (escape_unit, q, b) (hex_escape-IsInner c s h)
    | inr b ↦
        rw (escape_unit, q, b) (unit (λ e. ground (arith, e, q)) (λ e. ground (arith, e, q)) h)
  ]
]

escape_from-IsInner : (after_lead : Bool) (t : Text) → IsInner (escape_from after_lead t)
unfolding escape_from
escape_from-IsInner after_lead [] = over
escape_from-IsInner after_lead (c ∷ t) =
    escape_unit-IsInner (is_paired after_lead c t) c _ (escape_from-IsInner (is_lead c) t)

pub inner-IsInner : (t : Text) → IsInner (inner t)
unfolding inner escape_from
inner-IsInner t = escape_from-IsInner false t
