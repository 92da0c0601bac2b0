-- ===== src/Plan/Parsing.antt =====
-- services/search-plan.service.ts: the JSON value that is read out of the answer of the model, and the
-- requests for it.
use bubblog_ai.Prelude.{
  ℕ, zero, Bool, true, false, ◌&&◌, ◌==◌, Option, none, some, List, [], ◌∷◌, ◌++◌, concat,
  if◌then◌else◌,
}
use bubblog_ai.Prelude.Text.{Text, codes, trim, is_empty, starts_with}
use bubblog_ai.Prelude.Int.{ℤ, pos, negsuc, ◌+ℤ◌}
use bubblog_ai.Plan.Schema.{RawPlan}

-- `JSON.parse`, `none` where it throws; whether a value is truthy; the fields of a value that
-- `planSchema` looks at, if it is an object.
pub record Parser (J W : Type 0) : Type 0 where
  pub parse : Text → Option J
  pub truthy : J → Bool
  pub fields : J → Option (RawPlan W)

-- A part of the `content` of an item of `output`; `json_type` is whether the type is `json` or
-- `output_json`.
pub record Part (J : Type 0) : Type 0 where
  pub json_type : Bool
  pub json : Option J
  pub text : Option Text

pub record PlanResponse (J : Type 0) : Type 0 where
  pub output : List (List (Part J))
  pub output_text : Option Text

-- The answers to the three requests that the code has, `none` where they throw; of the last the content.
pub record PlanModel (J : Type 0) : Type 0 where
  pub formatted : Option (PlanResponse J)
  pub unformatted : Option (PlanResponse J)
  pub chat : Option Text

pub data Call : Type 0 where
  formatted unformatted chat : Call

-- `inStr` and `esc`.
pub data Place : Type 0 where
  outside inside escaped : Place

unfoldable pub next_place : Place → ℕ → Place
next_place outside c = if c == 34 then inside else outside
next_place inside c = if c == 92 then escaped else if c == 34 then outside else inside
next_place escaped c = inside

unfoldable pub next_depth : Place → ℤ → ℕ → ℤ
next_depth outside d c = if c == 123 then d +ℤ pos 1 else if c == 125 then d +ℤ negsuc 0 else d
next_depth _ d c = d

abbrev pub is_nought : ℤ → Bool
is_nought (pos zero) = true
is_nought _ = false

unfoldable pub closes : Place → ℤ → ℕ → Bool
unfolding next_depth
closes outside d c = (c == 125) && is_nought (next_depth outside d c)
closes _ d c = false

abbrev pub or_else : {A : Type 0} → Option A → Option A → Option A
or_else (some a) b = some a
or_else none b = b

-- The text from its first opening brace on.
unfoldable pub from_brace : Text → Text
from_brace [] = []
from_brace (c ∷ s) = let rest = from_brace s in if c == 123 then c ∷ s else rest

-- The text up to its last closing brace.
unfoldable pub to_brace : Text → Text
to_brace [] = []
to_brace (c ∷ s) =
    let rest = to_brace s in if is_empty rest then (if c == 125 then c ∷ [] else []) else c ∷ rest

abbrev pub text_list : Option Text → List Text
text_list none = []
text_list (some t) = t ∷ []

module _ {J W : Type 0} (p : Parser J W) where
  -- A value that the following `if` takes for one.
  abbrev pub if_truthy : Option J → Option J
  if_truthy none = none
  if_truthy (some j) = if p.truthy j then some j else none

  abbrev pub try_parse : Text → Option J
  try_parse s = if_truthy (p.parse s)

  -- The loop over the characters from the first brace on; `seen` is `raw.slice(start, i)`.
  unfoldable pub scan : Place → ℤ → Text → Text → Option J
  unfolding next_place next_depth closes
  scan place depth seen [] = none
  scan place depth seen (c ∷ s) =
      let sub = seen ++ (c ∷ []) in
      let rest = scan (next_place place c) (next_depth place depth c) sub s in
      if closes place depth c then or_else (try_parse sub) rest else rest

  unfoldable pub extract : Text → Option J
  unfolding scan from_brace to_brace
  extract raw = or_else (try_parse raw) (elim (from_brace raw) [
    | [] ↦ none
    | c ∷ s ↦
        or_else (scan outside (pos 0) [] (c ∷ s))
          (elim (to_brace (c ∷ s)) [ [] ↦ none | d ∷ t ↦ try_parse (d ∷ t) ])
  ])

  abbrev pub first_json : List (Part J) → Option J
  first_json [] = none
  first_json (c ∷ cs) = or_else (if c.json_type then if_truthy c.json else none) (first_json cs)

  unfoldable pub structured : List (List (Part J)) → Option J
  structured [] = none
  structured (o ∷ os) = or_else (first_json o) (structured os)

  -- The text of a part, if it is not empty.
  abbrev pub part_texts : List (Part J) → List Text
  part_texts [] = []
  part_texts (c ∷ cs) = text_list c.text ++ part_texts cs

  abbrev pub all_texts : List (List (Part J)) → List Text
  all_texts [] = []
  all_texts (o ∷ os) = part_texts o ++ all_texts os

  abbrev pub braced : Text → Option J
  braced s = if starts_with (codes "{") s then try_parse s else none

  abbrev pub of_output_text : Option Text → Option J
  of_output_text none = none
  of_output_text (some t) = braced (trim t)

  -- `parsed` before the fallbacks, or `none` where the code returns `null`.
  unfoldable pub parse_response : PlanResponse J → Option (Option J)
  unfolding structured extract trim
  parse_response r = elim (or_else (structured r.output) (of_output_text r.output_text)) [
    | some j ↦ some (some j)
    | none ↦
        let raw = trim (concat (text_list r.output_text ++ all_texts r.output)) in
        if is_empty raw then none else elim (extract raw) [ none ↦ none | some j ↦ some (some j) ]
  ]

  abbrev pub first_braced : List Text → Option J
  first_braced [] = none
  first_braced (t ∷ ts) = or_else (braced (trim t)) (first_braced ts)

  abbrev pub trimmed_output : Option Text → Option J
  trimmed_output none = none
  trimmed_output (some t) = try_parse (trim t)

  -- `parsed2`
  unfoldable pub parse_fallback : Option (PlanResponse J) → Option J
  unfolding trim
  parse_fallback none = none
  parse_fallback (some r) =
      or_else (first_braced (all_texts r.output)) (trimmed_output r.output_text)

  -- The value of the last request; `none` where the code returns `null`.
  unfoldable pub parse_chat : Option Text → Option J
  unfolding trim
  parse_chat none = none
  parse_chat (some content) =
      if starts_with (codes "{") (trim content) then p.parse content else none

  -- From the first response to what `planSchema` parses, with the requests made. `planSchema` throws on
  -- what is no value.
  unfoldable pub after_response : PlanModel J → Option (Option J) → List Call × Option J
  unfolding parse_fallback parse_chat
  after_response m none = (formatted ∷ [], none)
  after_response m (some (some j)) = (formatted ∷ [], some j)
  after_response m (some none) = elim (parse_fallback m.unformatted) [
    | some j ↦ (formatted ∷ unformatted ∷ [], some j)
    | none ↦ (formatted ∷ unformatted ∷ chat ∷ [], parse_chat m.chat)
  ]

  unfoldable pub requested : PlanModel J → List Call × Option J
  unfolding after_response parse_response
  requested m = elim m.formatted [
    | none ↦ (formatted ∷ [], none)
    | some r ↦ after_response m (parse_response r)
  ]
