-- ===== src/Plan.antt =====
-- services/search-plan.service.ts: the plan that a model makes for a question, read out of its answer and
-- brought into bounds.
pub mod Parsing
pub mod Cleaning
pub mod Schema
pub mod Extract
pub mod Calls
pub mod Normal
use bubblog_ai.Prelude.{
  ℕ, leb, zero, suc, min, max, Bool, true, false, not, ◌&&◌, ◌||◌, ltb, ◌==◌, Option, none, some,
  List, [], ◌∷◌, ◌++◌, take, length, concat, if◌then◌else◌,
}
use bubblog_ai.Prelude.Text.{Text, codes, text_eq, trim, is_empty, starts_with, is_space}
use bubblog_ai.Prelude.Int.{ℤ, pos, negsuc, ◌+ℤ◌}
use bubblog_ai.Search.{Doubles, get_preset, TimeFilter, absolute, Weights, HybridPlan, SearchPlan}
use bubblog_ai.Plan.Schema.{RawPlan, plan_schema}
use bubblog_ai.Plan.Parsing.{
  Parser, Part, PlanResponse, PlanModel, formatted, unformatted, chat, Call, Place, outside, inside,
  escaped, next_place, next_depth, is_nought, closes, or_else, from_brace, to_brace, text_list,
  if_truthy, try_parse, scan, extract, first_json, structured, part_texts, all_texts, braced,
  of_output_text, parse_response, first_braced, trimmed_output, parse_fallback, parse_chat,
  after_response, requested,
}
use bubblog_ai.Plan.Cleaning.{
  Words, one_of, stopwords, any_space, visible, unique, list_key, keyword_key, clean_list,
  clean_keywords, or_number, unit_clamp, normal_weights, given_or, normal_time, normal_hybrid,
  normalize,
}

-- `planSchema.parse`: what is no object of the schema throws, and the search has no plan.
module _ {J W : Type 0} (p : Parser J W) (n : Doubles W) where
  abbrev pub planned : Option J → Option (SearchPlan W)
  planned none = none
  planned (some j) = elim (p.fields j) [ none ↦ none | some r ↦ plan_schema n r ]

  abbrev pub normalized :
      Words → (TimeFilter → Option (Text × Text)) → Option (SearchPlan W) → Option (SearchPlan W)
  normalized w to_absolute none = none
  normalized w to_absolute (some plan) = some (normalize n w to_absolute plan)

  -- The normalized plan of `generateSearchPlan`, with the requests made.
  unfoldable pub generate_search_plan :
      Words → (TimeFilter → Option (Text × Text)) → PlanModel J → List Call × Option (SearchPlan W)
  unfolding requested plan_schema normalize
  generate_search_plan w to_absolute m =
      let r = requested p m in (r.0, normalized w to_absolute (planned r.1))
