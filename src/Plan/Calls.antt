-- ===== src/Plan/Calls.antt =====
-- services/search-plan.service.ts: the requests that are made for a plan.
use bubblog_ai.Prelude.{
  ◌≡◌, ◌⊎◌, inl, inr, refl, Bool-cases, Option-cases, Option, none, some, [], ◌∷◌, ◌++◌, concat,
}
use bubblog_ai.Prelude.Text.{Text, trim, is_empty}
use bubblog_ai.Search.{Doubles, TimeFilter}
use bubblog_ai.Plan.Parsing.{
  Parser, PlanResponse, PlanModel, formatted, or_else, extract, structured, of_output_text,
  text_list, all_texts, parse_response, after_response, requested,
}
use bubblog_ai.Plan.Cleaning.{Words}
use bubblog_ai.Plan.{generate_search_plan}

module _ {J W : Type 0} (p : Parser J W) where
  parse_response-cases :
      (r : PlanResponse J)
      → (parse_response p r ≡ none) ⊎ ((j : J) × (parse_response p r ≡ some (some j)))
  unfolding parse_response
  parse_response-cases r =
      elim (Option-cases (or_else (structured p r.output) (of_output_text p r.output_text))) [
        | inr (j, e) ↦ inr (j, rw (parse_response, e) refl)
        | inl e ↦
            let raw = trim (concat (text_list r.output_text ++ all_texts p r.output)) in
            elim (Bool-cases (is_empty raw)) [
              | inl b ↦ inl (rw (parse_response, e, b) refl)
              | inr b ↦ elim (Option-cases (extract p raw)) [
                | inl x ↦ inl (rw (parse_response, e, b, x) refl)
                | inr (j, x) ↦ inr (j, rw (parse_response, e, b, x) refl)
              ]
            ]
      ]

  requested-calls : (m : PlanModel J) → (requested p m).0 ≡ formatted ∷ []
  unfolding requested
  requested-calls m = elim (Option-cases m.formatted) [
    | inl e ↦ rw (e) refl
    | inr (r, e) ↦ elim (parse_response-cases r) [
      | inl x ↦ rw (requested, e, x, after_response) refl
      | inr (j, x) ↦ rw (requested, e, x, after_response) refl
    ]
  ]

  -- Whatever the model answers, one request is made for a plan, and neither of the two that the code has
  -- for the case that nothing was parsed.
  pub generate_search_plan-calls :
      (n : Doubles W) (w : Words) (to_absolute : TimeFilter → Option (Text × Text))
      (m : PlanModel J)
      → (generate_search_plan p n w to_absolute m).0 ≡ formatted ∷ []
  unfolding generate_search_plan
  generate_search_plan-calls n w to_absolute m = requested-calls m
