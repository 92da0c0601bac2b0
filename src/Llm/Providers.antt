-- ===== src/Llm/Providers.antt =====
-- llm/index.ts: the choice of the provider, and what the wrapper gathers from Gemini.
use bubblog_ai.Prelude.{
  ℕ, ◌≡◌, refl, ap, ap₂, ◌∙◌, Option, none, some, List, [], ◌∷◌, ◌++◌, concat, length,
  if◌then◌else◌,
}
use bubblog_ai.Prelude.Text.{Text, codes, text_eq}
use bubblog_ai.Prelude.Json.{quote}
use bubblog_ai.Prelude.Json.Laws.{IsUnits}
use bubblog_ai.Llm.{Wrapper, generate}
use bubblog_ai.Llm.Answers.{output_text-frames}
use bubblog_ai.Llm.Delivery.{pieces_from-IsUnits}
use bubblog_ai.Llm.OpenAi.{
  Api, event_line, data_line, or_empty, pieces_from, generate_open_ai_stream,
}
use bubblog_ai.Llm.OpenAi.Framing.{at_end, at_error, tail_text, frames, concat-append, answer_lines}
use bubblog_ai.Llm.OpenAi.Pieces.{concat-pieces}
use bubblog_ai.Llm.Gemini.{
  GeminiResult, gemini_text, build_prompt_from_messages, error_writes, end_writes, answer_writes,
  written, generate_gemini_stream,
}

-- llm/model-registry.ts, `getDefaultChat`: its provider and its model.
abbrev pub default_chat : Text × Text
default_chat = (codes "openai", codes "gpt-5-mini")

-- `a || b` on texts.
abbrev pub text_or : Option Text → Text → Text
text_or none d = d
text_or (some []) d = d
text_or (some (c ∷ cs)) d = c ∷ cs

-- The provider and the model of a request, the default's where they are missing.
abbrev pub merged : Option Text → Option Text → Text × Text
merged provider model = (text_or provider default_chat.0, text_or model default_chat.1)

-- The writes of the stream of the provider; each of them ends.
unfoldable pub provider_writes : Text → Text → Api → List Text → List Text
unfolding generate_open_ai_stream
provider_writes provider model api gemini =
    if text_eq provider (codes "openai")
    then (generate_open_ai_stream model api).out
    else if text_eq provider (codes "gemini")
    then gemini
    else error_writes (codes "Unknown provider")

answer_writes-frames : (ts : List Text) → concat (answer_writes ts) ≡ frames ts
answer_writes-frames [] = refl
answer_writes-frames (t ∷ ts) =
    concat-append (event_line (codes "answer") ∷ data_line (quote t) ∷ []) (answer_writes ts)
    ∙ ap₂ (λ x y. x ++ y) (answer_lines t) (answer_writes-frames ts)

written-frames :
    (t : Text) → concat (written (some t)) ≡ frames (pieces_from (length t) 0 t) ++ tail_text at_end
unfolding written
written-frames t =
    concat-append (answer_writes (pieces_from (length t) 0 t)) end_writes
    ∙ ap (λ x. x ++ tail_text at_end) (answer_writes-frames (pieces_from (length t) 0 t))

module _ (document : Text → Option Text) where
  -- The whole of `generate`.
  unfoldable pub generate_for : Option Text → Option Text → Api → List Text → Wrapper
  unfolding provider_writes generate
  generate_for provider model api gemini =
      let m = merged provider model in generate document (provider_writes m.0 m.1 api gemini)

  output_text-written :
      (o : Option Text)
      → IsUnits (or_empty o)
      → (generate document (written o)).output_text ≡ or_empty o
  unfolding written quote
  output_text-written none u = output_text-frames document (written none) [] at_error tt refl
  output_text-written (some t) u =
      output_text-frames document (written (some t)) (pieces_from (length t) 0 t) at_end
        (pieces_from-IsUnits (length t) 0 t u) (written-frames t)
      ∙ concat-pieces t

  -- With an API key, the wrapper gathers the final text of what Gemini returns, whatever its length, and
  -- nothing where the call or the reading of its result throws, if the text is made of sixteen-bit units.
  pub output_text-gemini :
      (model : Text) (api : Api) (c : ℕ) (key : Text)
      (generate_content : Text → Option GeminiResult) (messages : List (Text × Text))
      → IsUnits (or_empty (gemini_text (generate_content (build_prompt_from_messages messages))))
      → (generate document (
          provider_writes
            (codes "gemini")
            model
            api
            (generate_gemini_stream (some (c ∷ key)) generate_content messages))).output_text
        ≡ or_empty (gemini_text (generate_content (build_prompt_from_messages messages)))
  unfolding provider_writes generate_gemini_stream
  output_text-gemini model api c key generate_content messages u =
      output_text-written (gemini_text (generate_content (build_prompt_from_messages messages))) u
