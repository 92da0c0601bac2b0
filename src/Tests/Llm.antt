-- ===== src/Tests/Llm.antt =====
-- Tests of `Sse` and `Llm`.
use bubblog_ai.Llm.Gemini.{
  missing, no_function, function, string, GeminiResult, gemini_text, error_writes,
  generate_gemini_stream,
}
use bubblog_ai.Llm.Providers.{provider_writes, output_text-gemini}
use bubblog_ai.Prelude.{◌≡◌, refl, Option, none, some, List, [], ◌∷◌, ◌++◌, map, concat, arith}
use bubblog_ai.Prelude.Text.{Text, codes, trim}
use bubblog_ai.Prelude.Split.{split_blocks, split_lines}
use bubblog_ai.Prelude.Json.{quote, parse_quoted}
use bubblog_ai.Sse.{extract_answer_text, decode_data}
use bubblog_ai.Sse.Frames.{answer_frame}
use bubblog_ai.Sse.Answers.{extract_answer_text-frames}
use bubblog_ai.Llm.{generate, generate_from}
use bubblog_ai.Llm.Chunks.{buffers, generate_from-cut}
use bubblog_ai.Llm.Delivery.{output_text-streamed}
use bubblog_ai.Llm.OpenAi.{
  ResponsesEvent, plain_delta, output_text_delta, completed, error, open_sink, on_events, Api,
  generate_open_ai_stream,
}
use bubblog_ai.Llm.OpenAi.Framing.{IsFramed}
use bubblog_ai.Llm.OpenAi.Delivery.{event_answers}
use bubblog_ai.Llm.OpenAi.Events.{generate_open_ai_stream-IsFramed}

-- Every text that is no string in quotes is refused.
abbrev no_document : Text → Option Text
no_document _ = none

quote_test : quote (10 ∷ 34 ∷ 97 ∷ 1 ∷ []) ≡ codes "\"\\n\\\"a\\u0001\""
unfolding quote
quote_test = refl

extract_test :
    extract_answer_text no_document (answer_frame (codes "hi") ++ codes "event: end")
    ≡ codes "hi" ∷ []
unfolding extract_answer_text quote split_blocks split_lines trim decode_data parse_quoted
extract_test = refl

abbrev halves : List Text
halves = codes "event: answer\ndata: \"h" ∷ codes "i\"\n\n" ∷ []

split_in_the_middle : (generate no_document halves).output_text ≡ codes "hi"
unfolding generate split_blocks split_lines trim decode_data parse_quoted
split_in_the_middle = refl

extract_answer_text-frames_example :
    extract_answer_text no_document (concat (map answer_frame (codes "a" ∷ (10 ∷ []) ∷ [])))
    ≡ codes "a" ∷ (10 ∷ []) ∷ []
extract_answer_text-frames_example =
    extract_answer_text-frames no_document (codes "a" ∷ (10 ∷ []) ∷ []) (omega arith)

generate_from-cut_example :
    generate_from no_document (λ bytes. bytes) (buffers (λ t. t) halves)
    ≡ generate_from no_document (λ bytes. bytes) (buffers (λ t. t) (concat halves ∷ []))
generate_from-cut_example =
    generate_from-cut no_document (λ t. t) (λ bytes. bytes) halves (concat halves ∷ [])
      (refl, (refl, tt)) (refl, tt) refl

abbrev deltas : List ResponsesEvent
deltas =
    plain_delta (codes "he") ∷ output_text_delta none ∷ output_text_delta (some (codes "llo")) ∷ []

output_text-streamed_example :
    (generate no_document (on_events open_sink (deltas ++ completed ∷ [])).out).output_text
    ≡ concat (concat (map event_answers deltas))
output_text-streamed_example = output_text-streamed no_document deltas (omega arith) (omega arith)

abbrev failing_api : Api
failing_api = record {
  responses_stream = some (plain_delta (codes "x") ∷ error ∷ plain_delta (codes "y") ∷ []);
  responses_create = none;
  chat_create = none;
}

generate_open_ai_stream-IsFramed_example :
    IsFramed (generate_open_ai_stream (codes "gpt-5-mini") failing_api)
generate_open_ai_stream-IsFramed_example =
    generate_open_ai_stream-IsFramed (codes "gpt-5-mini") failing_api

-- The SDK gives the text as a field of the result, and no function.
abbrev by_field : GeminiResult
by_field = record { response_text = missing; text = no_function }

abbrev by_function : GeminiResult
by_function = record { response_text = function (some (string (codes "hi"))); text = missing }

output_text-gemini_example :
    (generate no_document (
      provider_writes
        (codes "gemini")
        []
        failing_api
        (generate_gemini_stream (some (codes "k")) (λ t. some by_function) []))).output_text
    ≡ codes "hi"
unfolding gemini_text
output_text-gemini_example =
    output_text-gemini no_document [] failing_api 107 [] (λ t. some by_function) []
      (unfold gemini_text in omega arith)

field_fails :
    generate_gemini_stream (some (codes "k")) (λ t. some by_field) []
    ≡ error_writes (codes "Internal server error")
unfolding generate_gemini_stream
field_fails = refl
