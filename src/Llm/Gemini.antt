-- ===== src/Llm/Gemini.antt =====
-- llm/providers/gemini.ts: the answer of Gemini, fetched whole and written in pieces.
use bubblog_ai.Prelude.{
  Bool, true, false, Option, none, some, List, [], ◌∷◌, ◌++◌, map, length, if◌then◌else◌,
}
use bubblog_ai.Prelude.Options.{◌>>=◌}
use bubblog_ai.Prelude.Text.{Text, codes, is_empty}
use bubblog_ai.Prelude.Json.{quote}
use bubblog_ai.Prelude.Split.{join_blocks}
use bubblog_ai.Llm.OpenAi.{event_line, data_line, pieces_from, or_empty}

-- A JavaScript value: a string, or another value that is true or false as a condition.
pub data Value : Type 0 where
  string : Text → Value
  other : Bool → Value

-- A field `text` of what the SDK returns: a false value, a value that is no function, or a function, which
-- throws or returns.
pub data Accessor : Type 0 where
  missing : Accessor
  no_function : Accessor
  function : Option Value → Accessor

-- `result.response.text` and `result.text`
pub record GeminiResult : Type 0 where
  pub response_text : Accessor
  pub text : Accessor

abbrev truthy : Value → Bool
truthy (string []) = false
truthy (string (_ ∷ _)) = true
truthy (other b) = b

-- `f && f()`, which throws if `f` is no function.
abbrev called : Accessor → Option Value
called missing = some (other false)
called no_function = none
called (function o) = o

-- `v || w`, where `w` may throw
abbrev or_else : Value → Option Value → Option Value
or_else v w = if truthy v then some v else w

unfoldable pub output_text : GeminiResult → Option Value
output_text r = do
  v ← called r.response_text
  or_else v (called r.text >>= (λ w. or_else w (some (string []))))

-- `typeof outputText === 'string' ? outputText : ''`
abbrev pub string_or_empty : Value → Text
string_or_empty (string t) = t
string_or_empty (other _) = []

unfoldable pub gemini_text : Option GeminiResult → Option Text
unfolding output_text
gemini_text result = do r ← result; v ← output_text r; some (string_or_empty v)

unfoldable pub build_prompt_from_messages : List (Text × Text) → Text
build_prompt_from_messages ms =
    join_blocks (map (λ m. codes "[" ++ m.0 ++ codes "]" ++ (10 ∷ []) ++ m.1) ms)

abbrev pub error_writes : Text → List Text
error_writes message =
    event_line (codes "error")
    ∷ data_line (codes "{\"message\":" ++ quote message ++ codes "}")
    ∷ []

abbrev pub end_writes : List Text
end_writes = event_line (codes "end") ∷ data_line (codes "[DONE]") ∷ []

abbrev pub answer_writes : List Text → List Text
answer_writes [] = []
answer_writes (t ∷ ts) = event_line (codes "answer") ∷ data_line (quote t) ∷ answer_writes ts

-- The loop over the pieces of the text, or the handler of what is thrown; then the stream ends.
unfoldable pub written : Option Text → List Text
unfolding pieces_from
written none = error_writes (codes "Internal server error")
written (some t) = answer_writes (pieces_from (length t) 0 t) ++ end_writes

-- The writes to the stream, which ends behind them. `generate_content` is the call of the SDK, `none` if it
-- throws.
unfoldable pub generate_gemini_stream :
    Option Text → (Text → Option GeminiResult) → List (Text × Text) → List Text
unfolding gemini_text build_prompt_from_messages written
generate_gemini_stream api_key generate_content messages =
    if is_empty (or_empty api_key)
    then error_writes (codes "Gemini API key not configured")
    else written (gemini_text (generate_content (build_prompt_from_messages messages)))
