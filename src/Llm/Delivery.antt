-- ===== src/Llm/Delivery.antt =====
-- llm/index.ts over llm/providers/openai-responses.ts: the answer reaches the caller whole.
use bubblog_ai.Prelude.{
  ℕ, zero, suc, ◌+◌, ◌<◌, ◌≡◌, ◌∙◌, Option, List, [], ◌∷◌, ◌++◌, map, All, All-take, concat, length,
  drop, take, ltb, Bool, true, false, if◌then◌else◌,
}
use bubblog_ai.Prelude.Text.{Text}
use bubblog_ai.Prelude.Json.Laws.{IsUnits}
use bubblog_ai.Llm.{generate}
use bubblog_ai.Llm.Answers.{output_text-frames}
use bubblog_ai.Llm.OpenAi.{
  open_sink, ResponsesEvent, completed, on_events, CreateResponse, final_text, write_created,
  pieces_from, chunk_size,
}
use bubblog_ai.Llm.OpenAi.Framing.{at_end}
use bubblog_ai.Llm.OpenAi.Delivery.{
  event_answers, IsContent, on_events-completed, write_created-out,
}
use bubblog_ai.Llm.OpenAi.Pieces.{concat-pieces}

drop-IsUnits : (n : ℕ) (t : Text) → IsUnits t → IsUnits (drop n t)
drop-IsUnits zero t h = h
drop-IsUnits (suc n) [] h = h
drop-IsUnits (suc n) (c ∷ t) (p, h) = drop-IsUnits n t h

pub pieces_from-IsUnits : (fuel i : ℕ) (t : Text) → IsUnits t → All IsUnits (pieces_from fuel i t)
unfolding pieces_from
pieces_from-IsUnits zero i t h = tt
pieces_from-IsUnits (suc fuel) i t h =
    All-if (ltb i (length t)) (take chunk_size (drop i t) ∷ pieces_from fuel (i + chunk_size) t) (
      All-take (λ c. c < 65536) chunk_size (drop i t) (drop-IsUnits i t h),
      pieces_from-IsUnits fuel (i + chunk_size) t h,
    )
  where
    All-if : (b : Bool) (us : List Text) → All IsUnits us → All IsUnits (if b then us else [])
    All-if true us a = a
    All-if false us a = tt

-- The stream writes of the provider are the chunks of the wrapper: for content events and then
-- `response.completed`, the wrapper's `outputText` is the events' texts joined.
pub output_text-streamed :
    (document : Text → Option Text) (es : List ResponsesEvent)
    → All IsContent es
    → All IsUnits (concat (map event_answers es))
    → (generate document (on_events open_sink (es ++ completed ∷ [])).out).output_text
      ≡ concat (concat (map event_answers es))
output_text-streamed document es h u =
    output_text-frames document _ (concat (map event_answers es)) at_end u
      (on_events-completed es h)

-- For a response without streaming, cut into pieces, it is the whole final text.
pub output_text-created :
    (document : Text → Option Text) (r : CreateResponse)
    → IsUnits (final_text r)
    → (generate document (write_created open_sink r).out).output_text ≡ final_text r
output_text-created document r u =
    output_text-frames document _ (pieces_from (length (final_text r)) 0 (final_text r)) at_end
      (pieces_from-IsUnits (length (final_text r)) 0 (final_text r) u) (write_created-out r)
    ∙ concat-pieces (final_text r)
