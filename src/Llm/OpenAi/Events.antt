-- ===== src/Llm/OpenAi/Events.antt =====
-- llm/providers/openai-responses.ts: every path of the provider keeps its stream well framed.
use bubblog_ai.Prelude.{Bool, true, false, Option, none, some, List, [], ◌∷◌, if◌then◌else◌}
use bubblog_ai.Prelude.{length}
use bubblog_ai.Llm.OpenAi.Framing.{
  IsFramed, write_answer-IsFramed, write_end-IsFramed, write_error-IsFramed, open_sink-IsFramed,
}
use bubblog_ai.Prelude.Text.{Text}
use bubblog_ai.Llm.OpenAi.{
  Sink, write_answer, ResponsesEvent, plain_delta, output_text_delta, tool_call_delta, tool_call,
  message, completed, error, destroy, write_nonempty, write_present, on_event, on_events,
  CreateResponse, final_text, pieces_from, write_answers, write_created, ChatChunk, write_calls,
  on_chunk, Closing, exhausted, threw, on_chat, Api, chat_fallback, create_fallback, stream_first,
  generate_open_ai_stream, is_gpt5_family, or_empty,
}

write_nonempty-IsFramed : {s : Sink} (t : Text) → IsFramed s → IsFramed (write_nonempty s t)
unfolding write_nonempty
write_nonempty-IsFramed [] f = f
write_nonempty-IsFramed (c ∷ t) f = write_answer-IsFramed (c ∷ t) f

write_present-IsFramed : {s : Sink} (t : Option Text) → IsFramed s → IsFramed (write_present s t)
unfolding write_present
write_present-IsFramed none f = f
write_present-IsFramed (some t) f = write_answer-IsFramed t f

IsFramed-if : {s u : Sink} (b : Bool) → IsFramed s → IsFramed u → IsFramed (if b then s else u)
IsFramed-if true f g = f
IsFramed-if false f g = g

on_event-IsFramed : {s : Sink} (e : ResponsesEvent) → IsFramed s → IsFramed (on_event s e)
unfolding on_event
on_event-IsFramed (plain_delta t) f = write_nonempty-IsFramed t f
on_event-IsFramed (output_text_delta d) f = write_nonempty-IsFramed _ f
on_event-IsFramed (tool_call_delta e) f = write_nonempty-IsFramed _ f
on_event-IsFramed (tool_call e) f = write_nonempty-IsFramed _ f
on_event-IsFramed (message none) f = f
on_event-IsFramed (message (some m)) f = IsFramed-if _ (write_present-IsFramed m.delta f) (
    IsFramed-if _ (write_present-IsFramed m.text f)
      (IsFramed-if _ (write_present-IsFramed m.delta f) f))
on_event-IsFramed completed f = write_end-IsFramed f
on_event-IsFramed error f = write_error-IsFramed f
on_event-IsFramed destroy f = record {
  answers = f.answers;
  tail = f.tail;
  carried = f.carried;
  ending = f.ending;
}

pub on_events-IsFramed :
    {s : Sink} (es : List ResponsesEvent) → IsFramed s → IsFramed (on_events s es)
unfolding on_events
on_events-IsFramed [] f = f
on_events-IsFramed {s} (e ∷ es) f = on_events-IsFramed {s = on_event s e} es (on_event-IsFramed e f)

write_answers-IsFramed : {s : Sink} (ts : List Text) → IsFramed s → IsFramed (write_answers s ts)
unfolding write_answers
write_answers-IsFramed [] f = f
write_answers-IsFramed {s} (t ∷ ts) f =
    write_answers-IsFramed {s = write_answer s t} ts (write_answer-IsFramed t f)

write_created-IsFramed : {s : Sink} (r : CreateResponse) → IsFramed s → IsFramed (write_created s r)
unfolding write_created
write_created-IsFramed r f =
    write_end-IsFramed
      (write_answers-IsFramed (pieces_from (length (final_text r)) 0 (final_text r)) f)

write_calls-IsFramed :
    {s : Sink} (cs : List (Option Text)) → IsFramed s → IsFramed (write_calls s cs)
unfolding write_calls
write_calls-IsFramed [] f = f
write_calls-IsFramed {s} (c ∷ cs) f =
    write_calls-IsFramed {s = write_nonempty s (or_empty c)} cs
      (write_nonempty-IsFramed (or_empty c) f)

on_chunk-IsFramed : {s : Sink} (c : ChatChunk) → IsFramed s → IsFramed (on_chunk s c)
unfolding on_chunk
on_chunk-IsFramed {s} c f = go c.tool_calls
  where
    go :
        (calls : Option (List (Option Text)))
        → IsFramed (elim calls [
          | some cs ↦ write_calls s cs
          | none ↦ write_nonempty s (or_empty c.content)
        ])
    go none = write_nonempty-IsFramed _ f
    go (some cs) = write_calls-IsFramed cs f

on_chat-IsFramed :
    {s : Sink} (cs : List ChatChunk) (closing : Closing)
    → IsFramed s
    → IsFramed (on_chat s cs closing)
unfolding on_chat
on_chat-IsFramed [] exhausted f = f
on_chat-IsFramed [] threw f = write_error-IsFramed f
on_chat-IsFramed {s} (c ∷ cs) closing f =
    let g = on_chunk-IsFramed c f in
    IsFramed-if _ (on_chat-IsFramed {s = on_chunk s c} cs closing g) (write_end-IsFramed g)

chat_fallback-IsFramed : (r : Option (List ChatChunk × Closing)) → IsFramed (chat_fallback r)
unfolding chat_fallback
chat_fallback-IsFramed none = write_error-IsFramed open_sink-IsFramed
chat_fallback-IsFramed (some (cs, closing)) = on_chat-IsFramed cs closing open_sink-IsFramed

create_fallback-IsFramed :
    (api : Api) (r : Option CreateResponse) → IsFramed (create_fallback api r)
unfolding create_fallback
create_fallback-IsFramed api none = chat_fallback-IsFramed api.chat_create
create_fallback-IsFramed api (some r) = write_created-IsFramed r open_sink-IsFramed

stream_first-IsFramed :
    (api : Api) (r : Option (List ResponsesEvent)) → IsFramed (stream_first api r)
unfolding stream_first
stream_first-IsFramed api none = create_fallback-IsFramed api api.responses_create
stream_first-IsFramed api (some es) = on_events-IsFramed es open_sink-IsFramed

-- Whatever the API answers or throws, on every fallback path, what the provider writes is a sequence
-- of answer events with at most one end or error event, which stands last; the stream is ended
-- exactly if there is one.
pub generate_open_ai_stream-IsFramed :
    (model : Text) (api : Api) → IsFramed (generate_open_ai_stream model api)
unfolding generate_open_ai_stream
generate_open_ai_stream-IsFramed model api =
    IsFramed-if (is_gpt5_family model) (stream_first-IsFramed api api.responses_stream)
      (chat_fallback-IsFramed api.chat_create)
