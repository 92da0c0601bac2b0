-- ===== src/Llm/OpenAi.antt =====
-- llm/providers/openai-responses.ts: the events that the provider writes to its stream.
pub mod Pieces
pub mod Framing
pub mod Events
pub mod Delivery
use bubblog_ai.Prelude.{
  ℕ, zero, suc, ◌+◌, Bool, true, false, ◌&&◌, ◌||◌, not, Option, none, some, List, [], ◌∷◌, ◌++◌,
  map, ltb, leb, ◌==◌, length, take, drop, concat, if◌then◌else◌,
}
use bubblog_ai.Prelude.Text.{Text, codes, text_eq, starts_with, ascii_lower, is_empty}
use bubblog_ai.Prelude.Json.{quote}

-- The stream with the variable `closed`: what was written, whether it was ended here, and whether
-- its reader destroyed it.
pub record Sink : Type 0 where
  pub closed : Bool
  pub ended : Bool
  pub destroyed : Bool
  pub out : List Text

abbrev pub open_sink : Sink
open_sink = record { closed = false; ended = false; destroyed = false; out = [] }

abbrev pub is_writable : Sink → Bool
is_writable s = not s.closed && not s.ended && not s.destroyed

unfoldable pub safe_write : Sink → Text → Sink
safe_write s chunk = if is_writable s then record s { out = s.out ++ (chunk ∷ []) } else s

unfoldable pub safe_end : Sink → Sink
safe_end s =
    if is_writable s then record s { closed = true; ended = true } else record s { closed = true }

abbrev pub event_line : Text → Text
event_line name = codes "event: " ++ (name ++ (10 ∷ []))

abbrev pub data_line : Text → Text
data_line payload = codes "data: " ++ (payload ++ (10 ∷ 10 ∷ []))

unfoldable pub write_answer : Sink → Text → Sink
write_answer s t = safe_write (safe_write s (event_line (codes "answer"))) (data_line (quote t))

unfoldable pub write_end : Sink → Sink
write_end s =
    safe_end (safe_write (safe_write s (event_line (codes "end"))) (data_line (codes "[DONE]")))

unfoldable pub write_error : Sink → Sink
write_error s = safe_end (
    safe_write (safe_write s (event_line (codes "error")))
      (data_line (codes "{\"message\":\"Internal server error\"}")))

-- `a || b` on texts that may be undefined
abbrev pub or_text : Option Text → Text → Text
or_text none d = d
or_text (some t) d = if is_empty t then d else t

abbrev pub or_empty : Option Text → Text
or_empty none = []
or_empty (some t) = t

pub record ToolEvent : Type 0 where
  pub arguments_delta : Option Text
  pub arguments : Option Text
  pub delta : Option Text

pub record Message : Type 0 where
  pub mtype : Text
  pub delta : Option Text
  pub text : Option Text

-- What the SDK's event stream delivers. A message is `none` where it is falsy or is a string that is
-- no JSON; `destroyed` is the reader's doing.
pub data ResponsesEvent : Type 0 where
  plain_delta : Text → ResponsesEvent
  output_text_delta : Option Text → ResponsesEvent
  tool_call_delta : ToolEvent → ResponsesEvent
  tool_call : ToolEvent → ResponsesEvent
  message : Option Message → ResponsesEvent
  completed : ResponsesEvent
  error : ResponsesEvent
  destroy : ResponsesEvent

-- The guard `if (text)` before an answer event.
write_nonempty : Sink → Text → Sink
write_nonempty s t = if is_empty t then s else write_answer s t

write_present : Sink → Option Text → Sink
write_present s none = s
write_present s (some t) = write_answer s t

abbrev pub is_some_text : Option Text → Bool
is_some_text none = false
is_some_text (some t) = true

on_message : Sink → Message → Sink
on_message s m =
    if text_eq m.mtype (codes "response.output_text.delta") && not (is_empty (or_empty m.delta))
    then write_present s m.delta
    else if text_eq m.mtype (codes "response.output_text") && is_some_text m.text
    then write_present s m.text
    else if text_eq m.mtype (codes "response.delta") && is_some_text m.delta
    then write_present s m.delta
    else s

unfoldable pub on_event : Sink → ResponsesEvent → Sink
unfolding write_nonempty write_present on_message
on_event s (plain_delta t) = write_nonempty s t
on_event s (output_text_delta d) = write_nonempty s (or_empty d)
on_event s (tool_call_delta e) =
    write_nonempty s (or_text e.arguments_delta (or_text e.arguments (or_empty e.delta)))
on_event s (tool_call e) = write_nonempty s (or_text e.arguments (or_empty e.arguments_delta))
on_event s (message none) = s
on_event s (message (some m)) = on_message s m
on_event s completed = write_end s
on_event s error = write_error s
on_event s destroy = record s { destroyed = true }

unfoldable pub on_events : Sink → List ResponsesEvent → Sink
on_events s [] = s
on_events s (e ∷ es) = on_events (on_event s e) es

-- One part of an output of the call without streaming.
pub record Content : Type 0 where
  pub ctype : Text
  pub text : Option Text

-- `output_text` where it is a string, and `output` where it is an array.
pub record CreateResponse : Type 0 where
  pub output_text : Option Text
  pub output : Option (List (List Content))

part_texts : List Content → Text
part_texts [] = []
part_texts (c ∷ cs) =
    let rest = part_texts cs in
    if text_eq c.ctype (codes "output_text") then or_empty c.text ++ rest else rest

fallback_text : Option (List (List Content)) → Text
fallback_text none = []
fallback_text (some outputs) = part_texts (concat outputs)

unfoldable pub final_text : CreateResponse → Text
unfolding part_texts fallback_text
final_text r = or_text r.output_text (fallback_text r.output)

abbrev pub chunk_size : ℕ
chunk_size = 400

-- for (let i = 0; i < finalText.length; i += chunkSize), with fuel
unfoldable pub pieces_from : ℕ → ℕ → Text → List Text
pieces_from zero i t = []
pieces_from (suc fuel) i t =
    let rest = pieces_from fuel (i + chunk_size) t in
    if ltb i (length t) then take chunk_size (drop i t) ∷ rest else []

write_answers : Sink → List Text → Sink
write_answers s [] = s
write_answers s (t ∷ ts) = write_answers (write_answer s t) ts

unfoldable pub write_created : Sink → CreateResponse → Sink
unfolding write_answers
write_created s r = let t = final_text r in write_end (write_answers s (pieces_from (length t) 0 t))

-- `chunk.choices[0]`, each field `none` where it is missing. An empty list of calls is truthy.
pub record ChatChunk : Type 0 where
  pub content : Option Text
  pub tool_calls : Option (List (Option Text))
  pub finish_reason : Option Text

write_calls : Sink → List (Option Text) → Sink
write_calls s [] = s
write_calls s (call ∷ calls) = write_calls (write_nonempty s (or_empty call)) calls

on_chunk : Sink → ChatChunk → Sink
on_chunk s c = elim c.tool_calls [
  | some calls ↦ write_calls s calls
  | none ↦ write_nonempty s (or_empty c.content)
]

-- How the iteration over the chat stream goes on after its last chunk.
pub data Closing : Type 0 where
  exhausted threw : Closing

-- `for await (const chunk of chatStream)`, which breaks at a finish reason, inside its `try`.
unfoldable pub on_chat : Sink → List ChatChunk → Closing → Sink
unfolding on_chunk write_calls write_nonempty
on_chat s [] exhausted = s
on_chat s [] threw = write_error s
on_chat s (c ∷ cs) closing =
    let s' = on_chunk s c in
    let rest = on_chat s' cs closing in
    if is_empty (or_empty c.finish_reason) then rest else write_end s'

abbrev is_word : ℕ → Bool
is_word c = (leb 48 c && leb c 57) || (leb 65 c && leb c 90) || (leb 97 c && leb c 122) || (c == 95)

gpt5_from : Bool → Text → Bool
gpt5_from after_word [] = false
gpt5_from after_word (c ∷ s) =
    (not after_word && starts_with (codes "gpt-5") (ascii_lower (c ∷ s))) || gpt5_from (is_word c) s

-- /(^|\b)gpt-5/i.test(model)
unfoldable pub is_gpt5_family : Text → Bool
unfolding gpt5_from ascii_lower
is_gpt5_family model = gpt5_from false model

-- The API's answers to the calls of one request; `none` where a call throws.
pub record Api : Type 0 where
  pub responses_stream : Option (List ResponsesEvent)
  pub responses_create : Option CreateResponse
  pub chat_create : Option (List ChatChunk × Closing)

unfoldable pub chat_fallback : Option (List ChatChunk × Closing) → Sink
chat_fallback none = write_error open_sink
chat_fallback (some (chunks, closing)) = on_chat open_sink chunks closing

create_fallback : Api → Option CreateResponse → Sink
create_fallback api none = chat_fallback api.chat_create
create_fallback api (some r) = write_created open_sink r

stream_first : Api → Option (List ResponsesEvent) → Sink
stream_first api none = create_fallback api api.responses_create
stream_first api (some events) = on_events open_sink events

-- All that `generateOpenAIStream` and its callbacks write for a request to the model.
unfoldable pub generate_open_ai_stream : Text → Api → Sink
unfolding stream_first create_fallback
generate_open_ai_stream model api =
    if is_gpt5_family model
    then stream_first api api.responses_stream
    else chat_fallback api.chat_create
