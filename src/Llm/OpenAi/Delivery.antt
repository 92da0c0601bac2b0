-- ===== src/Llm/OpenAi/Delivery.antt =====
-- llm/providers/openai-responses.ts: which texts the answer events carry.
use bubblog_ai.Prelude.{
  ◌≡◌, refl, sym, ap, ◌∙◌, Bool, true, false, Option, none, some, List, [], ◌∷◌, ◌++◌, map,
  append_assoc, append-nil, concat, if◌then◌else◌, not, ◌&&◌, All, length,
}
use bubblog_ai.Prelude.Text.{Text, codes, text_eq, is_empty}
use bubblog_ai.Prelude.Json.{quote}
use bubblog_ai.Llm.OpenAi.{
  Sink, open_sink, is_writable, event_line, data_line, write_answer, write_end, Message,
  ResponsesEvent, plain_delta, output_text_delta, tool_call_delta, tool_call, message, completed,
  error, destroy, write_nonempty, write_present, on_event, on_events, or_text, or_empty,
  is_some_text, CreateResponse, final_text, pieces_from, write_answers, write_created,
}
use bubblog_ai.Llm.OpenAi.Framing.{
  at_end, tail_text, frames, concat-append, frames-append, write_two, answer_lines,
  safe_end-writable,
}

-- A sink that can still be written to, and has carried these answers.
pub record Carries (s : Sink) (ts : List Text) : Type 0 where
  pub writable : is_writable s ≡ true
  pub carried : concat s.out ≡ frames ts

write_answer-writable :
    (s : Sink) (t : Text)
    → is_writable s ≡ true
    → write_answer s t
      ≡ record s { out = s.out ++ (event_line (codes "answer") ∷ data_line (quote t) ∷ []) }
unfolding write_answer
write_answer-writable s t w = write_two s _ _ ∙ rw w

write_answer-Carries :
    {s : Sink} {ts : List Text} (t : Text)
    → Carries s ts
    → Carries (write_answer s t) (ts ++ t ∷ [])
write_answer-Carries {s} {ts} t c = rw (write_answer-writable s t c.writable) (record {
  writable = c.writable;
  carried =
      concat-append s.out _
      ∙ ap (λ x. x ++ concat (event_line (codes "answer") ∷ data_line (quote t) ∷ [])) c.carried
      ∙ ap (λ x. frames ts ++ x) (answer_lines t)
      ∙ sym (frames-append ts t);
})

write_end-writable :
    (s : Sink)
    → is_writable s ≡ true
    → write_end s ≡ record s {
      closed = true;
      ended = true;
      out = s.out ++ (event_line (codes "end") ∷ data_line (codes "[DONE]") ∷ []);
    }
unfolding write_end
write_end-writable s w =
    rw (write_two s (event_line (codes "end")) (data_line (codes "[DONE]")))
      (rw w (safe_end-writable _ w))

write_end-Carries :
    {s : Sink} {ts : List Text}
    → Carries s ts
    → concat (write_end s).out ≡ frames ts ++ tail_text at_end
write_end-Carries {s} {ts} c = rw (write_end-writable s c.writable) (
    concat-append s.out (event_line (codes "end") ∷ data_line (codes "[DONE]") ∷ [])
    ∙ ap (λ x. x ++ tail_text at_end) c.carried)

abbrev pub nonempty : Text → List Text
nonempty t = if is_empty t then [] else t ∷ []

abbrev pub present : Option Text → List Text
present none = []
present (some t) = t ∷ []

write_nonempty-Carries :
    {s : Sink} {ts : List Text} (t : Text)
    → Carries s ts
    → Carries (write_nonempty s t) (ts ++ nonempty t)
unfolding write_nonempty
write_nonempty-Carries {ts} [] c = rw (append-nil ts) c
write_nonempty-Carries (x ∷ t) c = write_answer-Carries (x ∷ t) c

write_present-Carries :
    {s : Sink} {ts : List Text} (t : Option Text)
    → Carries s ts
    → Carries (write_present s t) (ts ++ present t)
unfolding write_present
write_present-Carries {ts} none c = rw (append-nil ts) c
write_present-Carries (some t) c = write_answer-Carries t c

-- The answer texts of one event of the SDK's stream.
abbrev pub message_answers : Message → List Text
message_answers m =
    if text_eq m.mtype (codes "response.output_text.delta") && not (is_empty (or_empty m.delta))
    then present m.delta
    else if text_eq m.mtype (codes "response.output_text") && is_some_text m.text
    then present m.text
    else if text_eq m.mtype (codes "response.delta") && is_some_text m.delta
    then present m.delta
    else []

abbrev pub event_answers : ResponsesEvent → List Text
event_answers (plain_delta t) = nonempty t
event_answers (output_text_delta d) = nonempty (or_empty d)
event_answers (tool_call_delta e) =
    nonempty (or_text e.arguments_delta (or_text e.arguments (or_empty e.delta)))
event_answers (tool_call e) = nonempty (or_text e.arguments (or_empty e.arguments_delta))
event_answers (message none) = []
event_answers (message (some m)) = message_answers m
event_answers _ = []

-- An event that neither closes the stream nor comes from its reader.
abbrev pub IsContent : ResponsesEvent → Type 0
IsContent completed = ⊥
IsContent error = ⊥
IsContent destroy = ⊥
IsContent _ = Unit

-- The three branches on a message.
Carries-branches :
    {s a b c : Sink} (ts va vb vc : List Text) (p q r : Bool)
    → Carries a (ts ++ va)
    → Carries b (ts ++ vb)
    → Carries c (ts ++ vc)
    → Carries s ts
    → Carries
        (if p then a else if q then b else if r then c else s)
        (ts ++ (if p then va else if q then vb else if r then vc else []))
Carries-branches ts va vb vc true q r ca cb cc' cs = ca
Carries-branches ts va vb vc false true r ca cb cc' cs = cb
Carries-branches ts va vb vc false false true ca cb cc' cs = cc'
Carries-branches ts va vb vc false false false ca cb cc' cs = rw (append-nil ts) cs

on_event-Carries :
    {s : Sink} {ts : List Text} (e : ResponsesEvent)
    → IsContent e
    → Carries s ts
    → Carries (on_event s e) (ts ++ event_answers e)
unfolding on_event
on_event-Carries (plain_delta t) h c = write_nonempty-Carries t c
on_event-Carries (output_text_delta d) h c = write_nonempty-Carries (or_empty d) c
on_event-Carries (tool_call_delta e) h c =
    write_nonempty-Carries (or_text e.arguments_delta (or_text e.arguments (or_empty e.delta))) c
on_event-Carries (tool_call e) h c =
    write_nonempty-Carries (or_text e.arguments (or_empty e.arguments_delta)) c
on_event-Carries {ts} (message none) h c = rw (append-nil ts) c
on_event-Carries {ts} (message (some m)) h c =
    Carries-branches ts (present m.delta) (present m.text) (present m.delta)
      (text_eq m.mtype (codes "response.output_text.delta") && not (is_empty (or_empty m.delta)))
      (text_eq m.mtype (codes "response.output_text") && is_some_text m.text)
      (text_eq m.mtype (codes "response.delta") && is_some_text m.delta)
      (write_present-Carries m.delta c) (write_present-Carries m.text c)
      (write_present-Carries m.delta c) c
on_event-Carries completed h c = absurd h
on_event-Carries error h c = absurd h
on_event-Carries destroy h c = absurd h

on_events-Carries :
    {s : Sink} {ts : List Text} (es : List ResponsesEvent)
    → All IsContent es
    → Carries s ts
    → Carries (on_events s es) (ts ++ concat (map event_answers es))
unfolding on_events
on_events-Carries {ts} [] h c = rw (append-nil ts) c
on_events-Carries {s} {ts} (e ∷ es) (p, h) c =
    rw (← append_assoc ts (event_answers e) (concat (map event_answers es))) (
      on_events-Carries {s = on_event s e} {ts = ts ++ event_answers e} es h
        (on_event-Carries e p c))

write_answers-Carries :
    {s : Sink} {ts : List Text} (us : List Text)
    → Carries s ts
    → Carries (write_answers s us) (ts ++ us)
unfolding write_answers
write_answers-Carries {ts} [] c = rw (append-nil ts) c
write_answers-Carries {s} {ts} (u ∷ us) c =
    rw (← append_assoc ts (u ∷ []) us) (
      write_answers-Carries {s = write_answer s u} {ts = ts ++ u ∷ []} us
        (write_answer-Carries u c))

open_sink-Carries : Carries open_sink []
open_sink-Carries = record { writable = refl; carried = refl }

on_events-append :
    (s : Sink) (es ds : List ResponsesEvent)
    → on_events s (es ++ ds) ≡ on_events (on_events s es) ds
unfolding on_events
on_events-append s [] ds = refl
on_events-append s (e ∷ es) ds = on_events-append (on_event s e) es ds

-- Content events and then completion: their texts as answer events, in order, and the end event.
pub on_events-completed :
    (es : List ResponsesEvent)
    → All IsContent es
    → concat (on_events open_sink (es ++ completed ∷ [])).out
      ≡ frames (concat (map event_answers es)) ++ tail_text at_end
on_events-completed es h =
    ap (λ (u : Sink). concat u.out) (on_events-append open_sink es (completed ∷ []))
    ∙ (unfold on_events on_event in write_end-Carries (on_events-Carries es h open_sink-Carries))

-- The unstreamed answer: its pieces as answer events, in order, and the end event.
pub write_created-out :
    (r : CreateResponse)
    → concat (write_created open_sink r).out
      ≡ frames (pieces_from (length (final_text r)) 0 (final_text r)) ++ tail_text at_end
unfolding write_created
write_created-out r =
    write_end-Carries (
      write_answers-Carries (pieces_from (length (final_text r)) 0 (final_text r))
        open_sink-Carries)
