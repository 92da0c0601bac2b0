-- ===== src/Llm/Answers.antt =====
-- llm/index.ts behind a provider that writes answer events: the answer text that it gathers, and the
-- chunks that its reader sees.
use bubblog_ai.Prelude.{
  ◌≡◌, refl, sym, ap, ◌∙◌, ap₂, Option, some, List, [], ◌∷◌, ◌++◌, map, append_assoc, append-nil,
  All, concat,
}
use bubblog_ai.Prelude.Text.{Text, codes, trim}
use bubblog_ai.Prelude.Json.{quote}
use bubblog_ai.Prelude.Json.Laws.{IsUnits, quote-eq-inner}
use bubblog_ai.Prelude.Split.{split_blocks, split_lines, init, last, init-append}
use bubblog_ai.Sse.Frames.{
  answer_block, split_lines-answer_block, split_blocks-frames, trim-data, decode_data-quote,
}
use bubblog_ai.Llm.{
  ended, Fields, no_fields, read_event, read_data, read_lines, fields_answer, block_answer, on_end,
  on_chunks, generate,
}
use bubblog_ai.Llm.Chunks.{on_chunks-eq, answers, writes, start}
use bubblog_ai.Llm.OpenAi.Framing.{
  Tail, still_open, at_end, at_error, end_block, error_block, tail_text, frames,
}

answer_fields : (t : Text) → Fields
answer_fields t = record { evt = some (codes "answer"); data_line = some (trim (32 ∷ quote t)) }

read_lines-answer :
    (t : Text)
    → read_lines no_fields (codes "event: answer" ∷ (codes "data: " ++ quote t) ∷ [])
      ≡ answer_fields t
unfolding read_lines read_event read_data trim answer_fields
read_lines-answer t = refl

-- The blocks behind the answer events.
abbrev pub tail_blocks : Tail → List Text
tail_blocks still_open = []
tail_blocks at_end = end_block ∷ []
tail_blocks at_error = error_block ∷ []

split_blocks-tail : (t : Tail) → split_blocks (tail_text t) ≡ tail_blocks t ++ ([] ∷ [])
unfolding split_blocks
split_blocks-tail still_open = refl
split_blocks-tail at_end = refl
split_blocks-tail at_error = refl

-- The pieces of a text of answer events with their tail.
split_blocks-framed :
    (ts : List Text) (t : Tail)
    → (init (split_blocks (frames ts ++ tail_text t)) ≡ map answer_block ts ++ tail_blocks t)
      × (last (split_blocks (frames ts ++ tail_text t)) ≡ [])
split_blocks-framed ts t =
    let e : split_blocks (frames ts ++ tail_text t)
        ≡ (map answer_block ts ++ tail_blocks t) ++ ([] ∷ []) =
      split_blocks-frames ts (tail_text t)
      ∙ ap (λ xs. map answer_block ts ++ xs) (split_blocks-tail t)
      ∙ sym (append_assoc (map answer_block ts) (tail_blocks t) ([] ∷ [])) in
    let (p, q) = init-append (map answer_block ts ++ tail_blocks t) ([] ∷ []) [] [] refl in
    (ap init e ∙ p ∙ append-nil _, ap last e ∙ q)

module _ (document : Text → Option Text) where
  fields_answer-answer : (t : Text) → IsUnits t → fields_answer document (answer_fields t) ≡ t
  unfolding fields_answer answer_fields
  fields_answer-answer t h =
      rw (trim-data t) (rw (decode_data-quote document t h) (rw (quote-eq-inner t) refl))

  block_answer-answer : (t : Text) → IsUnits t → block_answer document (answer_block t) ≡ t
  unfolding block_answer
  block_answer-answer t h =
      ap (λ ls. fields_answer document (read_lines no_fields ls)) (split_lines-answer_block t)
      ∙ ap (fields_answer document) (read_lines-answer t)
      ∙ fields_answer-answer t h

  answers-answer_blocks :
      (ts : List Text) → All IsUnits ts → answers document (map answer_block ts) ≡ concat ts
  answers-answer_blocks [] h = refl
  answers-answer_blocks (t ∷ ts) (p, h) =
      ap₂ (λ x y. x ++ y) (block_answer-answer t p) (answers-answer_blocks ts h)

  answers-tail : (t : Tail) → answers document (tail_blocks t) ≡ []
  unfolding block_answer split_lines trim
  answers-tail still_open = refl
  answers-tail at_end = refl
  answers-tail at_error = refl

  answers-append :
      (xs ys : List Text) → answers document (xs ++ ys) ≡ answers document xs ++ answers document ys
  answers-append [] ys = refl
  answers-append (x ∷ xs) ys =
      rw (answers-append xs ys) (sym (append_assoc (block_answer document x) _ _))

  -- The state after a stream of answer events and its tail, cut in any way into chunks.
  on_chunks-framed :
      (chunks ts : List Text) (t : Tail)
      → All IsUnits ts
      → concat chunks ≡ frames ts ++ tail_text t
      → on_chunks document (start document) chunks ≡ record {
        buffer = [];
        output_text = concat ts;
        outer = writes document (map answer_block ts ++ tail_blocks t);
      }
  on_chunks-framed chunks ts t h e =
      let (p, q) = split_blocks-framed ts t in
      on_chunks-eq document chunks
      ∙ rw (e, p, q)
          (rw
            (
              answers-append (map answer_block ts) (tail_blocks t),
              answers-answer_blocks ts h,
              answers-tail t,
            )
            (rw append-nil refl))

  -- Behind a provider that writes answer events and its tail, the gathered `outputText` is the
  -- answer texts joined, however the provider's stream is cut into chunks.
  pub output_text-frames :
      (chunks ts : List Text) (t : Tail)
      → All IsUnits ts
      → concat chunks ≡ frames ts ++ tail_text t
      → (generate document chunks).output_text ≡ concat ts
  unfolding generate on_end
  output_text-frames chunks ts t h e = rw (on_chunks-framed chunks ts t h e) refl

  -- Its reader sees each answer event, and the end or error event, as one chunk.
  pub outer-frames :
      (chunks ts : List Text) (t : Tail)
      → All IsUnits ts
      → concat chunks ≡ frames ts ++ tail_text t
      → (generate document chunks).outer
        ≡ writes document (map answer_block ts ++ tail_blocks t) ++ (ended ∷ [])
  unfolding generate on_end
  outer-frames chunks ts t h e = rw (on_chunks-framed chunks ts t h e) refl
