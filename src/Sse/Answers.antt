-- ===== src/Sse/Answers.antt =====
-- utils/sse.ts: `extractAnswerText` gives back the texts of the answer events.
use bubblog_ai.Prelude.{
  ◌≡◌, refl, ap, ◌∙◌, Option, some, List, [], ◌∷◌, ◌++◌, map, append-nil, All, concat, false,
  Bool-cases, inl, inr, sym,
}
use bubblog_ai.Prelude.Text.{Text, codes, is_empty, trim, trim_start, is_space}
use mathlib.Core.List.{reverse, reverse-cons, reverse-append}
use bubblog_ai.Prelude.Json.{quote}
use bubblog_ai.Prelude.Json.Laws.{IsUnits, quote-eq-inner}
use bubblog_ai.Prelude.Split.{split_blocks}
use bubblog_ai.Sse.{
  Fields, no_fields, read_line, read_lines, fields_texts, block_texts, blocks_texts,
  extract_answer_text,
}
use bubblog_ai.Sse.Frames.{
  answer_block, answer_frame, split_lines-answer_block, split_blocks-frames, trim-data,
  decode_data-quote,
}

answer_fields : (t : Text) → Fields
answer_fields t = record { event_name = some (codes "answer"); data_lines = (32 ∷ quote t) ∷ [] }

read_lines-answer :
    (t : Text)
    → read_lines no_fields (codes "event: answer" ∷ (codes "data: " ++ quote t) ∷ [])
      ≡ answer_fields t
unfolding read_lines read_line trim answer_fields
read_lines-answer t = refl

is_empty-quote : (t : Text) → is_empty (quote t) ≡ false
is_empty-quote t = rw (quote-eq-inner t) refl

trim_start-letter : (s : Text) → (ys : Text) × (trim_start (s ++ 101 ∷ []) ≡ ys ++ 101 ∷ [])
unfolding trim_start
trim_start-letter [] = ([], refl)
trim_start-letter (c ∷ s) = elim (Bool-cases (is_space c)) [
  | inl blank ↦ let (ys, e) = trim_start-letter s in (ys, rw (blank, trim_start) e)
  | inr letter ↦ (c ∷ s, rw (letter, trim_start) refl)
]

-- A block that starts with an `e` is not blank.
trim-letter : (s : Text) → is_empty (trim (101 ∷ s)) ≡ false
unfolding trim
trim-letter s =
    let (ys, e) = trim_start-letter (reverse s) in
    ap (λ t. is_empty (reverse (trim_start t))) (reverse-cons 101 s)
    ∙ ap (λ t. is_empty (reverse t)) e
    ∙ ap is_empty (reverse-append ys (101 ∷ []))

module _ (document : Text → Option Text) where
  fields_texts-answer : (t : Text) → IsUnits t → fields_texts document (answer_fields t) ≡ t ∷ []
  unfolding fields_texts answer_fields
  fields_texts-answer t h = rw (trim-data t, is_empty-quote t, decode_data-quote document t h)

  block_texts-answer : (t : Text) → IsUnits t → block_texts document (answer_block t) ≡ t ∷ []
  unfolding block_texts
  block_texts-answer t h = rw (trim-letter _) (
      ap (λ ls. fields_texts document (read_lines no_fields ls)) (split_lines-answer_block t)
      ∙ ap (fields_texts document) (read_lines-answer t)
      ∙ fields_texts-answer t h)

  -- A chunk of answer events and more text: their texts, then those of the rest.
  blocks_texts-frames :
      (ts : List Text) (blocks : List Text)
      → All IsUnits ts
      → blocks_texts document (map answer_block ts ++ blocks) ≡ ts ++ blocks_texts document blocks
  unfolding blocks_texts
  blocks_texts-frames [] blocks h = refl
  blocks_texts-frames (t ∷ ts) blocks (p, h) =
      ap (λ xs. xs ++ blocks_texts document (map answer_block ts ++ blocks))
        (block_texts-answer t p)
      ∙ ap (λ xs. t ∷ xs) (blocks_texts-frames ts blocks h)

  blocks_texts-blank : blocks_texts document (split_blocks []) ≡ []
  unfolding blocks_texts block_texts trim split_blocks
  blocks_texts-blank = refl

  -- `extractAnswerText` of a chunk that holds answer events, each written with
  -- `data: ${JSON.stringify(text)}`, is the list of their texts, in order.
  pub extract_answer_text-frames :
      (ts : List Text)
      → All IsUnits ts
      → extract_answer_text document (concat (map answer_frame ts)) ≡ ts
  unfolding extract_answer_text
  extract_answer_text-frames [] h = refl
  extract_answer_text-frames (t ∷ ts) h =
      ap (blocks_texts document) (
        ap split_blocks (sym (append-nil (concat (map answer_frame (t ∷ ts)))))
        ∙ split_blocks-frames (t ∷ ts) [])
      ∙ blocks_texts-frames (t ∷ ts) (split_blocks []) h
      ∙ ap (λ xs. (t ∷ ts) ++ xs) blocks_texts-blank
      ∙ append-nil (t ∷ ts)
