-- ===== src/Sse.antt =====
-- utils/sse.ts: the answer texts in a chunk of server-sent events.
pub mod Frames
pub mod Answers
use bubblog_ai.Prelude.{
  Bool, true, false, ◌&&◌, not, Option, none, some, List, [], ◌∷◌, ◌++◌, if◌then◌else◌, drop,
}
use bubblog_ai.Prelude.Text.{Text, codes, text_eq, starts_with, is_empty, trim}
use bubblog_ai.Prelude.Json.{parse_quoted}
use bubblog_ai.Prelude.Split.{split_lines, split_blocks, join_lines}

-- The variables `eventName` and `dataLines` of the loop over a block's lines.
pub record Fields : Type 0 where
  pub event_name : Option Text
  pub data_lines : List Text

abbrev pub no_fields : Fields
no_fields = record { event_name = none; data_lines = [] }

read_line : Fields → Text → Fields
read_line f line =
    if starts_with (codes "event:") line
    then record f { event_name = some (trim (drop 6 line)) }
    else if starts_with (codes "data:") line
    then record f { data_lines = f.data_lines ++ (drop 5 line ∷ []) }
    else f

read_lines : Fields → List Text → Fields
read_lines f [] = f
read_lines f (line ∷ lines) = read_lines (read_line f line) lines

abbrev pub is_answer : Option Text → Bool
is_answer none = false
is_answer (some e) = text_eq e (codes "answer")

abbrev or_raw : Text → Option Text → Text
or_raw raw none = raw
or_raw raw (some t) = t

-- `document` is `JSON.stringify(JSON.parse(raw))` for a text that is no string in quotes, and `none`
-- where `JSON.parse` throws.
module _ (document : Text → Option Text) where
  -- The string itself, another value written again, or the raw text where parsing fails.
  unfoldable pub decode_data : Text → Text
  decode_data raw =
      if starts_with (codes "\"") raw
      then or_raw raw (parse_quoted raw)
      else or_raw raw (document raw)

  fields_texts : Fields → List Text
  fields_texts f =
      if is_answer f.event_name
      then elim f.data_lines [
        | [] ↦ []
        | d ∷ ds ↦
            let raw = trim (join_lines (d ∷ ds)) in
            if is_empty raw then [] else decode_data raw ∷ []
      ]
      else []

  block_texts : Text → List Text
  unfolding fields_texts read_lines read_line
  block_texts block =
      if is_empty (trim block) then [] else fields_texts (read_lines no_fields (split_lines block))

  blocks_texts : List Text → List Text
  blocks_texts [] = []
  blocks_texts (block ∷ blocks) = block_texts block ++ blocks_texts blocks

  unfoldable pub extract_answer_text : Text → List Text
  unfolding blocks_texts block_texts
  extract_answer_text sse_chunk =
      if is_empty sse_chunk then [] else blocks_texts (split_blocks sse_chunk)
