-- ===== src/Sse/Frames.antt =====
-- The answer event that the providers and the cache replay write, and what utils/sse.ts and
-- llm/index.ts read out of it.
use bubblog_ai.Prelude.{
  ◌≡◌, ◌≢◌, refl, ap, ◌∙◌, Option, List, [], ◌∷◌, ◌++◌, map, append_assoc, arith, All-append,
  concat,
}
use mathlib.Core.List.{reverse, reverse-cons, reverse-append, reverse-reverse}
use bubblog_ai.Prelude.Text.{Text, codes, IsLine, trim, trim_start}
use bubblog_ai.Sse.{decode_data}
use bubblog_ai.Prelude.Json.{quote}
use bubblog_ai.Prelude.Json.Laws.{IsUnits, parse_quoted-quote, quote-IsLine, quote-eq-inner, inner}
use bubblog_ai.Prelude.Split.{
  split_blocks, split_lines, closed, split_blocks-line, split_lines-line, split_lines-one,
}

-- `event: answer` and `data: ${JSON.stringify(text)}`
abbrev pub answer_block : Text → Text
answer_block t = codes "event: answer" ++ (10 ∷ (codes "data: " ++ quote t))

abbrev pub answer_frame : Text → Text
answer_frame t = closed (answer_block t)

reverse-quotes : (s : Text) → reverse (34 ∷ (s ++ 34 ∷ [])) ≡ 34 ∷ (reverse s ++ 34 ∷ [])
reverse-quotes s = reverse-append (34 ∷ s) (34 ∷ []) ∙ ap (λ t. 34 ∷ t) (reverse-cons 34 s)

trim-quotes : (s : Text) → trim (34 ∷ (s ++ 34 ∷ [])) ≡ 34 ∷ (s ++ 34 ∷ [])
unfolding trim
trim-quotes s =
    ap (λ t. reverse (trim_start t)) (reverse-quotes s)
    ∙ reverse-quotes (reverse s)
    ∙ ap (λ t. 34 ∷ (t ++ 34 ∷ [])) (reverse-reverse s)

trim-space : (s : Text) → trim (32 ∷ s) ≡ trim s
unfolding trim
trim-space s = refl

trim-quote : (t : Text) → trim (quote t) ≡ quote t
trim-quote t = rw (quote-eq-inner t) (trim-quotes (inner t))

block_prefix :
    (s x : Text) (xs : List Text)
    → split_blocks (32 ∷ s) ≡ x ∷ xs
    → split_blocks (codes "event: answer" ++ (10 ∷ (codes "data:" ++ (32 ∷ s))))
      ≡ (codes "event: answer" ++ (10 ∷ (codes "data:" ++ x))) ∷ xs
unfolding split_blocks
block_prefix s x xs h = rw h

split_blocks-answer_block :
    (t rest : Text) → split_blocks (answer_frame t ++ rest) ≡ answer_block t ∷ split_blocks rest
split_blocks-answer_block t rest =
    ap split_blocks (append_assoc (answer_block t) (10 ∷ 10 ∷ []) rest)
    ∙ block_prefix (quote t ++ (10 ∷ 10 ∷ rest)) (32 ∷ quote t) (split_blocks rest)
        (split_blocks-line rest 32 (quote t) (omega arith, quote-IsLine t))

-- The complete blocks of written answer events.
pub split_blocks-frames :
    (ts : List Text) (rest : Text)
    → split_blocks (concat (map answer_frame ts) ++ rest) ≡ map answer_block ts ++ split_blocks rest
split_blocks-frames [] rest = refl
split_blocks-frames (t ∷ ts) rest =
    ap split_blocks (append_assoc (answer_frame t) (concat (map answer_frame ts)) rest)
    ∙ split_blocks-answer_block t (concat (map answer_frame ts) ++ rest)
    ∙ ap (λ xs. answer_block t ∷ xs) (split_blocks-frames ts rest)

event_line : IsLine (codes "event: answer")
event_line = omega arith

data_line-IsLine : (t : Text) → IsLine (codes "data: " ++ quote t)
data_line-IsLine t =
    All-append (λ c. c ≢ 10) (codes "data: ") (quote t) (omega arith) (quote-IsLine t)

pub split_lines-answer_block :
    (t : Text)
    → split_lines (answer_block t) ≡ codes "event: answer" ∷ (codes "data: " ++ quote t) ∷ []
split_lines-answer_block t =
    split_lines-line (codes "data: " ++ quote t) (codes "event: answer") event_line
    ∙ ap (λ xs. codes "event: answer" ∷ xs)
        (split_lines-one (codes "data: " ++ quote t) (data_line-IsLine t))

-- What both readers take from the data line.
pub trim-data : (t : Text) → trim (32 ∷ quote t) ≡ quote t
trim-data t = trim-space (quote t) ∙ trim-quote t

pub decode_data-quote :
    (document : Text → Option Text) (t : Text) → IsUnits t → decode_data document (quote t) ≡ t
unfolding decode_data
decode_data-quote document t h = rw (parse_quoted-quote t h) (rw (quote-eq-inner t) refl)
