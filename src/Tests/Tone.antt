-- ===== src/Tests/Tone.antt =====
-- Tests of `Tone`.
use bubblog_ai.Prelude.{◌*◌, ◌≤◌, ◌≡◌, refl, none, some, [], ◌∷◌}
use bubblog_ai.Prelude.Text.{codes, trim}
use bubblog_ai.Prelude.Split.{split_blocks, split_lines}
use bubblog_ai.Prelude.Json.{quote, parse_quoted}
use bubblog_ai.Sse.{decode_data}
use bubblog_ai.Sse.Frames.{answer_frame}
use bubblog_ai.Tone.{
  Rewriting, finished, collect_answer_from_stream, rewrite_tone, rewrite_tone-bounds,
}

abbrev rewriting : Rewriting
rewriting = finished (answer_frame (codes "so is") ∷ [])

rewrite_tone-bounds_example :
    (collect_answer_from_stream (λ t. none) rewriting ≡ some (codes "so is"))
    × (1 ≤ 5)
    × (5 ≤ 2 * 5)
    × (2 * 5 ≤ 3 * 5)
unfolding rewrite_tone trim split_blocks quote split_lines decode_data parse_quoted
rewrite_tone-bounds_example =
    rewrite_tone-bounds (λ t. none) (codes "so it") (codes "so is") rewriting refl
