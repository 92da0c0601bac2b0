-- ===== src/Qa/Stored.antt =====
-- services/qa.service.ts: what is stored of a new answer.
use bubblog_ai.Prelude.{List, [], ◌∷◌, map, concat}
use bubblog_ai.Prelude.Text.{Text}
use bubblog_ai.Llm.OpenAi.Framing.{Tail, tail_text}
use bubblog_ai.Sse.Frames.{answer_frame}

-- Chunks of whole answer events, one list of texts for each chunk, and then the end or error block that a
-- provider writes before it ends its stream.
abbrev pub sent : List (List Text) → Tail → List Text
sent [] t = tail_text t ∷ []
sent (ts ∷ tss) t = concat (map answer_frame ts) ∷ sent tss t
