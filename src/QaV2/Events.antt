-- ===== src/QaV2/Events.antt =====
-- services/qa.v2.service.ts: the texts and events that a question gets, made of chunks and a plan.
use bubblog_ai.Prelude.{
  ℕ, Bool, true, false, not, Option, none, some, List, [], ◌∷◌, ◌++◌, map, length, if◌then◌else◌,
}
use bubblog_ai.Prelude.Text.{Text, codes, number_text}
use bubblog_ai.Prelude.Json.{quote}
use bubblog_ai.Llm.OpenAi.{event_line, data_line}
use bubblog_ai.Qa.Data.{Out, write, bool_text}
use bubblog_ai.Aggregate.{ChunkHit}
use bubblog_ai.Search.{RetrievalBias, lexical, balanced, semantic, SearchPlan}

-- An event in two writes.
abbrev pub event_pair : Text → Text → List Out
event_pair name payload = write (event_line name) ∷ write (data_line payload) ∷ []

abbrev pub joined : List Text → Text
joined [] = []
joined (x ∷ []) = x
joined (x ∷ y ∷ ys) = x ++ (44 ∷ joined (y ∷ ys))

abbrev pub json_array : List Text → Text
json_array xs = 91 ∷ (joined xs ++ (93 ∷ []))

abbrev pub json_fields : List (Text × Text) → List Text
json_fields [] = []
json_fields (f ∷ fs) = (quote f.0 ++ (58 ∷ f.1)) ∷ json_fields fs

abbrev pub json_object : List (Text × Text) → Text
json_object fs = 123 ∷ (joined (json_fields fs) ++ (125 ∷ []))

abbrev pub json_number : Option ℕ → Text
json_number none = codes "null"
json_number (some i) = number_text i

abbrev pub json_string : Option Text → Text
json_string none = codes "null"
json_string (some t) = quote t

abbrev pub no_rows : {A : Type 0} → List A → Bool
no_rows [] = true
no_rows (_ ∷ _) = false

abbrev pub bias_text : RetrievalBias → Text
bias_text lexical = codes "lexical"
bias_text balanced = codes "balanced"
bias_text semantic = codes "semantic"

-- `rewrite` and `keywords`
abbrev pub listed : Text → List Text → List Out
listed name [] = []
listed name (t ∷ ts) = event_pair name (json_array (map quote (t ∷ ts)))

module _ {W : Type 0} where
  abbrev pub context_row : ChunkHit W → Text
  context_row r =
      json_object ((codes "postId", quote r.post_id) ∷ (codes "postTitle", quote r.post_title) ∷ [])

  abbrev pub meta_row : ChunkHit W → Text
  meta_row r = json_object (
      (codes "postId", quote r.post_id)
      ∷ (codes "postTitle", quote r.post_title)
      ∷ (codes "chunkIndex", json_number r.chunk_index)
      ∷ (codes "createdAt", json_string r.post_created_at)
      ∷ [])

  -- `JSON.stringify` of `context`, and of `resultMeta`.
  unfoldable pub context_text : List (ChunkHit W) → Text
  context_text rows = json_array (map context_row rows)

  unfoldable pub meta_text : List (ChunkHit W) → Text
  unfolding number_text
  meta_text rows = json_array (map meta_row rows)

  -- The fields of `retrievalMeta` behind the strategy and the plan.
  abbrev pub found_fields : List (ChunkHit W) → List (Text × Text)
  found_fields rows =
      (codes "resultCount", number_text (length rows))
      ∷ (codes "context", context_text rows)
      ∷ (codes "exist_in_post_status", bool_text (not (no_rows rows)))
      ∷ []

  unfoldable pub fallback_meta : List (ChunkHit W) → Text
  unfolding context_text number_text
  fallback_meta rows =
      json_object ((codes "strategy", quote (codes "임베딩 기반 RAG (검색 계획 폴백)")) ∷ found_fields rows)

  abbrev pub strategy_text : SearchPlan W → Text
  strategy_text plan =
      if plan.hybrid.enabled
      then codes "검색 계획 기반 하이브리드 (" ++ bias_text plan.hybrid.retrieval_bias ++ codes ")"
      else codes "검색 계획 기반 임베딩"

  unfoldable pub planned_meta : (SearchPlan W → Text) → SearchPlan W → List (ChunkHit W) → Text
  unfolding context_text number_text
  planned_meta plan_text plan rows = json_object (
      (codes "strategy", quote (strategy_text plan))
      ∷ (codes "plan", plan_text plan)
      ∷ found_fields rows)

  -- The events on the chunks found, whichever search has found them.
  abbrev pub result_events : List (ChunkHit W) → List Out
  result_events rows =
      event_pair (codes "search_result") (context_text rows)
      ++ event_pair (codes "search_result_meta") (meta_text rows)
      ++ event_pair (codes "exist_in_post_status") (bool_text (not (no_rows rows)))
      ++ event_pair (codes "context") (context_text rows)

  abbrev pub fallback_events : List (ChunkHit W) → List Out
  fallback_events rows =
      event_pair (codes "search_result") (context_text rows)
      ++ event_pair (codes "exist_in_post_status") (bool_text (not (no_rows rows)))
      ++ event_pair (codes "context") (context_text rows)

  abbrev pub hybrid_events : List (ChunkHit W) → List Out
  hybrid_events rows =
      event_pair (codes "hybrid_result") (context_text rows)
      ++ event_pair (codes "hybrid_result_meta") (meta_text rows)

abbrev pub fallback_plan : Text
fallback_plan = codes "{\"mode\":\"rag\",\"fallback\":true}"
