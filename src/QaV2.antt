-- ===== src/QaV2.antt =====
-- services/qa.v2.service.ts: the answer to a question by way of a planned search. What it has in common with
-- services/qa.service.ts, text for text, are the definitions of `Qa`.
pub mod Events
pub mod Flow
pub mod Served
pub mod Scope
pub mod Owned
use bubblog_ai.Prelude.{
  ℕ, zero, suc, Bool, true, false, not, Option, none, some, List, [], ◌∷◌, ◌++◌, map, length,
  if◌then◌else◌,
}
use bubblog_ai.Prelude.Text.{Text, codes, number_text}
use bubblog_ai.Prelude.Json.{quote}
use bubblog_ai.Llm.OpenAi.{event_line, data_line}
use bubblog_ai.Repository.{AskMessage, Db}
use bubblog_ai.Repository.Cache.{Vectors}
use bubblog_ai.History.{
  CachedAnswerResult, find_cached_answer, select_tone_aware_cache_candidate, load_recent_messages,
  history_message_limit,
}
use bubblog_ai.Qa.Data.{
  Out, write, session_error, ended, LlmStream, ChatMessage, Post, PostLookup, broken, missing,
  found, Embeddings, Request, Serving, Reader, internal_error, bool_text, written_option,
  prepend_history, history_messages,
}
use bubblog_ai.Qa.{replay_cached_answer, on_llm, forbidden, cached_answers}
use bubblog_ai.Aggregate.{ChunkHit}
use bubblog_ai.Search.{
  Doubles, TimeFilter, RetrievalBias, lexical, balanced, semantic, SearchPlan, SearchOptions,
  Sources, run_semantic_search,
}
use bubblog_ai.Hybrid.{run_hybrid_search}
use bubblog_ai.Plan.Parsing.{Parser, PlanModel}
use bubblog_ai.Plan.Cleaning.{Words}
use bubblog_ai.Plan.{generate_search_plan}
use bubblog_ai.QaV2.Events.{
  event_pair, joined, json_array, json_fields, json_object, json_number, json_string, no_rows,
  bias_text, listed, context_row, meta_row, context_text, meta_text, found_fields, fallback_meta,
  strategy_text, planned_meta, result_events, fallback_events, hybrid_events, fallback_plan,
}

-- Around the request: the numbers, `JSON.parse`, the functions on words, the model's answer when it is asked
-- for a plan, `toAbsoluteRangeKst` at that time, what the repository and the embeddings answer, the chunks
-- of `findSimilarChunks`, `none` where it throws, `JSON.stringify` of a plan, and the prompt made of chunks
-- and the text of `retrievalMeta`.
pub record Planning (J W : Type 0) : Type 0 where
  pub numbers : Doubles W
  pub parser : Parser J W
  pub words : Words
  pub plan_model : PlanModel J
  pub to_absolute : TimeFilter → Option (Text × Text)
  pub sources : Sources W
  pub similar_chunks : Option (List (ChunkHit W))
  pub plan_text : SearchPlan W → Text
  pub rag_prompt : List (ChunkHit W) → Text → List ChatMessage

module _ {E S J W : Type 0} (to_date : ℕ → ℕ) (v : Vectors E S) (reader : Reader) (g : Planning J W)
    (r : Request E) where
  -- The last `catch`.
  abbrev pub caught_v2 : Serving E → Serving E
  caught_v2 st = record st {
    out =
        st.out
        ++ event_pair (codes "error") internal_error
        ++ (session_error (codes "stream_error") ∷ ended ∷ []);
  }

  abbrev pub written : Serving E → List Out → Serving E
  written st out = record st { out = st.out ++ out }

  unfoldable pub on_llm_v2 : Embeddings E → Text → Text → Option LlmStream → Serving E → Serving E
  unfolding on_llm
  on_llm_v2 e plan meta none st = caught_v2 st
  on_llm_v2 e plan meta (some s) st =
      on_llm to_date v reader r e (some plan) (some meta) (some s) st

  unfoldable pub refused : Text → Text → Serving E → Serving E
  refused payload reason st =
      written st (event_pair (codes "error") payload ++ (session_error reason ∷ ended ∷ []))

  abbrev pub post_events : Post → List Out
  post_events p =
      event_pair (codes "search_plan") p.search_plan
      ++ event_pair (codes "search_result") p.context
      ++ event_pair (codes "exist_in_post_status") (codes "true")
      ++ event_pair (codes "context") p.context

  unfoldable pub answer_post_v2 :
      Embeddings E → List ChatMessage → PostLookup → Serving E → Serving E
  unfolding on_llm_v2 refused prepend_history
  answer_post_v2 e history broken st = caught_v2 st
  answer_post_v2 e history missing st =
      refused (codes "{\"code\":404,\"message\":\"Post not found\"}") (codes "post_not_found") st
  answer_post_v2 e history (found p) st =
      if forbidden to_date v reader r p
      then refused (codes "{\"code\":403,\"message\":\"Forbidden\"}") (codes "forbidden_post") st
      else on_llm_v2 e p.search_plan p.retrieval_meta (r.llm (prepend_history p.messages history))
          (written st (post_events p))

  -- Without a plan: the chunks that are similar to the question.
  unfoldable pub answer_fallback :
      Embeddings E → List ChatMessage → Option (List (ChunkHit W)) → Serving E → Serving E
  unfolding on_llm_v2 prepend_history fallback_meta context_text
  answer_fallback e history none st = caught_v2 st
  answer_fallback e history (some rows) st =
      let meta = fallback_meta rows in
      on_llm_v2 e fallback_plan meta (r.llm (prepend_history (g.rag_prompt rows meta) history))
        (written st (event_pair (codes "search_plan") fallback_plan ++ fallback_events rows))

  abbrev pub search_options : Option ℕ → SearchOptions
  search_options limit = record { category_id = r.category_id; limit = limit; global = false }

  unfoldable pub semantic_searched : SearchPlan W → Option (List (ChunkHit W))
  unfolding run_semantic_search
  semantic_searched plan =
      run_semantic_search g.sources r.question r.owner_user_id plan (search_options none)

  -- After the hybrid search: what is written, and the chunks.
  unfoldable pub hybrid_searched :
      SearchPlan W → Option (List (ChunkHit W)) → List Out × Option (List (ChunkHit W))
  unfolding semantic_searched context_text meta_text
  hybrid_searched plan none = ([], none)
  hybrid_searched plan (some rows) =
      (hybrid_events rows, if no_rows rows then semantic_searched plan else some rows)

  -- The search of a plan: what is written before it is over, and the chunks, `none` if it throws.
  unfoldable pub searched : SearchPlan W → List Out × Option (List (ChunkHit W))
  unfolding hybrid_searched run_hybrid_search
  searched plan =
      if plan.hybrid.enabled
      then (let s = hybrid_searched plan (
            run_hybrid_search g.numbers g.words.to_lower_case g.sources r.question r.owner_user_id
              plan (search_options (some plan.limit))) in
          (
            listed (codes "rewrite") plan.rewrites
                ++ listed (codes "keywords") plan.keywords
                ++ s.0,
            s.1,
          ))
      else ([], semantic_searched plan)

  -- With the chunks of the search.
  unfoldable pub answer_rows :
      Embeddings E
      → List ChatMessage
      → SearchPlan W
      → Option (List (ChunkHit W))
      → Serving E
      → Serving E
  unfolding on_llm_v2 prepend_history planned_meta context_text meta_text
  answer_rows e history plan none st = caught_v2 st
  answer_rows e history plan (some rows) st =
      let meta = planned_meta g.plan_text plan rows in
      on_llm_v2 e (g.plan_text plan) meta (r.llm (prepend_history (g.rag_prompt rows meta) history))
        (written st (result_events rows))

  unfoldable pub answer_planned :
      Embeddings E → List ChatMessage → Option (SearchPlan W) → Serving E → Serving E
  unfolding answer_rows answer_fallback searched
  answer_planned e history none st = answer_fallback e history g.similar_chunks st
  answer_planned e history (some plan) st =
      let s = searched plan in
      answer_rows e history plan s.1
        (written st (event_pair (codes "search_plan") (g.plan_text plan) ++ s.0))

  unfoldable pub answer_new_v2 : Embeddings E → List ChatMessage → Option ℕ → Serving E → Serving E
  unfolding answer_post_v2 answer_planned generate_search_plan
  answer_new_v2 e history (some (suc i)) st = answer_post_v2 e history r.post st
  answer_new_v2 e history _ st =
      answer_planned e history
        (generate_search_plan g.parser g.numbers g.words g.to_absolute g.plan_model).1 st

  unfoldable pub answer_rewritten_v2 :
      Embeddings E
      → List ChatMessage
      → Option (CachedAnswerResult S)
      → Option Text
      → Serving E
      → Serving E
  unfolding answer_new_v2 replay_cached_answer
  answer_rewritten_v2 e history (some c) (some t) st =
      replay_cached_answer to_date v reader r e c t r.speech_tone st
  answer_rewritten_v2 e history _ _ st = answer_new_v2 e history r.post_id st

  unfoldable pub answer_selected_v2 :
      Embeddings E
      → List ChatMessage
      → Option (CachedAnswerResult S)
      → Option (CachedAnswerResult S)
      → Serving E
      → Serving E
  unfolding answer_rewritten_v2 replay_cached_answer
  answer_selected_v2 e history (some c) rewrite st =
      replay_cached_answer to_date v reader r e c c.answer c.speech_tone_id st
  answer_selected_v2 e history none rewrite st =
      answer_rewritten_v2 e history rewrite r.rewritten st

  unfoldable pub answer_embedded_v2 :
      List ChatMessage → Option (Embeddings E) → Serving E → Serving E
  unfolding answer_selected_v2 find_cached_answer select_tone_aware_cache_candidate
  answer_embedded_v2 history none st = caught_v2 st
  answer_embedded_v2 history (some e) st =
      if r.cache_fails
      then caught_v2 st
      else let s =
          select_tone_aware_cache_candidate
            (cached_answers to_date v reader r st.db e.duplicate_question) (some r.speech_tone) in
        answer_selected_v2 e history s.matching_candidate s.rewrite_candidate st

  unfoldable pub answer_stream_v2 : Db E → Serving E
  unfolding answer_embedded_v2 load_recent_messages
  answer_stream_v2 db =
      let st : Serving E = record { out = []; db = db } in
      if r.lookups_fail
      then caught_v2 st
      else answer_embedded_v2
          (history_messages (load_recent_messages to_date v db r.session.id history_message_limit))
          r.embeddings st
