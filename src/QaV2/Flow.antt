-- ===== src/QaV2/Flow.antt =====
-- services/qa.v2.service.ts: the principle of `Qa.Flow` for what is served by way of a planned search.
use bubblog_ai.Prelude.{
  ℕ, zero, suc, ◌≡◌, inl, inr, refl, true, Option, none, some, List, [], ◌∷◌, ◌++◌, Bool-cases,
}
use bubblog_ai.Prelude.Text.{Text, codes}
use bubblog_ai.Repository.{Db}
use bubblog_ai.Repository.Cache.{Vectors}
use bubblog_ai.History.{
  CachedAnswerResult, select_tone_aware_cache_candidate, load_recent_messages,
  history_message_limit,
}
use bubblog_ai.Aggregate.{ChunkHit}
use bubblog_ai.Search.{SearchPlan}
use bubblog_ai.Hybrid.{run_hybrid_search}
use bubblog_ai.Qa.Data.{
  session_error, ended, internal_error, LlmStream, ChatMessage, PostLookup, broken, missing, found,
  Embeddings, Request, Serving, Reader, prepend_history, history_messages,
}
use bubblog_ai.Qa.{forbidden, cached_answers}
use bubblog_ai.Qa.Flow.Writes.{is_open, open-open}
use bubblog_ai.Qa.Flow.{Finishing, Flow, replay_cached_answer-Closed, on_llm-Closed}
use bubblog_ai.QaV2.{
  Planning, caught_v2, on_llm_v2, refused, answer_post_v2, answer_fallback, hybrid_searched,
  searched, answer_rows, answer_planned, search_options, answer_new_v2, answer_rewritten_v2,
  answer_selected_v2, answer_embedded_v2, answer_stream_v2,
}
use bubblog_ai.QaV2.Events.{event_pair, listed, fallback_plan, fallback_meta, planned_meta}

listed-open : (name : Text) (ts : List Text) → is_open (listed name ts) ≡ true
listed-open name [] = refl
listed-open name (t ∷ ts) = refl

module _ {E S J W : Type 0} (to_date : ℕ → ℕ) (v : Vectors E S) (reader : Reader) (g : Planning J W)
    (r : Request E) (F : Flow to_date v reader r) where
  open F use {Open, Closed, Ends, writes, stops}

  caught_v2-Closed : (st : Serving E) → Open st → Closed (caught_v2 to_date v reader g r st)
  caught_v2-Closed st h =
      stops (record st { out = st.out ++ event_pair (codes "error") internal_error })
        (session_error (codes "stream_error") ∷ ended ∷ []) refl
        (writes st (event_pair (codes "error") internal_error) refl h)

  refused-Closed :
      (payload reason : Text) (st : Serving E)
      → Open st
      → Closed (refused to_date v reader g r payload reason st)
  unfolding refused
  refused-Closed payload reason st h = stops st _ refl h

  on_llm_v2-Closed :
      (e : Embeddings E) (plan meta : Text) (s : Option LlmStream) (st : Serving E)
      → Finishing Ends s
      → Open st
      → Closed (on_llm_v2 to_date v reader g r e plan meta s st)
  unfolding on_llm_v2
  on_llm_v2-Closed e plan meta none st n h = caught_v2-Closed st h
  on_llm_v2-Closed e plan meta (some s) st n h =
      on_llm-Closed to_date v reader r F e (some plan) (some meta) (some s) st n h

  hybrid_searched-open :
      (plan : SearchPlan W) (rows : Option (List (ChunkHit W)))
      → is_open (hybrid_searched to_date v reader g r plan rows).0 ≡ true
  unfolding hybrid_searched
  hybrid_searched-open plan none = refl
  hybrid_searched-open plan (some rows) = refl

  searched-open : (plan : SearchPlan W) → is_open (searched to_date v reader g r plan).0 ≡ true
  unfolding searched
  searched-open plan = elim (Bool-cases plan.hybrid.enabled) [
    | inl e ↦
        let rows =
          run_hybrid_search g.numbers g.words.to_lower_case g.sources r.question r.owner_user_id
            plan (search_options to_date v reader g r (some plan.limit)) in
        rw (e) (
          open-open
            (listed (codes "rewrite") plan.rewrites ++ listed (codes "keywords") plan.keywords) _
            (open-open (listed (codes "rewrite") plan.rewrites) _
              (listed-open (codes "rewrite") plan.rewrites)
              (listed-open (codes "keywords") plan.keywords))
            (hybrid_searched-open plan rows))
    | inr e ↦ rw (e) refl
  ]

  module _ (finishes : (ms : List ChatMessage) → Finishing Ends (r.llm ms)) where
    answer_post_v2-Closed :
        (e : Embeddings E) (history : List ChatMessage) (p : PostLookup) (st : Serving E)
        → Open st
        → Closed (answer_post_v2 to_date v reader g r e history p st)
    unfolding answer_post_v2
    answer_post_v2-Closed e history broken st h = caught_v2-Closed st h
    answer_post_v2-Closed e history missing st h =
        refused-Closed (codes "{\"code\":404,\"message\":\"Post not found\"}")
          (codes "post_not_found") st h
    answer_post_v2-Closed e history (found p) st h =
        elim (Bool-cases (forbidden to_date v reader r p)) [
          | inl d ↦ rw (d) (
              refused-Closed (codes "{\"code\":403,\"message\":\"Forbidden\"}")
                (codes "forbidden_post") st h)
          | inr d ↦ rw (d) (
              on_llm_v2-Closed e p.search_plan p.retrieval_meta
                (r.llm (prepend_history p.messages history)) _
                (finishes (prepend_history p.messages history)) (writes st _ refl h))
        ]

    answer_fallback-Closed :
        (e : Embeddings E) (history : List ChatMessage) (rows : Option (List (ChunkHit W)))
        (st : Serving E)
        → Open st
        → Closed (answer_fallback to_date v reader g r e history rows st)
    unfolding answer_fallback
    answer_fallback-Closed e history none st h = caught_v2-Closed st h
    answer_fallback-Closed e history (some rows) st h =
        let ms = prepend_history (g.rag_prompt rows (fallback_meta rows)) history in
        on_llm_v2-Closed e fallback_plan (fallback_meta rows) (r.llm ms) _ (finishes ms)
          (writes st _ refl h)

    answer_rows-Closed :
        (e : Embeddings E) (history : List ChatMessage) (plan : SearchPlan W)
        (rows : Option (List (ChunkHit W))) (st : Serving E)
        → Open st
        → Closed (answer_rows to_date v reader g r e history plan rows st)
    unfolding answer_rows
    answer_rows-Closed e history plan none st h = caught_v2-Closed st h
    answer_rows-Closed e history plan (some rows) st h =
        let meta = planned_meta g.plan_text plan rows in
        let ms = prepend_history (g.rag_prompt rows meta) history in
        on_llm_v2-Closed e (g.plan_text plan) meta (r.llm ms) _ (finishes ms) (writes st _ refl h)

    answer_planned-Closed :
        (e : Embeddings E) (history : List ChatMessage) (plan : Option (SearchPlan W))
        (st : Serving E)
        → Open st
        → Closed (answer_planned to_date v reader g r e history plan st)
    unfolding answer_planned
    answer_planned-Closed e history none st h =
        answer_fallback-Closed e history g.similar_chunks st h
    answer_planned-Closed e history (some plan) st h =
        let s = searched to_date v reader g r plan in
        answer_rows-Closed e history plan s.1 _ (
          writes st _
            (open-open (event_pair (codes "search_plan") (g.plan_text plan)) s.0 refl
              (searched-open plan))
            h)

    answer_new_v2-Closed :
        (e : Embeddings E) (history : List ChatMessage) (i : Option ℕ) (st : Serving E)
        → Open st
        → Closed (answer_new_v2 to_date v reader g r e history i st)
    unfolding answer_new_v2
    answer_new_v2-Closed e history none st h = answer_planned-Closed e history _ st h
    answer_new_v2-Closed e history (some zero) st h = answer_planned-Closed e history _ st h
    answer_new_v2-Closed e history (some (suc i)) st h = answer_post_v2-Closed e history r.post st h

    answer_rewritten_v2-Closed :
        (e : Embeddings E) (history : List ChatMessage) (c : Option (CachedAnswerResult S))
        (t : Option Text) (st : Serving E)
        → Open st
        → Closed (answer_rewritten_v2 to_date v reader g r e history c t st)
    unfolding answer_rewritten_v2
    answer_rewritten_v2-Closed e history (some c) (some t) st h =
        replay_cached_answer-Closed to_date v reader r F e c t r.speech_tone st h
    answer_rewritten_v2-Closed e history (some c) none st h =
        answer_new_v2-Closed e history r.post_id st h
    answer_rewritten_v2-Closed e history none t st h = answer_new_v2-Closed e history r.post_id st h

    answer_selected_v2-Closed :
        (e : Embeddings E) (history : List ChatMessage) (c w : Option (CachedAnswerResult S))
        (st : Serving E)
        → Open st
        → Closed (answer_selected_v2 to_date v reader g r e history c w st)
    unfolding answer_selected_v2
    answer_selected_v2-Closed e history (some c) w st h =
        replay_cached_answer-Closed to_date v reader r F e c c.answer c.speech_tone_id st h
    answer_selected_v2-Closed e history none w st h =
        answer_rewritten_v2-Closed e history w r.rewritten st h

    answer_embedded_v2-Closed :
        (history : List ChatMessage) (e : Option (Embeddings E)) (st : Serving E)
        → Open st
        → Closed (answer_embedded_v2 to_date v reader g r history e st)
    unfolding answer_embedded_v2
    answer_embedded_v2-Closed history none st h = caught_v2-Closed st h
    answer_embedded_v2-Closed history (some e) st h = elim (Bool-cases r.cache_fails) [
      | inl d ↦ rw (d) (caught_v2-Closed st h)
      | inr d ↦ rw (d) (
          let s =
            select_tone_aware_cache_candidate
              (cached_answers to_date v reader r st.db e.duplicate_question) (some r.speech_tone) in
          answer_selected_v2-Closed e history s.matching_candidate s.rewrite_candidate st h)
    ]

    pub answer_stream_v2-Closed :
        (db : Db E)
        → Open (record { out = []; db = db })
        → Closed (answer_stream_v2 to_date v reader g r db)
    unfolding answer_stream_v2
    answer_stream_v2-Closed db h = elim (Bool-cases r.lookups_fail) [
      | inl d ↦ rw (d) (caught_v2-Closed (record { out = []; db = db }) h)
      | inr d ↦ rw (d) (
          answer_embedded_v2-Closed
            (history_messages
              (load_recent_messages to_date v db r.session.id history_message_limit))
            r.embeddings (record { out = []; db = db }) h)
    ]
