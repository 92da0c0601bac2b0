-- ===== src/Qa.antt =====
-- services/qa.service.ts: the answer to a question, as what is written and emitted on the stream of the
-- request, and what is stored. What the services that it calls answer is part of the request.
pub mod Data
pub mod Flow
pub mod Shape
pub mod Stored
use bubblog_ai.Prelude.{
  ℕ, zero, suc, ◌+◌, Bool, true, false, not, ◌&&◌, ◌||◌, Option, none, some, List, [], ◌∷◌, ◌++◌,
  map, concat, if◌then◌else◌,
}
use bubblog_ai.Prelude.Text.{Text, codes, text_eq, trim}
use bubblog_ai.Prelude.Int.{ℤ, pos, negsuc}
use bubblog_ai.Prelude.Json.{quote}
use bubblog_ai.Sse.{extract_answer_text}
use bubblog_ai.Llm.OpenAi.{event_line, data_line}
use bubblog_ai.Repository.{MessageRole, AskMessage, AskSession, Db, Outcome, returned, threw}
use bubblog_ai.Repository.Cache.{Vectors}
use bubblog_ai.History.{
  PersistConversationInput, Faults, FindCachedAnswerParams, CachedAnswerResult, Selection,
  persist_conversation, find_cached_answer, select_tone_aware_cache_candidate, load_recent_messages,
  history_message_limit,
}
use bubblog_ai.Qa.Data.{
  Out, write, session_saved, session_error, ended, Finish, completed, abandoned, failed, pending,
  LlmStream, ChatRole, system, user, assistant, tool, function, ChatMessage, Post, PostLookup,
  broken, missing, found, Retrieval, Embeddings, Request, Serving, internal_error, event_write,
  prepend_history, history_role, history_messages, bool_text, written_option, written_context,
  optional_text, Reader, of_meta,
}

module _ {E S : Type 0} (to_date : ℕ → ℕ) (v : Vectors E S) (reader : Reader) where
  abbrev pub turn_of :
      Request E → Text → Option Text → Option Text → ℤ → E → E → PersistConversationInput E
  turn_of r answer plan meta tone question duplicate = record {
    session_id = r.session.id;
    requester_user_id = r.requester_user_id;
    owner_user_id = r.owner_user_id;
    question = r.question;
    answer = answer;
    search_plan = plan;
    retrieval_meta = meta;
    category_id = r.category_id;
    post_id = r.post_id;
    question_embedding = question;
    duplicate_question_embedding = duplicate;
    speech_tone = some tone;
  }

  abbrev pub saved_event : Bool → Outcome → Out
  saved_event cached returned = session_saved cached
  saved_event cached threw = session_error (codes "persistence_failed")

  -- The `try` around `persistConversation`, and the end of the stream; `unembedded` is the reason that
  -- is given where an embedding is missing.
  unfoldable pub save_embedded :
      Request E
      → Bool
      → Text
      → Text
      → Option Text
      → Option Text
      → ℤ
      → Option E
      → Option E
      → Serving E
      → Serving E
  unfolding persist_conversation
  save_embedded r cached unembedded answer plan meta tone (some q) (some d) st =
      let stored =
        persist_conversation to_date v r.faults (turn_of r answer plan meta tone q d) st.db in
      record { out = st.out ++ (saved_event cached stored.1 ∷ ended ∷ []); db = stored.0 }
  save_embedded r cached unembedded answer plan meta tone _ _ st = record st {
    out = st.out ++ (session_error unembedded ∷ ended ∷ []);
  }

  unfoldable pub save_turn :
      Request E
      → Bool
      → Text
      → Text
      → Option Text
      → Option Text
      → ℤ
      → Embeddings E
      → Serving E
      → Serving E
  unfolding save_embedded
  save_turn r cached unembedded answer plan meta tone e st =
      save_embedded r cached unembedded answer plan meta tone e.question e.duplicate_question st

  abbrev pub replayed : CachedAnswerResult S → Text → List Out
  replayed c answer =
      written_option (codes "search_plan") c.search_plan
      ++ written_context (of_meta reader.meta_context c.retrieval_meta)
      ++ written_option (codes "exist_in_post_status")
          (optional_text (of_meta reader.meta_exist c.retrieval_meta))
      ++ (write (event_line (codes "answer")) ∷ write (data_line (quote answer)) ∷ [])

  unfoldable pub replay_cached_answer :
      Request E → Embeddings E → CachedAnswerResult S → Text → ℤ → Serving E → Serving E
  unfolding save_turn
  replay_cached_answer r e c answer tone st =
      save_turn r true (codes "persistence_failed") answer c.search_plan c.retrieval_meta tone e
        (record st { out = st.out ++ replayed c answer })

  -- The last `catch`.
  abbrev pub caught : Serving E → Serving E
  caught st = record st {
    out =
        st.out
        ++ (event_write (codes "error") internal_error
            ∷ session_error (codes "stream_error")
            ∷ ended
            ∷ []);
  }

  -- `bufferedAnswer` after the stream of the model.
  unfoldable pub buffered_answer : List Text → Text
  unfolding extract_answer_text
  buffered_answer [] = []
  buffered_answer (chunk ∷ chunks) =
      concat (extract_answer_text reader.document chunk) ++ buffered_answer chunks

  unfoldable pub on_finish :
      Request E → Embeddings E → Option Text → Option Text → Text → Finish → Serving E → Serving E
  unfolding save_turn
  on_finish r e plan meta answer completed st =
      save_turn r false (codes "missing_question_embedding") (trim answer) plan meta r.speech_tone e
        st
  on_finish r e plan meta answer abandoned st = record st { out = st.out ++ (ended ∷ []) }
  on_finish r e plan meta answer failed st = record st {
    out =
        st.out
        ++ (write (event_line (codes "error"))
            ∷ write (data_line internal_error)
            ∷ session_error (codes "llm_error")
            ∷ ended
            ∷ []);
  }
  on_finish r e plan meta answer pending st = st

  -- The handlers of `llmStream`.
  unfoldable pub on_llm :
      Request E
      → Embeddings E
      → Option Text
      → Option Text
      → Option LlmStream
      → Serving E
      → Serving E
  unfolding on_finish buffered_answer
  on_llm r e plan meta none st = caught st
  on_llm r e plan meta (some s) st =
      on_finish r e plan meta (buffered_answer s.chunks) s.finish
        (record st { out = st.out ++ map write s.chunks })

  abbrev pub forbidden : Request E → Post → Bool
  forbidden r p = not p.is_public && not (text_eq p.user_id r.owner_user_id)

  unfoldable pub answer_post :
      Request E → Embeddings E → List ChatMessage → PostLookup → Serving E → Serving E
  unfolding on_llm prepend_history
  answer_post r e history broken st = caught st
  answer_post r e history missing st = record st {
    out =
        st.out
        ++ (event_write (codes "error") (codes "{\"code\":404,\"message\":\"Post not found\"}")
            ∷ session_error (codes "post_not_found")
            ∷ ended
            ∷ []);
  }
  answer_post r e history (found p) st =
      if forbidden r p
      then record st {
        out =
            st.out
            ++ (write (event_line (codes "error"))
                ∷ write (data_line (codes "{\"code\":403,\"message\":\"Forbidden\"}"))
                ∷ session_error (codes "forbidden_post")
                ∷ ended
                ∷ []);
      }
      else on_llm r e (some p.search_plan) (some p.retrieval_meta)
          (r.llm (prepend_history p.messages history))
          (record st {
            out =
                st.out
                ++ (event_write (codes "exist_in_post_status") (codes "true")
                    ∷ event_write (codes "context") p.context
                    ∷ []);
          })

  unfoldable pub answer_retrieval :
      Request E → Embeddings E → List ChatMessage → Option Retrieval → Serving E → Serving E
  unfolding on_llm prepend_history
  answer_retrieval r e history none st = caught st
  answer_retrieval r e history (some k) st =
      on_llm r e (some k.search_plan) (some k.retrieval_meta)
        (r.llm (prepend_history k.messages history))
        (record st {
          out =
              st.out
              ++ (event_write (codes "exist_in_post_status") (bool_text k.exist_in_post)
                  ∷ event_write (codes "context") k.context
                  ∷ []);
        })

  -- `if (postId)`
  unfoldable pub answer_new :
      Request E → Embeddings E → List ChatMessage → Option ℕ → Serving E → Serving E
  unfolding answer_post answer_retrieval
  answer_new r e history (some (suc i)) st = answer_post r e history r.post st
  answer_new r e history _ st = answer_retrieval r e history r.retrieval st

  -- A candidate in another tone is replayed in the tone asked for, if it can be rewritten.
  unfoldable pub answer_rewritten :
      Request E
      → Embeddings E
      → List ChatMessage
      → Option (CachedAnswerResult S)
      → Option Text
      → Serving E
      → Serving E
  unfolding answer_new replay_cached_answer
  answer_rewritten r e history (some c) (some t) st = replay_cached_answer r e c t r.speech_tone st
  answer_rewritten r e history _ _ st = answer_new r e history r.post_id st

  unfoldable pub answer_selected :
      Request E
      → Embeddings E
      → List ChatMessage
      → Option (CachedAnswerResult S)
      → Option (CachedAnswerResult S)
      → Serving E
      → Serving E
  unfolding answer_rewritten replay_cached_answer
  answer_selected r e history (some c) rewrite st =
      replay_cached_answer r e c c.answer c.speech_tone_id st
  answer_selected r e history none rewrite st = answer_rewritten r e history rewrite r.rewritten st

  abbrev pub cached_answers : Request E → Db E → Option E → List (CachedAnswerResult S)
  cached_answers r db none = []
  cached_answers r db (some d) = find_cached_answer to_date v db (record {
    owner_user_id = r.owner_user_id;
    embedding = d;
    post_id = r.post_id;
    category_id = r.category_id;
  })

  unfoldable pub answer_embedded :
      Request E → List ChatMessage → Option (Embeddings E) → Serving E → Serving E
  unfolding answer_selected find_cached_answer select_tone_aware_cache_candidate
  answer_embedded r history none st = caught st
  answer_embedded r history (some e) st =
      if r.cache_fails
      then caught st
      else let s =
          select_tone_aware_cache_candidate (cached_answers r st.db e.duplicate_question)
            (some r.speech_tone) in
        answer_selected r e history s.matching_candidate s.rewrite_candidate st

  unfoldable pub answer_stream : Request E → Db E → Serving E
  unfolding answer_embedded load_recent_messages
  answer_stream r db =
      let st : Serving E = record { out = []; db = db } in
      if r.lookups_fail
      then caught st
      else answer_embedded r
          (history_messages (load_recent_messages to_date v db r.session.id history_message_limit))
          r.embeddings st
