-- ===== src/Qa/Flow.antt =====
-- services/qa.service.ts: a principle for all that is served for a question, by the steps that write, end the
-- stream and store the turn.
pub mod Writes
use bubblog_ai.Prelude.{
  ℕ, zero, suc, ◌≡◌, inl, inr, refl, Bool, true, false, Option, none, some, List, [], ◌∷◌, ◌++◌,
  map, arith, Bool-cases,
}
use bubblog_ai.Prelude.Text.{Text, codes, trim}
use bubblog_ai.Prelude.Int.{ℤ}
use bubblog_ai.Repository.{Db}
use bubblog_ai.Repository.Cache.{Vectors}
use bubblog_ai.History.{
  CachedAnswerResult, select_tone_aware_cache_candidate, load_recent_messages,
  history_message_limit,
}
use bubblog_ai.Prelude.Json.{quote}
use bubblog_ai.Llm.OpenAi.{event_line, data_line}
use bubblog_ai.Qa.Data.{
  Out, write, session_saved, session_error, ended, Finish, completed, abandoned, failed, pending,
  LlmStream, ChatMessage, PostLookup, broken, missing, found, Retrieval, Embeddings, Request,
  Serving, Reader, prepend_history, written_option, written_context, optional_text, of_meta,
  history_messages,
}
use bubblog_ai.Qa.{
  save_embedded, save_turn, replayed, replay_cached_answer, caught, buffered_answer, on_finish,
  on_llm, forbidden, answer_post, answer_retrieval, answer_new, answer_rewritten, answer_selected,
  cached_answers, answer_embedded, answer_stream,
}
use bubblog_ai.Qa.Flow.Writes.{
  is_served, is_open, open-served, open-open, open-writes, option-open, context-open,
}

-- A stream of the model, where there is one, finishes as `P` says.
abbrev pub Finishing : (Finish → Type 0) → Option LlmStream → Type 0
Finishing P none = Unit
Finishing P (some s) = P s.finish

-- What holds while the stream is open, and behind its end: both stay so by the steps. `Ends` is what is known
-- of how a stream of the model finishes.
pub record Flow {E S : Type 0} (to_date : ℕ → ℕ) (v : Vectors E S) (reader : Reader) (r : Request E)
    : Type 1 where
  pub Open : Serving E → Type 0
  pub Closed : Serving E → Type 0
  pub Ends : Finish → Type 0
  pub writes :
      (st : Serving E) (w : List Out)
      → is_open w ≡ true
      → Open st
      → Open (record st { out = st.out ++ w })
  pub stops :
      (st : Serving E) (w : List Out)
      → is_served w ≡ true
      → Open st
      → Closed (record st { out = st.out ++ w })
  pub stores :
      (st : Serving E) (cached : Bool) (unembedded answer : Text) (plan meta : Option Text)
      (tone : ℤ) (q d : E)
      → Open st
      → Closed (
          save_embedded to_date v reader r cached unembedded answer plan meta tone
            (some q)
            (some d)
            st)
  pub hangs : (st : Serving E) → Ends pending → Open st → Closed st

module _ {E S : Type 0} (to_date : ℕ → ℕ) (v : Vectors E S) (reader : Reader) (r : Request E)
    (F : Flow to_date v reader r) where
  open F use {Open, Closed, Ends, writes, stops, stores, hangs}

  caught-Closed : (st : Serving E) → Open st → Closed (caught to_date v reader st)
  caught-Closed st h = stops st _ refl h

  save_embedded-Closed :
      (cached : Bool) (unembedded answer : Text) (plan meta : Option Text) (tone : ℤ)
      (q d : Option E) (st : Serving E)
      → Open st
      → Closed (save_embedded to_date v reader r cached unembedded answer plan meta tone q d st)
  unfolding save_embedded
  save_embedded-Closed cached unembedded answer plan meta tone (some q) (some d) st h =
      stores st cached unembedded answer plan meta tone q d h
  save_embedded-Closed cached unembedded answer plan meta tone none d st h =
      stops st (session_error unembedded ∷ ended ∷ []) refl h
  save_embedded-Closed cached unembedded answer plan meta tone (some q) none st h =
      stops st (session_error unembedded ∷ ended ∷ []) refl h

  replayed-open :
      (c : CachedAnswerResult S) (answer : Text)
      → is_open (replayed to_date v reader c answer) ≡ true
  replayed-open c answer =
      let exists =
        written_option (codes "exist_in_post_status")
          (optional_text (of_meta reader.meta_exist c.retrieval_meta)) in
      let context = written_context (of_meta reader.meta_context c.retrieval_meta) in
      let answered : List Out =
        write (event_line (codes "answer")) ∷ write (data_line (quote answer)) ∷ [] in
      let plan = written_option (codes "search_plan") c.search_plan in
      open-open (plan ++ context ++ exists) answered
        (open-open (plan ++ context) exists
          (open-open plan context (option-open (codes "search_plan") c.search_plan)
            (context-open (of_meta reader.meta_context c.retrieval_meta)))
          (option-open (codes "exist_in_post_status")
            (optional_text (of_meta reader.meta_exist c.retrieval_meta))))
        refl

  pub replay_cached_answer-Closed :
      (e : Embeddings E) (c : CachedAnswerResult S) (answer : Text) (tone : ℤ) (st : Serving E)
      → Open st
      → Closed (replay_cached_answer to_date v reader r e c answer tone st)
  unfolding replay_cached_answer save_turn
  replay_cached_answer-Closed e c answer tone st h =
      save_embedded-Closed true (codes "persistence_failed") answer c.search_plan c.retrieval_meta
        tone e.question e.duplicate_question
        (record st { out = st.out ++ replayed to_date v reader c answer })
        (writes st (replayed to_date v reader c answer) (replayed-open c answer) h)

  on_finish-Closed :
      (e : Embeddings E) (plan meta : Option Text) (answer : Text) (f : Finish) (st : Serving E)
      → Ends f
      → Open st
      → Closed (on_finish to_date v reader r e plan meta answer f st)
  unfolding on_finish save_turn
  on_finish-Closed e plan meta answer completed st n h =
      save_embedded-Closed false (codes "missing_question_embedding") (trim answer) plan meta
        r.speech_tone e.question e.duplicate_question st h
  on_finish-Closed e plan meta answer abandoned st n h = stops st (ended ∷ []) refl h
  on_finish-Closed e plan meta answer failed st n h = stops st _ refl h
  on_finish-Closed e plan meta answer pending st n h = hangs st n h

  pub on_llm-Closed :
      (e : Embeddings E) (plan meta : Option Text) (s : Option LlmStream) (st : Serving E)
      → Finishing Ends s
      → Open st
      → Closed (on_llm to_date v reader r e plan meta s st)
  unfolding on_llm
  on_llm-Closed e plan meta none st n h = caught-Closed st h
  on_llm-Closed e plan meta (some s) st n h =
      on_finish-Closed e plan meta (buffered_answer to_date v reader s.chunks) s.finish
        (record st { out = st.out ++ map write s.chunks }) n
        (writes st (map write s.chunks) (open-writes s.chunks) h)

  module _ (finishes : (ms : List ChatMessage) → Finishing Ends (r.llm ms)) where
    answer_post-Closed :
        (e : Embeddings E) (history : List ChatMessage) (p : PostLookup) (st : Serving E)
        → Open st
        → Closed (answer_post to_date v reader r e history p st)
    unfolding answer_post
    answer_post-Closed e history broken st h = caught-Closed st h
    answer_post-Closed e history missing st h = stops st _ refl h
    answer_post-Closed e history (found p) st h =
        elim (Bool-cases (forbidden to_date v reader r p)) [
          | inl d ↦ rw (d) (stops st _ refl h)
          | inr d ↦ rw (d) (
              on_llm-Closed e (some p.search_plan) (some p.retrieval_meta)
                (r.llm (prepend_history p.messages history)) _
                (finishes (prepend_history p.messages history)) (writes st _ refl h))
        ]

    answer_retrieval-Closed :
        (e : Embeddings E) (history : List ChatMessage) (k : Option Retrieval) (st : Serving E)
        → Open st
        → Closed (answer_retrieval to_date v reader r e history k st)
    unfolding answer_retrieval
    answer_retrieval-Closed e history none st h = caught-Closed st h
    answer_retrieval-Closed e history (some k) st h =
        on_llm-Closed e (some k.search_plan) (some k.retrieval_meta)
          (r.llm (prepend_history k.messages history)) _
          (finishes (prepend_history k.messages history)) (writes st _ refl h)

    answer_new-Closed :
        (e : Embeddings E) (history : List ChatMessage) (i : Option ℕ) (st : Serving E)
        → Open st
        → Closed (answer_new to_date v reader r e history i st)
    unfolding answer_new
    answer_new-Closed e history none st h = answer_retrieval-Closed e history r.retrieval st h
    answer_new-Closed e history (some zero) st h =
        answer_retrieval-Closed e history r.retrieval st h
    answer_new-Closed e history (some (suc i)) st h = answer_post-Closed e history r.post st h

    answer_rewritten-Closed :
        (e : Embeddings E) (history : List ChatMessage) (c : Option (CachedAnswerResult S))
        (t : Option Text) (st : Serving E)
        → Open st
        → Closed (answer_rewritten to_date v reader r e history c t st)
    unfolding answer_rewritten
    answer_rewritten-Closed e history (some c) (some t) st h =
        replay_cached_answer-Closed e c t r.speech_tone st h
    answer_rewritten-Closed e history (some c) none st h =
        answer_new-Closed e history r.post_id st h
    answer_rewritten-Closed e history none t st h = answer_new-Closed e history r.post_id st h

    answer_selected-Closed :
        (e : Embeddings E) (history : List ChatMessage) (c w : Option (CachedAnswerResult S))
        (st : Serving E)
        → Open st
        → Closed (answer_selected to_date v reader r e history c w st)
    unfolding answer_selected
    answer_selected-Closed e history (some c) w st h =
        replay_cached_answer-Closed e c c.answer c.speech_tone_id st h
    answer_selected-Closed e history none w st h =
        answer_rewritten-Closed e history w r.rewritten st h

    answer_embedded-Closed :
        (history : List ChatMessage) (e : Option (Embeddings E)) (st : Serving E)
        → Open st
        → Closed (answer_embedded to_date v reader r history e st)
    unfolding answer_embedded
    answer_embedded-Closed history none st h = caught-Closed st h
    answer_embedded-Closed history (some e) st h = elim (Bool-cases r.cache_fails) [
      | inl d ↦ rw (d) (caught-Closed st h)
      | inr d ↦ rw (d) (
          let s =
            select_tone_aware_cache_candidate
              (cached_answers to_date v reader r st.db e.duplicate_question) (some r.speech_tone) in
          answer_selected-Closed e history s.matching_candidate s.rewrite_candidate st h)
    ]

    pub answer_stream-Closed :
        (db : Db E)
        → Open (record { out = []; db = db })
        → Closed (answer_stream to_date v reader r db)
    unfolding answer_stream
    answer_stream-Closed db h = elim (Bool-cases r.lookups_fail) [
      | inl d ↦ rw (d) (caught-Closed (record { out = []; db = db }) h)
      | inr d ↦ rw (d) (
          answer_embedded-Closed
            (history_messages
              (load_recent_messages to_date v db r.session.id history_message_limit))
            r.embeddings (record { out = []; db = db }) h)
    ]
