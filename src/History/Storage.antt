-- ===== src/History/Storage.antt =====
-- services/session-history.service.ts, `persistConversation`: a turn is stored as a whole or not at all,
-- and a stored turn is what the next question sees.
pub mod Rows
use bubblog_ai.Prelude.{
  ◌||◌, ℕ, suc, ◌<◌, ◌≡◌, inl, inr, refl, subst, Bool, true, false, not, none, some, arith, ◌==◌,
  ◌&&◌, List, [], ◌∷◌, ◌++◌, All, Bool-cases, if◌then◌else◌,
}
use bubblog_ai.Prelude.Filter.{find}
use bubblog_ai.Repository.{
  ended, continue, control, with_transaction, returned, threw, user, assistant, AskMessage,
  AskSession, CacheRow, Db, refers,
}
use bubblog_ai.Repository.Messages.{
  MessageInput, with_message, new_message, insert_message, map_message,
}
use bubblog_ai.Repository.Sessions.{update_where, touched, touch_session_last_question}
use bubblog_ai.Repository.Cache.{
  EmbeddingInput, Vectors, EmbeddingInput, upsert_embedding, upserted, inserted, conflicts,
}
use bubblog_ai.Repository.Integrity.{HasSession, IsWellFormed}
use bubblog_ai.History.{
  is_empty, persist_conversation, store_question, question_input, answer_input, cache_input,
  PersistConversationInput, Faults, store_conversation, normalized_tone,
}
use bubblog_ai.History.Storage.Rows.{
  question_row, answer_row, cache_row, with_turn, all_accepted, refers-below, conflict-free,
  find-none, other, refers-turn,
}

module _ {E S : Type 0} (to_date : ℕ → ℕ) (v : Vectors E S) where
  insert-found :
      (m : MessageInput) (db : Db E)
      → HasSession db.sessions m.session_id
      → insert_message to_date m db
        ≡ some (map_message to_date (new_message m db), with_message m db)
  unfolding insert_message
  insert-found m db (s, e) = rw (insert_message, e) refl

  upsert-new :
      (c : EmbeddingInput E) (db : Db E)
      → refers db.messages (some c.message_id) ≡ true
      → refers db.messages c.answer_message_id ≡ true
      → find (conflicts c.message_id) db.cache ≡ none
      → upsert_embedding c db
        ≡ some (tt, record db { cache = db.cache ++ (inserted c db.now ∷ []) })
  unfolding upsert_embedding
  upsert-new c db e d n = rw (upsert_embedding, e, d, upserted, n) refl

  stores-question :
      (b u t m : Bool) (c : PersistConversationInput E) (db after : Db E)
      → upsert_embedding (cache_input c db.next_message (suc db.next_message)) after
        ≡ some (tt, record after { cache = after.cache ++ (cache_row c db ∷ []) })
      → store_question to_date v
          (record {
            begin = b;
            insert_question = false;
            insert_answer = false;
            upsert = u;
            touch = t;
            commit = m;
          })
          c
          db.next_message
          (suc db.next_message)
          after
        ≡ (if not u && not t
            then some (
              tt,
              record after {
                sessions =
                    update_where (λ s. s.id == c.session_id) (touched after.now) after.sessions;
                cache = after.cache ++ (cache_row c db ∷ []);
              },
            )
            else none)
  unfolding store_question touch_session_last_question
  stores-question b true t m c db after e = refl
  stores-question b false true m c db after e = rw (store_question, e) refl
  stores-question b false false m c db after e = rw (store_question, e) refl

  -- Which statement is refused first decides; without one, all is stored.
  stores :
      (b q a u t m : Bool) (c : PersistConversationInput E) (db : Db E)
      → IsWellFormed db
      → HasSession db.sessions c.session_id
      → store_conversation to_date v
          (record {
            begin = b;
            insert_question = q;
            insert_answer = a;
            upsert = u;
            touch = t;
            commit = m;
          })
          c
          db
        ≡ (if not q && not a && not u && not t then some (tt, with_turn c db) else none)
  unfolding store_conversation
  stores b true a u t m c db w h = refl
  stores b false true u t m c db w h =
      rw (store_conversation, insert-found (question_input c) db h) refl
  stores b false false u t m c db w h =
      let after : Db E = with_message (answer_input c) (with_message (question_input c) db) in
      let found =
        refers-turn db.next_message db.messages (question_row c db) (answer_row c db) w.message_ids
          refl refl in
      let fresh =
        find-none (conflicts db.next_message) db.cache
          (conflict-free db.next_message db.messages db.cache w.message_ids w.questions) in
      rw
        (
          store_conversation,
          insert-found (question_input c) db h,
          insert-found (answer_input c) (with_message (question_input c) db) h,
        )
        (stores-question b u t m c db after (
          upsert-new (cache_input c db.next_message (suc db.next_message)) after found.0 found.1
            fresh))

  finish :
      (k m : Bool) (db next : Db E)
      → ended db (continue (if k then some (tt, next) else none) (λ _. control m))
        ≡ (if k && not m then (next, returned) else (db, threw))
  finish true true db next = refl
  finish true false db next = refl
  finish false m db next = refl

  commits :
      (b q a u t m : Bool) (c : PersistConversationInput E) (db : Db E)
      → IsWellFormed db
      → HasSession db.sessions c.session_id
      → with_transaction b m
          (store_conversation to_date v
            (record {
              begin = b;
              insert_question = q;
              insert_answer = a;
              upsert = u;
              touch = t;
              commit = m;
            })
            c)
          db
        ≡ (if not b && (not q && not a && not u && not t) && not m
            then (with_turn c db, returned)
            else (db, threw))
  commits true q a u t m c db w h = refl
  commits false q a u t m c db w h =
      rw (stores false q a u t m c db w h)
        (finish (not q && not a && not u && not t) m db (with_turn c db))

  -- In a well-formed database, a turn with an answer and both embeddings, in a session that is there, is stored whole if the
  -- connection accepts every statement. If it refuses one, nothing changes and the error is thrown.
  pub persist_conversation-atomic :
      (f : Faults) (c : PersistConversationInput E) (db : Db E)
      → IsWellFormed db
      → HasSession db.sessions c.session_id
      → (is_empty c.answer
          || v.is_blank c.question_embedding
          || v.is_blank c.duplicate_question_embedding)
        ≡ false
      → persist_conversation to_date v f c db
        ≡ (if all_accepted f then (with_turn c db, returned) else (db, threw))
  unfolding persist_conversation
  persist_conversation-atomic f c db w h e =
      rw (e) (commits f.begin f.insert_question f.insert_answer f.upsert f.touch f.commit c db w h)
