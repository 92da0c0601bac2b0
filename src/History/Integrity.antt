-- ===== src/History/Integrity.antt =====
-- services/session-history.service.ts, `persistConversation`: what holds of the tables holds after it.
use bubblog_ai.Prelude.{
  inl, inr, ℕ, ◌≡◌, refl, true, some, ◌==◌, ◌||◌, [], ◌∷◌, ◌++◌, All-append, Bool-cases,
}
use bubblog_ai.Prelude.Text.{is_empty}
use bubblog_ai.Repository.{Db, refers}
use bubblog_ai.Repository.Messages.{with_message}
use bubblog_ai.Repository.Sessions.{touched}
use bubblog_ai.Repository.Cache.{Vectors}
use bubblog_ai.Repository.Integrity.{
  HasSession, IsWellFormed, with_message-IsWellFormed, update_where-IsWellFormed,
}
use bubblog_ai.Repository.Integrity.Steps.Tables.{cache-IsWellFormed}
use bubblog_ai.History.{
  PersistConversationInput, Faults, question_input, answer_input, persist_conversation,
}
use bubblog_ai.History.Storage.Rows.{
  question_row, answer_row, cache_row, with_turn, all_accepted, refers-turn,
}
use bubblog_ai.History.Storage.{persist_conversation-atomic}

module _ {E : Type 0} where
  pub with_turn-IsWellFormed :
      (c : PersistConversationInput E) (db : Db E)
      → IsWellFormed db
      → HasSession db.sessions c.session_id
      → IsWellFormed (with_turn c db)
  with_turn-IsWellFormed c db w h =
      let one = with_message-IsWellFormed (question_input c) db h w in
      let two =
        with_message-IsWellFormed (answer_input c) (with_message (question_input c) db) h one in
      let after : Db E = with_message (answer_input c) (with_message (question_input c) db) in
      let found =
        refers-turn db.next_message db.messages (question_row c db) (answer_row c db) w.message_ids
          refl refl in
      let three =
        cache-IsWellFormed after (db.cache ++ (cache_row c db ∷ []))
          (All-append (λ r. refers after.messages (some r.message_id) ≡ true) db.cache
            (cache_row c db ∷ []) two.questions (found.0, tt))
          two in
      update_where-IsWellFormed (λ s. s.id == c.session_id) (touched db.now) (λ s. refl)
        (record after { cache = db.cache ++ (cache_row c db ∷ []) }) three

module _ {E S : Type 0} (to_date : ℕ → ℕ) (v : Vectors E S) where
  -- Storing a turn in a session that is there, or failing to, keeps a well-formed database well-formed,
  -- whichever statement the connection refuses.
  pub persist_conversation-IsWellFormed :
      (f : Faults) (c : PersistConversationInput E) (db : Db E)
      → IsWellFormed db
      → HasSession db.sessions c.session_id
      → IsWellFormed (persist_conversation to_date v f c db).0
  unfolding persist_conversation
  persist_conversation-IsWellFormed f c db w h =
      elim (Bool-cases (
        is_empty c.answer
        || v.is_blank c.question_embedding
        || v.is_blank c.duplicate_question_embedding)) [
          | inl e ↦ rw (e) w
          | inr e ↦ elim (Bool-cases (all_accepted f)) [
            | inl a ↦
                rw (persist_conversation-atomic to_date v f c db w h e, a)
                  (with_turn-IsWellFormed c db w h)
            | inr a ↦ rw (persist_conversation-atomic to_date v f c db w h e, a) w
          ]
        ]
