-- ===== src/System/Turns.antt =====
-- services/session-history.service.ts, `persistConversation`: what it makes of the tables, whether the
-- session is still there or not.
use bubblog_ai.Prelude.{
  ◌≤◌, ℕ, suc, ◌<◌, ◌≡◌, inl, inr, refl, ◌∙◌, none, some, [], ◌∷◌, ◌++◌, All, All-append, arith,
  ◌==◌, ◌||◌, Bool-cases, Option-cases,
}
use bubblog_ai.Prelude.Text.{Text, is_empty}
use bubblog_ai.Prelude.Filter.{All-weaken}
use bubblog_ai.Repository.{AskMessage, AskSession, Db}
use bubblog_ai.Repository.Cache.{Vectors}
use bubblog_ai.Repository.Keys.{at-last}
use bubblog_ai.Repository.Messages.{MessageInput, insert_message}
use bubblog_ai.Repository.Sessions.{touched}
use bubblog_ai.Repository.Integrity.{IsWellFormed, find-append}
use bubblog_ai.History.{
  PersistConversationInput, Faults, question_input, store_conversation, persist_conversation,
}
use bubblog_ai.History.Storage.Rows.{question_row, answer_row, cache_row, with_turn, all_accepted}
use bubblog_ai.History.Storage.{persist_conversation-atomic}
use bubblog_ai.History.Integrity.{with_turn-IsWellFormed}
use bubblog_ai.System.{for_session}
use bubblog_ai.System.Evolution.{
  IsFresh, session_at, IsAttributed, IsGiven, Grows, Follows, Grows-IsAttributed,
}
use bubblog_ai.System.Changes.{update_where-kept, update_where-Follows}

-- What a transaction keeps: the tables stay well-formed, every cached question has its messages and session,
-- the sessions that were given to requests stay between their users, and what is cached is new.
pub record Carries {E : Type 0} (db next : Db E) : Type 0 where
  pub well_formed : IsWellFormed next
  pub attributed : All (IsAttributed next.sessions next.messages) next.cache
  pub follows : Follows db next
  pub clock : db.now ≤ next.now
  pub fresh :
      (owner : Text) (t : ℕ) → t ≤ db.now → IsFresh owner t db.cache → IsFresh owner t next.cache

module _ {E : Type 0} (c : PersistConversationInput E) (db : Db E) where
  with_turn-Grows : Grows db (with_turn c db)
  with_turn-Grows = record {
    sessions =
        update_where-kept (λ s. s.id == c.session_id) (touched db.now) (λ s. refl) (λ s. refl)
          (λ s. refl) db.sessions;
    messages = λ i m e.
        find-append (λ m. m.id) i (db.messages ++ (question_row c db ∷ [])) (answer_row c db ∷ []) m
          (find-append (λ m. m.id) i db.messages (question_row c db ∷ []) m e);
  }

  with_turn-Follows : Follows db (with_turn c db)
  with_turn-Follows =
      let f =
        update_where-Follows (λ s. s.id == c.session_id) (touched db.now) (λ s. refl) (λ s. refl)
          (λ s. refl) db in
      record { counter = f.counter; sessions = f.sessions }

  -- The row of a turn whose session is between the users of the turn.
  cache_row-IsAttributed :
      (s : AskSession)
      → All (λ m. m.id < db.next_message) db.messages
      → session_at c.session_id db.sessions ≡ some s
      → s.owner_user_id ≡ c.owner_user_id
      → s.requester_user_id ≡ c.requester_user_id
      → IsAttributed (with_turn c db).sessions (with_turn c db).messages (cache_row c db)
  cache_row-IsAttributed s below e o r =
      let (t, held, (owner, requester)) = with_turn-Grows.sessions c.session_id s e in
      record {
        question = question_row c db;
        asked =
            find-append (λ m. m.id) db.next_message (db.messages ++ (question_row c db ∷ []))
              (answer_row c db ∷ []) (question_row c db)
              (at-last (λ m. m.id) db.messages (question_row c db) below);
        answer_id = suc db.next_message;
        named = refl;
        answer = answer_row c db;
        answered =
            at-last (λ m. m.id) (db.messages ++ (question_row c db ∷ [])) (answer_row c db)
              (All-append (λ m. m.id < suc db.next_message) db.messages (question_row c db ∷ [])
                (All-weaken (λ (m : AskMessage). m.id < suc db.next_message) db.messages
                  (λ m k. omega (arith, k)) below)
                (omega arith, tt));
        role = refl;
        together = refl;
        session = t;
        held = held;
        owner = owner ∙ o;
        requester = requester ∙ r;
      }

  pub with_turn-Carries :
      (s : AskSession)
      → IsWellFormed db
      → All (IsAttributed db.sessions db.messages) db.cache
      → session_at c.session_id db.sessions ≡ some s
      → s.owner_user_id ≡ c.owner_user_id
      → s.requester_user_id ≡ c.requester_user_id
      → Carries db (with_turn c db)
  with_turn-Carries s w a e o r = record {
    well_formed = with_turn-IsWellFormed c db w (s, e);
    attributed =
        All-append (IsAttributed (with_turn c db).sessions (with_turn c db).messages) db.cache
          (cache_row c db ∷ [])
          (All-weaken (IsAttributed (with_turn c db).sessions (with_turn c db).messages) db.cache
            (λ row h. Grows-IsAttributed db (with_turn c db) with_turn-Grows h) a)
          (cache_row-IsAttributed s w.message_ids e o r, tt);
    follows = with_turn-Follows;
    clock = omega arith;
    fresh = λ owner t past h.
        All-append (λ row. row.owner_user_id ≡ owner → t ≤ row.created_at) db.cache
          (cache_row c db ∷ []) h ((λ _. past), tt);
  }

module _ {E : Type 0} (db : Db E) (w : IsWellFormed db)
    (a : All (IsAttributed db.sessions db.messages) db.cache) where
  pub stays : Carries db db
  stays = record {
    well_formed = w;
    attributed = a;
    follows = record { counter = omega arith; sessions = λ i t below e. (t, e, (refl, refl)) };
    clock = omega arith;
    fresh = λ owner t past h. h;
  }

module _ {E S : Type 0} (to_date : ℕ → ℕ) (v : Vectors E S) where
  insert-sessionless :
      (m : MessageInput) (db : Db E)
      → session_at m.session_id db.sessions ≡ none
      → insert_message to_date m db ≡ none
  unfolding insert_message
  insert-sessionless m db e = rw (insert_message, e) refl

  -- Where the session is gone, nothing is stored.
  persist_conversation-sessionless :
      (f : Faults) (c : PersistConversationInput E) (db : Db E)
      → session_at c.session_id db.sessions ≡ none
      → (persist_conversation to_date v f c db).0 ≡ db
  unfolding persist_conversation store_conversation
  persist_conversation-sessionless f c db e =
      elim (Bool-cases (
        is_empty c.answer
        || v.is_blank c.question_embedding
        || v.is_blank c.duplicate_question_embedding)) [
          | inl d ↦ rw (d) refl
          | inr d ↦ elim (Bool-cases f.begin) [
            | inl b ↦ rw (d, b) refl
            | inr b ↦ elim (Bool-cases f.insert_question) [
              | inl q ↦ rw (d, b, store_conversation, q) refl
              | inr q ↦
                  rw (d, b, store_conversation, q, insert-sessionless (question_input c) db e) refl
            ]
          ]
        ]

  -- Storing a turn leaves the tables, or adds the turn to a session that is there.
  pub persist_conversation-Kept :
      (P : Db E → Type 0) (f : Faults) (c : PersistConversationInput E) (db : Db E)
      → IsWellFormed db
      → P db
      → ((t : AskSession) → session_at c.session_id db.sessions ≡ some t → P (with_turn c db))
      → P (persist_conversation to_date v f c db).0
  unfolding persist_conversation
  persist_conversation-Kept P f c db w same stored =
      elim (Option-cases (session_at c.session_id db.sessions)) [
        | inl e ↦ rw (persist_conversation-sessionless f c db e) same
        | inr (t, e) ↦
            elim (Bool-cases (
              is_empty c.answer
              || v.is_blank c.question_embedding
              || v.is_blank c.duplicate_question_embedding)) [
                | inl d ↦ rw (d) same
                | inr d ↦ elim (Bool-cases (all_accepted f)) [
                  | inl k ↦
                      rw (persist_conversation-atomic to_date v f c db w (t, e) d, k) (stored t e)
                  | inr k ↦ rw (persist_conversation-atomic to_date v f c db w (t, e) d, k) same
                ]
              ]
      ]

  -- A turn of a session that was given to its request, whether it is still there or not.
  pub persist_conversation-Carries :
      (db : Db E) (w : IsWellFormed db) (a : All (IsAttributed db.sessions db.messages) db.cache)
      (f : Faults) (c : PersistConversationInput E) (s : AskSession)
      → IsGiven db s
      → Carries db (persist_conversation to_date v f (for_session s c) db).0
  persist_conversation-Carries db w a f c s g =
      persist_conversation-Kept (Carries db) f (for_session s c) db w (stays db w a)
        (λ t e. with_turn-Carries (for_session s c) db t w a e (g.same t e).0 (g.same t e).1)
