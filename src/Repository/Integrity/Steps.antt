-- ===== src/Repository/Integrity/Steps.antt =====
-- The statements that change the tables, in any order: what holds of the tables holds after them.
pub mod Tables
use bubblog_ai.Prelude.{
  ℕ, suc, ◌+◌, ◌<◌, ◌≤◌, ◌≡◌, inl, inr, refl, ◌∙◌, Bool, true, not, Option, none, some, arith, ◌==◌,
  List, [], ◌∷◌, ◌++◌, map, All, All-append, Bool-cases, if◌then◌else◌, Option-cases,
}
use bubblog_ai.Prelude.Text.{Text, text_eq}
use bubblog_ai.Prelude.Filter.{filter, find, filter-All, All-weaken}
use bubblog_ai.Repository.{AskMessage, AskSession, CacheRow, Db, refers}
use bubblog_ai.Repository.Messages.{MessageInput, insert_message, has_session}
use bubblog_ai.Repository.Sessions.{
  has_field, create_session, new_session, SessionUpdates, update_session_meta, update_sessions,
  updated_row, touched, touch_session_last_question, delete_session, without_session,
  is_for_requester,
}
use bubblog_ai.Repository.Cache.{
  EmbeddingInput, upsert_embedding, upserted, delete_embeddings_by_owner, inserted, overwritten,
  conflicts,
}
use bubblog_ai.Repository.Integrity.{
  HasSession, IsWellFormed, Distinct-append, filter-Distinct, HasSession-append,
  with_message-IsWellFormed, update_where-IsWellFormed,
}
use bubblog_ai.Repository.Integrity.Steps.Tables.{
  kept, find-filter, kept-HasSession, create-IsWellFormed, cache-IsWellFormed, tick-IsWellFormed,
  overwrite-All, upserted-All, upsert-IsWellFormed, without_session-IsWellFormed,
}

-- A statement sent on its own; the clock may move between two of them.
pub data Query (E : Type 0) : Type 0 where
  create : Text → Text → Option Text → Option Text → Query E
  insert_row : MessageInput → Query E
  upsert : EmbeddingInput E → Query E
  touch : ℕ → Query E
  update_meta : ℕ → Text → SessionUpdates → Query E
  delete_one : ℕ → Text → Query E
  delete_owner : Text → Query E
  tick : ℕ → Query E

module _ {E : Type 0} (to_date : ℕ → ℕ) where
  unfoldable pub query : Db E → Query E → Db E
  unfolding create_session insert_message upsert_embedding touch_session_last_question
      update_session_meta delete_session delete_embeddings_by_owner
  query db (create requester owner title metadata) =
      (create_session to_date requester owner title metadata db).0
  query db (insert_row m) = kept db (insert_message to_date m db)
  query db (upsert c) = kept db (upsert_embedding c db)
  query db (touch i) = kept db (touch_session_last_question i db)
  query db (update_meta i requester u) = (update_session_meta to_date db i requester u).0
  query db (delete_one i requester) = (delete_session i requester db).0
  query db (delete_owner owner) = (delete_embeddings_by_owner owner db).0
  query db (tick n) = record db { now = db.now + n }

  unfoldable pub queries : Db E → List (Query E) → Db E
  unfolding query
  queries db [] = db
  queries db (q ∷ qs) = queries (query db q) qs

module _ {E : Type 0} (to_date : ℕ → ℕ) where
  insert-IsWellFormed :
      (m : MessageInput) (db : Db E)
      → IsWellFormed db
      → IsWellFormed (kept db (insert_message to_date m db))
  unfolding insert_message
  insert-IsWellFormed m db w = elim (Option-cases (find (has_session m.session_id) db.sessions)) [
    | inl e ↦ rw (kept, e) w
    | inr (s, e) ↦ rw (kept, e) (with_message-IsWellFormed m db (s, e) w)
  ]

  update_meta-IsWellFormed :
      (i : ℕ) (requester : Text) (u : SessionUpdates) (db : Db E)
      → IsWellFormed db
      → IsWellFormed (update_session_meta to_date db i requester u).0
  unfolding update_session_meta
  update_meta-IsWellFormed i requester u db w = elim (Bool-cases (has_field u)) [
    | inl e ↦
        rw (e, update_sessions)
          (update_where-IsWellFormed (is_for_requester i requester) (updated_row u db.now)
            (λ s. refl) db w)
    | inr e ↦ rw (e) w
  ]

  delete_session-IsWellFormed :
      (i : ℕ) (requester : Text) (db : Db E)
      → IsWellFormed db
      → IsWellFormed (delete_session i requester db).0
  unfolding delete_session
  delete_session-IsWellFormed i requester db w =
      elim (Option-cases (find (is_for_requester i requester) db.sessions)) [
        | inl e ↦ rw (delete_session, e) w
        | inr (s, e) ↦ rw (delete_session, e) (without_session-IsWellFormed i requester db w)
      ]

  -- Every statement keeps what holds of the tables.
  query-IsWellFormed :
      (db : Db E) (q : Query E) → IsWellFormed db → IsWellFormed (query to_date db q)
  unfolding query
  query-IsWellFormed db (create requester owner title metadata) w =
      create-IsWellFormed requester owner title metadata db w
  query-IsWellFormed db (insert_row m) w = insert-IsWellFormed m db w
  query-IsWellFormed db (upsert c) w = upsert-IsWellFormed c db w
  query-IsWellFormed db (touch i) w =
      update_where-IsWellFormed (λ s. s.id == i) (touched db.now) (λ s. refl) db w
  query-IsWellFormed db (update_meta i requester u) w = update_meta-IsWellFormed i requester u db w
  query-IsWellFormed db (delete_one i requester) w = delete_session-IsWellFormed i requester db w
  query-IsWellFormed db (delete_owner owner) w =
      cache-IsWellFormed db (filter (λ row. not (text_eq row.owner_user_id owner)) db.cache)
        (filter-All (λ r. refers db.messages (some r.message_id) ≡ true)
          (λ row. not (text_eq row.owner_user_id owner)) db.cache (λ r _ k. k) w.questions)
        w
  query-IsWellFormed db (tick n) w = tick-IsWellFormed db n w

  pub queries-IsWellFormed :
      (db : Db E) (qs : List (Query E)) → IsWellFormed db → IsWellFormed (queries to_date db qs)
  unfolding queries
  queries-IsWellFormed db [] w = w
  queries-IsWellFormed db (q ∷ qs) w =
      queries-IsWellFormed (query to_date db q) qs (query-IsWellFormed db q w)
