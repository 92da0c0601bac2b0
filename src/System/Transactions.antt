-- ===== src/System/Transactions.antt =====
-- repositories/ask-session and ask-question-cache: each transaction carries on what holds of the tables.
use bubblog_ai.Prelude.{
  ◌≤◌, arith, ℕ, suc, ◌+◌, ◌≡◌, refl, true, not, Option, some, [], ◌∷◌, ◌++◌, All, ◌==◌,
}
use bubblog_ai.Prelude.Text.{Text, text_eq}
use bubblog_ai.Prelude.Filter.{filter, All-weaken, filter-All}
use bubblog_ai.Repository.{AskSession, Db, refers}
use bubblog_ai.Repository.Cache.{delete_embeddings_by_owner}
use bubblog_ai.Repository.Sessions.{
  SessionUpdates, new_session, is_for_requester, updated_row, update_sessions, without_session,
}
use bubblog_ai.Repository.Integrity.{IsWellFormed, update_where-IsWellFormed}
use bubblog_ai.Repository.Integrity.Steps.Tables.{
  create-IsWellFormed, cache-IsWellFormed, tick-IsWellFormed, without_session-IsWellFormed,
}
use bubblog_ai.System.Evolution.{IsAttributed, Grows-IsAttributed}
use bubblog_ai.System.Changes.{
  update_where-kept, update_where-Follows, append-Grows, append-Follows, same-Follows,
  without_session-Follows, without_session-IsAttributed,
}
use bubblog_ai.System.Turns.{Carries}

module _ {E : Type 0} (db : Db E) (w : IsWellFormed db)
    (a : All (IsAttributed db.sessions db.messages) db.cache) where
  pub updated-Carries :
      (to_date : ℕ → ℕ) (i : ℕ) (requester : Text) (u : SessionUpdates)
      → Carries db (update_sessions to_date db i requester u).0
  unfolding update_sessions
  updated-Carries to_date i requester u = record {
    well_formed =
        update_where-IsWellFormed (is_for_requester i requester) (updated_row u db.now) (λ s. refl)
          db w;
    attributed =
        All-weaken (IsAttributed (update_sessions to_date db i requester u).0.sessions db.messages)
          db.cache
          (λ row h.
            Grows-IsAttributed db (update_sessions to_date db i requester u).0
              (record {
                sessions =
                    update_where-kept (is_for_requester i requester) (updated_row u db.now)
                      (λ s. refl) (λ s. refl) (λ s. refl) db.sessions;
                messages = λ i m e. e;
              })
              h)
          a;
    follows =
        update_where-Follows (is_for_requester i requester) (updated_row u db.now) (λ s. refl)
          (λ s. refl) (λ s. refl) db;
    clock = omega arith;
    fresh = λ owner t past h. h;
  }

  pub removed-Carries : (i : ℕ) (requester : Text) → Carries db (without_session i requester db)
  removed-Carries i requester =
      let kept = filter (λ m. not (m.session_id == i)) db.messages in
      record {
        well_formed = without_session-IsWellFormed i requester db w;
        attributed =
            filter-All (IsAttributed (without_session i requester db).sessions kept)
              (λ row. refers kept (some row.message_id)) db.cache
              (λ row e h. without_session-IsAttributed db i requester row w e h) a;
        follows = without_session-Follows db i requester w;
        clock = omega arith;
        fresh = λ owner t past h.
            filter-All (λ row. row.owner_user_id ≡ owner → t ≤ row.created_at)
              (λ row. refers kept (some row.message_id)) db.cache (λ row _ k. k) h;
      }

  pub created-Carries :
      (requester owner : Text) (title metadata : Option Text)
      → Carries db (record db {
        sessions = db.sessions ++ (new_session requester owner title metadata db ∷ []);
        next_session = suc db.next_session;
      })
  created-Carries requester owner title metadata =
      let row : AskSession = new_session requester owner title metadata db in
      record {
        well_formed = create-IsWellFormed requester owner title metadata db w;
        attributed =
            All-weaken (IsAttributed (db.sessions ++ (row ∷ [])) db.messages) db.cache
              (λ r h.
                Grows-IsAttributed db
                  (record db {
                    sessions = db.sessions ++ (row ∷ []);
                    next_session = suc db.next_session;
                  })
                  (append-Grows db row refl) h)
              a;
        follows = append-Follows db row refl;
        clock = omega arith;
        fresh = λ owner t past h. h;
      }

  pub invalidated-Carries : (owner : Text) → Carries db (delete_embeddings_by_owner owner db).0
  unfolding delete_embeddings_by_owner
  invalidated-Carries owner =
      let rows = filter (λ row. not (text_eq row.owner_user_id owner)) db.cache in
      record {
        well_formed =
            cache-IsWellFormed db rows
              (filter-All (λ r. refers db.messages (some r.message_id) ≡ true)
                (λ row. not (text_eq row.owner_user_id owner)) db.cache (λ r _ k. k) w.questions)
              w;
        attributed =
            filter-All (IsAttributed db.sessions db.messages)
              (λ row. not (text_eq row.owner_user_id owner)) db.cache (λ r _ k. k) a;
        follows = same-Follows db db.messages rows db.next_message db.now;
        clock = omega arith;
        fresh = λ o t past h.
            filter-All (λ row. row.owner_user_id ≡ o → t ≤ row.created_at)
              (λ row. not (text_eq row.owner_user_id owner)) db.cache (λ row _ k. k) h;
      }

  pub waited-Carries : (n : ℕ) → Carries db (record db { now = db.now + n })
  waited-Carries n = record {
    well_formed = tick-IsWellFormed db n w;
    attributed = a;
    follows = same-Follows db db.messages db.cache db.next_message (db.now + n);
    clock = omega arith;
    fresh = λ owner t past h. h;
  }
