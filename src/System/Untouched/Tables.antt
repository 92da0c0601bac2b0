-- ===== src/System/Untouched/Tables.antt =====
-- repositories/ask-session and ask-message: changes of the tables that leave a session with its messages.
use bubblog_ai.Prelude.{
  ℕ, suc, ◌≡◌, ◌≢◌, inl, inr, refl, ap, subst, sym, ◌∙◌, Bool, true, false, not, some, [], ◌∷◌,
  ◌++◌, arith, ◌==◌, Bool-cases,
}
use bubblog_ai.Prelude.Text.{Text, text_eq, text_eq_iff}
use bubblog_ai.Prelude.Filter.{filter, find}
use bubblog_ai.Prelude.Found.{find-filter-kept, find-true, filter-append-miss, filter-filter-kept}
use bubblog_ai.Repository.{AskSession, Db}
use bubblog_ai.Repository.Keys.{at-only}
use bubblog_ai.Repository.Messages.{in_session}
use bubblog_ai.Repository.Sessions.{
  SessionUpdates, update_where, updated_row, touched, is_for_requester, update_sessions,
  without_session,
}
use bubblog_ai.Repository.Integrity.{IsWellFormed, find-append}
use bubblog_ai.History.{PersistConversationInput}
use bubblog_ai.History.Storage.Rows.{question_row, answer_row, with_turn}
use bubblog_ai.System.Evolution.{session_at}
use bubblog_ai.System.Changes.{update_where-at}

-- The session and its messages are as they were.
pub record Untouched {E : Type 0} (s : AskSession) (db next : Db E) : Type 0 where
  pub session : session_at s.id next.sessions ≡ some s
  pub messages : filter (in_session s.id) next.messages ≡ filter (in_session s.id) db.messages

module _ {E : Type 0} (s : AskSession) (db : Db E) (w : IsWellFormed db)
    (there : session_at s.id db.sessions ≡ some s) where
  pub foreign :
      (i : ℕ) (requester : Text)
      → s.requester_user_id ≢ requester
      → is_for_requester i requester s ≡ false
  foreign i requester n = elim (Bool-cases (text_eq s.requester_user_id requester)) [
    | inl e ↦ absurd (n ((text_eq_iff s.requester_user_id requester).0 e))
    | inr e ↦ ground (arith, e)
  ]

  -- A session of another user has another id.
  pub other_id :
      (i : ℕ) (requester : Text) (t : AskSession)
      → s.requester_user_id ≢ requester
      → find (is_for_requester i requester) db.sessions ≡ some t
      → (s.id == i) ≡ false
  other_id i requester t n e = elim (Bool-cases (s.id == i)) [
    | inr d ↦ d
    | inl d ↦
        let id : s.id ≡ i = ground (arith, d) in
        let found : session_at i db.sessions ≡ some t =
          at-only (λ x. x.id) (λ x. text_eq x.requester_user_id requester) i db.sessions t
            w.sessions_distinct e in
        let same : some s ≡ some t =
          sym (subst (λ j. session_at j db.sessions ≡ some s) id there) ∙ found in
        let equal : s ≡ t = cc (same) in
        let mine : text_eq t.requester_user_id requester ≡ true =
          ground (arith, find-true (is_for_requester i requester) db.sessions t e) in
        absurd (
          n (
            ap (λ (x : AskSession). x.requester_user_id) equal
            ∙ (text_eq_iff t.requester_user_id requester).0 mine))
  ]

  pub same-Untouched : Untouched s db db
  same-Untouched = record { session = there; messages = refl }

  -- An update of other sessions.
  pub update_where-Untouched :
      (p : AskSession → Bool) (f : AskSession → AskSession)
      → ((x : AskSession) → (f x).id ≡ x.id)
      → ((x : AskSession) → (f x).owner_user_id ≡ x.owner_user_id)
      → ((x : AskSession) → (f x).requester_user_id ≡ x.requester_user_id)
      → p s ≡ false
      → session_at s.id (update_where p f db.sessions) ≡ some s
  update_where-Untouched p f id owner requester e =
      update_where-at p f id owner requester s.id db.sessions ∙ (rw (there, e) refl)

  pub created-Untouched :
      (t : AskSession)
      → Untouched s db
          (record db { sessions = db.sessions ++ (t ∷ []); next_session = suc db.next_session })
  created-Untouched t = record {
    session = find-append (λ x. x.id) s.id db.sessions (t ∷ []) s there;
    messages = refl;
  }

  pub with_turn-Untouched :
      (c : PersistConversationInput E)
      → (s.id == c.session_id) ≡ false
      → Untouched s db (with_turn c db)
  unfolding filter
  with_turn-Untouched c e = record {
    session =
        update_where-Untouched (λ x. x.id == c.session_id) (touched db.now) (λ x. refl) (λ x. refl)
          (λ x. refl) e;
    messages =
        filter-append-miss (in_session s.id) (db.messages ++ (question_row c db ∷ []))
          (answer_row c db) (ground (arith, e))
        ∙ filter-append-miss (in_session s.id) db.messages (question_row c db) (ground (arith, e));
  }

  pub updated-Untouched :
      (to_date : ℕ → ℕ) (i : ℕ) (requester : Text) (u : SessionUpdates)
      → s.requester_user_id ≢ requester
      → Untouched s db (update_sessions to_date db i requester u).0
  unfolding update_sessions
  updated-Untouched to_date i requester u n = record {
    session =
        update_where-Untouched (is_for_requester i requester) (updated_row u db.now) (λ x. refl)
          (λ x. refl) (λ x. refl) (foreign i requester n);
    messages = refl;
  }

  pub removed-Untouched :
      (i : ℕ) (requester : Text) (t : AskSession)
      → s.requester_user_id ≢ requester
      → find (is_for_requester i requester) db.sessions ≡ some t
      → Untouched s db (without_session i requester db)
  removed-Untouched i requester t n e = record {
    session =
        find-filter-kept (λ x. x.id == s.id) (λ x. not (is_for_requester i requester x)) db.sessions
          s there (ground (arith, foreign i requester n));
    messages =
        filter-filter-kept (in_session s.id) (λ m. not (m.session_id == i)) db.messages
          (λ m h. ground (arith, h, other_id i requester t n e));
  }
