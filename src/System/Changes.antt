-- ===== src/System/Changes.antt =====
-- repositories/ask-session and ask-message: the transactions as changes of the tables in the sense of
-- `System.Evolution`.
use bubblog_ai.Prelude.{
  ℕ, suc, ◌≡◌, inl, inr, refl, sym, subst, ◌∙◌, Bool, true, false, not, Option, none, some, List,
  [], ◌∷◌, ◌++◌, arith, ◌==◌, if◌then◌else◌, Bool-cases, Option-cases,
}
use bubblog_ai.Prelude.Text.{Text}
use bubblog_ai.Prelude.Filter.{filter}
use bubblog_ai.Prelude.Found.{find-map, find-append-miss, find-filter-kept, find-true}
use bubblog_ai.Repository.{AskMessage, AskSession, CacheRow, Db, refers}
use bubblog_ai.Repository.Keys.{at-filter}
use bubblog_ai.Repository.Sessions.{update_where, is_for_requester, without_session}
use bubblog_ai.Repository.Integrity.{IsWellFormed, find-append}
use bubblog_ai.System.Evolution.{session_at, message_at, SameUsers, IsAttributed, Grows, Follows}

changed :
    {A : Type 0} (f : A → A) (o : Option A) (t : A)
    → elim o [ none ↦ none | some s ↦ some (f s) ] ≡ some t
    → (s : A) × (o ≡ some s) × (f s ≡ t)
changed f none t e = absurd (ground (arith, e))
changed f (some s) t e = (s, refl, cc (e))

-- An update that changes no id and no user.
module _ (p : AskSession → Bool) (f : AskSession → AskSession)
    (id : (s : AskSession) → (f s).id ≡ s.id)
    (owner : (s : AskSession) → (f s).owner_user_id ≡ s.owner_user_id)
    (requester : (s : AskSession) → (f s).requester_user_id ≡ s.requester_user_id) where
  row_after-id : (s : AskSession) → (if p s then f s else s).id ≡ s.id
  row_after-id s = elim (Bool-cases (p s)) [ inl e ↦ rw (e) (id s) | inr e ↦ rw (e) refl ]

  row_after-users : (s : AskSession) → SameUsers s (if p s then f s else s)
  row_after-users s = elim (Bool-cases (p s)) [
    | inl e ↦ rw (e) (owner s, requester s)
    | inr e ↦ rw (e) (refl, refl)
  ]

  pub update_where-at :
      (i : ℕ) (ss : List AskSession)
      → session_at i (update_where p f ss)
        ≡ elim (session_at i ss) [ none ↦ none | some s ↦ some (if p s then f s else s) ]
  update_where-at i ss =
      find-map (λ s. s.id == i) (λ s. if p s then f s else s) ss (λ s. rw (row_after-id s) refl)

  pub update_where-kept :
      (ss : List AskSession) (i : ℕ) (s : AskSession)
      → session_at i ss ≡ some s
      → (t : AskSession) × (session_at i (update_where p f ss) ≡ some t) × SameUsers s t
  update_where-kept ss i s e =
      ((if p s then f s else s), rw (update_where-at i ss, e) refl, row_after-users s)

  pub update_where-Follows :
      {E : Type 0} (db : Db E) → Follows db (record db { sessions = update_where p f db.sessions })
  update_where-Follows db = record {
    counter = omega arith;
    sessions = λ i t below e.
        let (s, was, same) =
          changed (λ s. if p s then f s else s) (session_at i db.sessions) t
            (sym (update_where-at i db.sessions) ∙ e) in
        (s, was, subst (SameUsers s) same (row_after-users s));
  }

module _ {E : Type 0} (db : Db E) (s : AskSession) (n : s.id ≡ db.next_session) where
  -- A session with the next id.
  pub append-Grows :
      Grows db
        (record db { sessions = db.sessions ++ (s ∷ []); next_session = suc db.next_session })
  append-Grows = record {
    sessions = λ i t e. (t, find-append (λ s. s.id) i db.sessions (s ∷ []) t e, (refl, refl));
    messages = λ i m e. e;
  }

  pub append-Follows :
      Follows db
        (record db { sessions = db.sessions ++ (s ∷ []); next_session = suc db.next_session })
  append-Follows = record {
    counter = omega arith;
    sessions = λ i t below e. (
      t,
      sym (find-append-miss (λ s. s.id == i) db.sessions s (ground (arith, below, n))) ∙ e,
      (refl, refl),
    );
  }

module _ {E : Type 0} (db : Db E) where
  -- Changes that leave the sessions as they are.
  pub same-Follows :
      (ms : List AskMessage) (rows : List (CacheRow E)) (n now : ℕ)
      → Follows db (record db { messages = ms; cache = rows; next_message = n; now = now })
  same-Follows ms rows n now = record {
    counter = omega arith;
    sessions = λ i t below e. (t, e, (refl, refl));
  }

  pub without_session-Follows :
      (i : ℕ) (requester : Text) → IsWellFormed db → Follows db (without_session i requester db)
  without_session-Follows i requester w = record {
    counter = omega arith;
    sessions = λ j t below e. (
      t,
      (at-filter (λ s. s.id) (λ s. not (is_for_requester i requester s)) j db.sessions t
          w.sessions_distinct e).0,
      (refl, refl),
    );
  }

  -- A question that is still referred to behind a deletion was not in the deleted session.
  kept-question :
      (i : ℕ) (row : CacheRow E) (q : AskMessage)
      → IsWellFormed db
      → refers (filter (λ m. not (m.session_id == i)) db.messages) (some row.message_id) ≡ true
      → message_at row.message_id db.messages ≡ some q
      → not (q.session_id == i) ≡ true
  kept-question i row q w e asked =
      let keep : AskMessage → Bool = λ m. not (m.session_id == i) in
      elim (Option-cases (message_at row.message_id (filter keep db.messages))) [
        | inl n ↦
            let lost : refers (filter keep db.messages) (some row.message_id) ≡ false =
              rw (refers, n) refl in
            absurd (ground (arith, e, lost))
        | inr (m, n) ↦
            let found =
              at-filter (λ m. m.id) keep row.message_id db.messages m w.messages_distinct n in
            let same : some m ≡ some q = sym found.0 ∙ asked in
            let equal : m ≡ q = cc (same) in subst (λ x. keep x ≡ true) equal found.1
      ]

  -- Behind a deletion, the rows that are left have their messages and session.
  pub without_session-IsAttributed :
      (i : ℕ) (requester : Text) (row : CacheRow E)
      → IsWellFormed db
      → refers (filter (λ m. not (m.session_id == i)) db.messages) (some row.message_id) ≡ true
      → IsAttributed db.sessions db.messages row
      → IsAttributed
          (filter (λ s. not (is_for_requester i requester s)) db.sessions)
          (filter (λ m. not (m.session_id == i)) db.messages)
          row
  without_session-IsAttributed i requester row w e a =
      let keep : AskMessage → Bool = λ m. not (m.session_id == i) in
      let stays = kept-question i row a.question w e a.asked in
      record {
        question = a.question;
        asked =
            find-filter-kept (λ m. m.id == row.message_id) keep db.messages a.question a.asked
              stays;
        answer_id = a.answer_id;
        named = a.named;
        answer = a.answer;
        answered =
            find-filter-kept (λ m. m.id == a.answer_id) keep db.messages a.answer a.answered
              (ground (arith, stays, a.together));
        role = a.role;
        together = a.together;
        session = a.session;
        held =
            find-filter-kept (λ s. s.id == a.question.session_id)
              (λ s. not (is_for_requester i requester s)) db.sessions a.session a.held
              (ground (
                arith,
                stays,
                find-true (λ s. s.id == a.question.session_id) db.sessions a.session a.held,
              ));
        owner = a.owner;
        requester = a.requester;
      }
